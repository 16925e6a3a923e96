-- ===== src/Tensor/Launch.antt =====
-- What the launches that src/tensor.rs works out cover.
use gpu_compute_nostd.Base.{
  ℕ, ◌+◌, ◌-◌, ◌*◌, ◌^◌, ◌≤◌, ◌<◌, ◌≡◌, some, List, [], ◌∷◌, All, arith, refl,
}
use gpu_compute_nostd.Compute.{total_threads}
use gpu_compute_nostd.Tensor.Operations.{Launch, tiles, matmul_launch, gelu_launch}

tiles_cover : (n : ℕ) → n < 2 ^ 38 → (n ≤ tiles n 128 * 128) × (tiles n 128 * 128 < n + 128)
unfolding tiles
tiles_cover n h = omega arith

-- `matmul` gets as far as a launch only with an M x K, a K x N and an M x N matrix, and for sides
-- of the product below 2^38 its 128 x 128 tiles cover the product with less than a tile to spare
-- each way, by blocks of 256 threads.
pub matmul_launch-covers :
    (a b c : List ℕ) {l : Launch}
    → All (λ d. d < 2 ^ 38) c
    → matmul_launch a b c ≡ some l
    → (m : ℕ) × (k : ℕ) × (n : ℕ) × (a ≡ m ∷ k ∷ [])
      × (b ≡ k ∷ n ∷ [])
      × (c ≡ m ∷ n ∷ [])
      × (n ≤ l.0.x * 128)
      × (l.0.x * 128 < n + 128)
      × (m ≤ l.0.y * 128)
      × (l.0.y * 128 < m + 128)
      × (total_threads l.1 ≡ 256)
unfolding matmul_launch total_threads
matmul_launch-covers (m ∷ k ∷ []) (k' ∷ n ∷ []) (m' ∷ n' ∷ []) small e =
    let wide = tiles_cover n' small.1.0 in
    let tall = tiles_cover m' small.0 in
    (
      m,
      k,
      n,
      refl,
      ground arith,
      ground arith,
      ground (arith, wide),
      ground (arith, wide),
      ground (arith, tall),
      ground (arith, tall),
      ground arith,
    )
matmul_launch-covers _ _ _ small e = absurd (cc)

-- The blocks of `gelu` have a thread for each of up to 2^32 - 256 elements, with less than a block
-- to spare.
pub gelu_launch-covers :
    (total : ℕ)
    → total ≤ 2 ^ 32 - 256
    → let (grid, block) = gelu_launch total in
      (total ≤ grid.x * total_threads block) × (grid.x * total_threads block < total + 256)
unfolding gelu_launch total_threads
gelu_launch-covers total h = omega arith
