-- ===== src/Tensor/Operations.antt =====
-- The kernel operations of src/tensor.rs: they check the shapes and work out the launch, and then
-- return `false`, since no shader binary exists yet. The launch is a value of its own here.
use gpu_compute_nostd.Base.{
  ℕ, ◌+◌, ◌-◌, ◌/◌, ◌^◌, min, Bool, true, false, Option, none, some, List, [], ◌∷◌, reverse, u32,
  u64, ◌==◌, ◌!=◌, ◌||◌, ◌&&◌, if◌then◌else◌,
}
use gpu_compute_nostd.Compute.{GridDim, BlockDim}
use gpu_compute_nostd.Tensor.Shape.{multiply}
use gpu_compute_nostd.Tensor.Descriptor.{TensorDescriptor}

abbrev pub Launch : Type 0
Launch = GridDim × BlockDim

-- `(n + tile - 1) / tile` on `usize`, cast to `u32`
unfoldable pub tiles : ℕ → ℕ → ℕ
tiles n tile = u32 (u64 (u64 (n + tile) + 2 ^ 64 - 1) / tile)

-- the checks and the launch of `matmul`, on the three shapes
unfoldable pub matmul_launch : List ℕ → List ℕ → List ℕ → Option Launch
unfolding tiles
matmul_launch (m ∷ k ∷ []) (k' ∷ n ∷ []) (m' ∷ n' ∷ []) =
    if (k' != k) || ((m' != m) || (n' != n))
    then none
    else some (record { x = tiles n 128; y = tiles m 128; z = 1 }, record { x = 256; y = 1; z = 1 })
matmul_launch _ _ _ = none

unfoldable pub matmul : TensorDescriptor → TensorDescriptor → TensorDescriptor → Bool
unfolding matmul_launch
matmul a b c = elim (matmul_launch a.shape b.shape c.shape) [ none ↦ false | some launch ↦ false ]

-- `==` on slices
unfoldable pub shape_eq : List ℕ → List ℕ → Bool
shape_eq [] [] = true
shape_eq (x ∷ xs) (y ∷ ys) = (x == y) && shape_eq xs ys
shape_eq _ _ = false

-- `*last().unwrap_or(&1)`, on the reversed shape
unfoldable pub head_or_one : List ℕ → ℕ
head_or_one [] = 1
head_or_one (d ∷ ds) = d

-- `skip(1)`
unfoldable pub skip_one : List ℕ → List ℕ
skip_one [] = []
skip_one (d ∷ ds) = ds

-- the check and the launch of `softmax`: a block per row, at most 1024 threads
unfoldable pub softmax_launch : List ℕ → List ℕ → Option Launch
unfolding shape_eq head_or_one skip_one multiply
softmax_launch input output =
    if shape_eq input output
    then some (
      record { x = u32 (multiply 1 (skip_one (reverse input))); y = 1; z = 1 },
      record { x = min (head_or_one (reverse input)) 1024; y = 1; z = 1 },
    )
    else none

unfoldable pub softmax : TensorDescriptor → TensorDescriptor → Bool
unfolding softmax_launch
softmax input output = elim (softmax_launch input.shape output.shape) [
  | none ↦ false
  | some launch ↦ false
]

-- the launch of `gelu`: a thread for each element
unfoldable pub gelu_launch : ℕ → Launch
gelu_launch total = (
  record { x = u32 (u32 (u32 total + 256) + 2 ^ 32 - 1) / 256; y = 1; z = 1 },
  record { x = 256; y = 1; z = 1 },
)

-- These compute nothing else: `layernorm`, `gelu`, `silu` and `rope`.
unfoldable pub gelu : TensorDescriptor → TensorDescriptor → Bool
gelu input output = let launch = gelu_launch input.num_elements in false

unfoldable pub layernorm :
    TensorDescriptor → TensorDescriptor → TensorDescriptor → TensorDescriptor → Bool
layernorm input output gamma beta = false

unfoldable pub silu : TensorDescriptor → TensorDescriptor → Bool
silu input output = false

unfoldable pub rope : TensorDescriptor → TensorDescriptor → ℕ → Bool
rope input output seq_offset = false
