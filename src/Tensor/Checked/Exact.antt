-- ===== src/Tensor/Checked/Exact.antt =====
-- Calls of `TensorEngine` (src/tensor.rs) that do not panic in a build with overflow checks.
use Prim.Native.String.{String}
use gpu_compute_nostd.Base.{
  zero, suc, ℕ, ◌+◌, ◌*◌, ◌^◌, ◌≤◌, ◌<◌, ◌≡◌, refl, Option, none, some, List, [], ◌∷◌, arith,
  product, reverse, u64,
}
use gpu_compute_nostd.Base.Checked.{done, exact32, exact64, exact32_lem, exact64_lem, >>=_after}
use gpu_compute_nostd.Memory.{GpuAllocation, VramAllocator, allocate}
use gpu_compute_nostd.Memory.Regions.{Within}
use gpu_compute_nostd.Memory.Checked.{allocate_checked}
use gpu_compute_nostd.Memory.Checked.Laws.{allocate_exact}
use gpu_compute_nostd.Tensor.Shape
use gpu_compute_nostd.Tensor.Shape.{
  DType, float32, float16, b_float16, int8, int4, element_size, push_strides, compute_strides,
  multiply, total_elements,
}
use gpu_compute_nostd.Tensor.Strides.{product-reverse, total_elements_lem}
use gpu_compute_nostd.Tensor.Descriptor.{
  TensorDescriptor, TensorEngine, allocate_tensor, free_tensor,
}
use gpu_compute_nostd.Tensor.Checked.{
  push_strides_checked, compute_strides_checked, multiply_checked, total_elements_checked,
  size_bytes_checked, record_tensor, allocate_tensor_checked, free_tensor_checked,
}
use gpu_compute_nostd.Tensor.Checked.Laws.{recorded, allocate_tensor_lem}

-- A factor of a product that is not 0.
factor :
    (acc d p : ℕ)
    → 1 ≤ d * p
    → acc * (d * p) < 2 ^ 64
    → (acc * d < 2 ^ 64) × (1 ≤ p) × ((acc * d) * p ≡ acc * (d * p))
factor acc d zero pos fits = absurd (grind arith)
factor acc d (suc p) pos fits = (grind arith, omega arith, grind arith)

multiply_exact :
    (acc : ℕ) (shape : List ℕ)
    → 1 ≤ product shape
    → acc * product shape < 2 ^ 64
    → multiply_checked acc shape ≡ done (multiply acc shape)
unfolding multiply_checked multiply
multiply_exact acc [] pos fits = refl
multiply_exact acc (d ∷ ds) pos fits =
    let (small, rest, same) = factor acc d (product ds) pos fits in
    let word : u64 (acc * d) ≡ acc * d = omega arith in
    let later = multiply_exact (u64 (acc * d)) ds rest (rw (word, same) fits) in
    >>=_after (exact64 (acc * d)) _ _ _ (exact64_lem (acc * d) small) later

total_elements_exact :
    (shape : List ℕ)
    → 1 ≤ product shape
    → product shape < 2 ^ 64
    → total_elements_checked shape ≡ done (total_elements shape)
unfolding total_elements_checked total_elements
total_elements_exact shape pos fits = multiply_exact 1 shape pos (omega arith)

push_strides_exact :
    (stride : ℕ) (dims : List ℕ)
    → 1 ≤ product dims
    → stride * product dims < 2 ^ 64
    → push_strides_checked dims stride ≡ done (push_strides dims stride)
unfolding push_strides_checked push_strides
push_strides_exact stride [] pos fits = refl
push_strides_exact stride (d ∷ ds) pos fits =
    let (small, rest, same) = factor stride d (product ds) pos fits in
    let word : u64 (stride * d) ≡ stride * d = omega arith in
    >>=_after (exact64 (stride * d)) _ _ _ (exact64_lem (stride * d) small) (
      >>=_after (push_strides_checked ds (u64 (stride * d))) _ _ _
        (push_strides_exact (u64 (stride * d)) ds rest (rw (word, same) fits)) refl)

compute_strides_exact :
    (shape : List ℕ)
    → 1 ≤ product shape
    → product shape < 2 ^ 64
    → compute_strides_checked shape ≡ done (compute_strides shape)
unfolding compute_strides_checked compute_strides
compute_strides_exact shape pos fits =
    let same = product-reverse shape in
    >>=_after (push_strides_checked (reverse shape) 1) _ _ _
      (push_strides_exact 1 (reverse shape) (rw same pos) (omega (arith, same))) refl

size_bytes_exact :
    (dtype : DType) (n : ℕ)
    → n < 2 ^ 61
    → size_bytes_checked dtype n ≡ done (Shape.size_bytes dtype n)
unfolding size_bytes_checked Shape.size_bytes
size_bytes_exact float32 n fits = ground arith
size_bytes_exact float16 n fits = ground arith
size_bytes_exact b_float16 n fits = ground arith
size_bytes_exact int8 n fits = ground arith
size_bytes_exact int4 n fits = ground arith

-- The engine's counters have room for a tensor of `n` bytes.
abbrev pub HasCounters : TensorEngine → ℕ → Type 0
HasCounters e n = (e.total_allocated + n < 2 ^ 64) × (e.tensor_count + 1 < 2 ^ 32)

record_tensor_exact :
    (e : TensorEngine) (name : String) (shape : List ℕ) (dtype : DType) (n bytes : ℕ)
    (r : Option GpuAllocation) (v : VramAllocator)
    → 1 ≤ product shape
    → product shape < 2 ^ 64
    → HasCounters e bytes
    → record_tensor e name shape dtype n bytes r v ≡ done (recorded e name shape dtype n bytes r v)
unfolding record_tensor
record_tensor_exact e name shape dtype n bytes none v pos fits room = refl
record_tensor_exact e name shape dtype n bytes (some a) v pos fits room =
    let total : ℕ = e.total_allocated + bytes in
    let count : ℕ = e.tensor_count + 1 in
    >>=_after (compute_strides_checked shape) _ _ _ (compute_strides_exact shape pos fits) (
      >>=_after (exact64 total) _ _ _ (exact64_lem total room.0)
        (>>=_after (exact32 count) _ _ _ (exact32_lem count room.1) refl))

-- A tensor of at least one and fewer than 2^61 elements.
pub allocate_tensor_exact :
    (lo hi : ℕ) (e : TensorEngine) (v : VramAllocator) (name : String) (shape : List ℕ)
    (dtype : DType)
    → hi < 2 ^ 64
    → Within lo hi v.free_list
    → let bytes = Shape.size_bytes dtype (total_elements shape) in
      1 ≤ product shape
      → product shape < 2 ^ 61
      → HasCounters e bytes
      → v.next_gpu_va + bytes + 0xFFF < 2 ^ 64
      → allocate_tensor_checked e v name shape dtype ≡ done (allocate_tensor e v name shape dtype)
unfolding allocate_tensor_checked
allocate_tensor_exact lo hi e v name shape dtype word within pos fits counters room =
    let n : ℕ = total_elements shape in
    let bytes : ℕ = Shape.size_bytes dtype n in
    let r = allocate v bytes in
    let small : n < 2 ^ 61 = omega (arith, total_elements_lem shape) in
    rw (allocate_tensor_lem e v name shape dtype) (
      >>=_after (total_elements_checked shape) n _ _ (total_elements_exact shape pos (omega arith))
        (>>=_after (size_bytes_checked dtype n) _ _ _ (size_bytes_exact dtype n small) (
          >>=_after (allocate_checked v bytes) _ _ _ (allocate_exact lo hi v bytes word within room)
            (record_tensor_exact e name shape dtype n bytes r.0 r.1 pos (omega arith) counters))))

pub free_tensor_exact :
    (e : TensorEngine) (v : VramAllocator) (t : TensorDescriptor)
    → e.total_allocated < 2 ^ 64
    → e.tensor_count < 2 ^ 32
    → t.size_bytes ≤ e.total_allocated
    → 1 ≤ e.tensor_count
    → free_tensor_checked e v t ≡ done (free_tensor e v t)
unfolding free_tensor_checked free_tensor
free_tensor_exact e v t total count held some_left = ground arith
