-- ===== src/Tensor/Allocation.antt =====
-- What one call of `allocate_tensor` (src/tensor.rs) returns, and what `free_tensor` undoes.
use gpu_compute_nostd.Base.{
  ℕ, ◌+◌, ◌-◌, ◌*◌, ◌/◌, ◌^◌, ◌≤◌, ◌<◌, ◌≡◌, ◌⊎◌, ap, ◌∙◌, inl, inr, none, some, List, arith, u32,
  u64, product,
}
use Prim.Native.String.{String}
use gpu_compute_nostd.Memory.{GpuAllocation, VramAllocator, allocate, free}
use gpu_compute_nostd.Memory.Laws.{allocate_outcome, allocate-size}
use gpu_compute_nostd.Tensor.Shape
use gpu_compute_nostd.Tensor.Shape.{
  DType, float32, float16, b_float16, int8, int4, compute_strides, total_elements, element_size,
}
use gpu_compute_nostd.Tensor.Descriptor.{
  TensorDescriptor, TensorEngine, allocate_tensor, free_tensor,
}
use gpu_compute_nostd.Tensor.Strides.{total_elements_lem}

-- `allocate_tensor` fails as a whole, or passes on the block that it was given.
pub allocate_tensor_cases :
    (e : TensorEngine) (v : VramAllocator) (name : String) (shape : List ℕ) (dtype : DType)
    → let bytes = Shape.size_bytes dtype (total_elements shape) in
      ((allocate v bytes ≡ (none, v))
        × (allocate_tensor e v name shape dtype
            ≡ record { result = none; engine = e; allocator = v }))
      ⊎ ((a : GpuAllocation) × (v' : VramAllocator) × (allocate v bytes ≡ (some a, v'))
          × (allocate_tensor e v name shape dtype ≡ record {
            result = some (record {
              name = name;
              shape = shape;
              strides = compute_strides shape;
              dtype = dtype;
              allocation = a;
              num_elements = total_elements shape;
              size_bytes = bytes;
            });
            engine = record {
              total_allocated = u64 (e.total_allocated + bytes);
              tensor_count = u32 (e.tensor_count + 1);
            };
            allocator = v';
          }))
unfolding allocate_tensor
allocate_tensor_cases e v name shape dtype =
    elim (allocate_outcome v (Shape.size_bytes dtype (total_elements shape))) [
      | inl fails ↦ inl (fails, ground (arith, fails))
      | inr (a, v', done) ↦ inr (a, v', done, ground (arith, done))
    ]

-- the bytes that so many elements take
abbrev pub packed : DType → ℕ → ℕ
packed int4 n = (n + 1) / 2
packed float32 n = n * 4
packed float16 n = n * 2
packed b_float16 n = n * 2
packed int8 n = n

size_bytes-packed : (dtype : DType) (n : ℕ) → n < 2 ^ 61 → Shape.size_bytes dtype n ≡ packed dtype n
unfolding Shape.size_bytes
size_bytes-packed float32 n h = omega arith
size_bytes-packed float16 n h = omega arith
size_bytes-packed b_float16 n h = omega arith
size_bytes-packed int8 n h = omega arith
size_bytes-packed int4 n h = omega arith

packed_le : (dtype : DType) (n : ℕ) → n < 2 ^ 61 → packed dtype n < 2 ^ 63
packed_le float32 n h = omega arith
packed_le float16 n h = omega arith
packed_le b_float16 n h = omega arith
packed_le int8 n h = omega arith
packed_le int4 n h = omega arith

pub size_bytes_lt : (dtype : DType) (n : ℕ) → Shape.size_bytes dtype n < 2 ^ 64
unfolding Shape.size_bytes
size_bytes_lt float32 n = omega arith
size_bytes_lt float16 n = omega arith
size_bytes_lt b_float16 n = omega arith
size_bytes_lt int8 n = omega arith
size_bytes_lt int4 n = omega arith

-- A tensor of fewer than 2^61 elements gets a block that holds its elements, packed two to a byte
-- for `Int4`, and less than a page more, while GPU addresses last.
pub allocate_tensor_size :
    (e : TensorEngine) (v : VramAllocator) (name : String) (shape : List ℕ) (dtype : DType)
    {t : TensorDescriptor}
    → product shape < 2 ^ 61
    → v.next_gpu_va < 2 ^ 63 - 4096
    → (allocate_tensor e v name shape dtype).result ≡ some t
    → (t.num_elements ≡ product shape)
      × (t.size_bytes ≡ packed dtype (product shape))
      × (t.size_bytes ≤ t.allocation.size)
      × (t.allocation.size < t.size_bytes + 4096)
allocate_tensor_size e v name shape dtype {t} small room got =
    let count : total_elements shape ≡ product shape = total_elements_lem shape ∙ omega arith in
    let bytes : Shape.size_bytes dtype (total_elements shape) ≡ packed dtype (product shape) =
      ap (Shape.size_bytes dtype) count ∙ size_bytes-packed dtype (product shape) small in
    let bound = packed_le dtype (product shape) small in
    elim (allocate_tensor_cases e v name shape dtype) [
      | inl (fails, done) ↦ absurd (ground (arith, done, got))
      | inr (a, v', fits, done) ↦
          let size = allocate-size v _ (omega (arith, bytes, bound)) fits in
          ground (arith, done, got, bytes, count, size)
    ]

-- Freeing the tensor just allocated gives the engine back as it was; the allocator keeps the block,
-- so the memory is not free again.
pub free_tensor-allocate_tensor :
    (e : TensorEngine) (v : VramAllocator) (name : String) (shape : List ℕ) (dtype : DType)
    {t : TensorDescriptor}
    → e.total_allocated < 2 ^ 64
    → e.tensor_count < 2 ^ 32
    → (allocate_tensor e v name shape dtype).result ≡ some t
    → let r = allocate_tensor e v name shape dtype in
      free_tensor r.engine r.allocator t ≡ (e, r.allocator)
unfolding free_tensor free
free_tensor-allocate_tensor e v name shape dtype {t} total count got =
    elim (allocate_tensor_cases e v name shape dtype) [
      | inl (fails, done) ↦ absurd (ground (arith, done, got))
      | inr (a, v', fits, done) ↦
          ground (arith, done, got, size_bytes_lt dtype (total_elements shape))
    ]
