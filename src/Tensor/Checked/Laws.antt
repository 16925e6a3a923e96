-- ===== src/Tensor/Checked/Laws.antt =====
-- When the operations of `TensorEngine` (src/tensor.rs) panic in a build with overflow checks, and
-- what they do when they do not.
use Prim.Native.String.{String}
use gpu_compute_nostd.Base.{
  ℕ, ◌+◌, ◌*◌, ◌^◌, ◌<◌, ◌≡◌, refl, Option, none, some, List, [], ◌∷◌, arith, u32, u64, reverse,
  Option-cases,
}
use gpu_compute_nostd.Base.Checked.{
  exact32, exact64, Agrees, Agrees->>=, Agrees-exact32, Agrees-exact64,
}
use gpu_compute_nostd.Memory.{GpuAllocation, VramAllocator, allocate}
use gpu_compute_nostd.Memory.Checked.{allocate_checked}
use gpu_compute_nostd.Memory.Checked.Laws.{allocate-Agrees}
use gpu_compute_nostd.Tensor.Shape
use gpu_compute_nostd.Tensor.Shape.{
  DType, float32, float16, b_float16, int8, int4, element_size, push_strides, compute_strides,
  multiply, total_elements,
}
use gpu_compute_nostd.Tensor.Descriptor.{
  TensorDescriptor, TensorEngine, Allocated, allocate_tensor, free_tensor,
}
use gpu_compute_nostd.Tensor.Checked.{
  push_strides_checked, compute_strides_checked, multiply_checked, total_elements_checked,
  size_bytes_checked, record_tensor, allocate_tensor_checked, free_tensor_checked,
}

push_strides-Agrees :
    (dims : List ℕ) (stride : ℕ)
    → Agrees (push_strides_checked dims stride) (push_strides dims stride)
unfolding push_strides_checked push_strides
push_strides-Agrees [] stride = refl
push_strides-Agrees (dim ∷ dims) stride =
    let next : ℕ = u64 (stride * dim) in
    Agrees->>= (exact64 (stride * dim)) _ _ _ (Agrees-exact64 (stride * dim))
      (Agrees->>= (push_strides_checked dims next) _ _ _ (push_strides-Agrees dims next) refl)

compute_strides-Agrees :
    (shape : List ℕ) → Agrees (compute_strides_checked shape) (compute_strides shape)
unfolding compute_strides_checked compute_strides
compute_strides-Agrees shape =
    Agrees->>= (push_strides_checked (reverse shape) 1) _ _ _
      (push_strides-Agrees (reverse shape) 1) refl

multiply-Agrees :
    (acc : ℕ) (shape : List ℕ) → Agrees (multiply_checked acc shape) (multiply acc shape)
unfolding multiply_checked multiply
multiply-Agrees acc [] = refl
multiply-Agrees acc (dim ∷ dims) =
    Agrees->>= (exact64 (acc * dim)) _ _ _ (Agrees-exact64 (acc * dim))
      (multiply-Agrees (u64 (acc * dim)) dims)

pub total_elements-Agrees :
    (shape : List ℕ) → Agrees (total_elements_checked shape) (total_elements shape)
unfolding total_elements_checked total_elements
total_elements-Agrees shape = multiply-Agrees 1 shape

pub size_bytes-Agrees :
    (dtype : DType) (n : ℕ) → Agrees (size_bytes_checked dtype n) (Shape.size_bytes dtype n)
unfolding size_bytes_checked Shape.size_bytes
size_bytes-Agrees int4 n = Agrees->>= (exact64 (n + 1)) _ _ _ (Agrees-exact64 (n + 1)) refl
size_bytes-Agrees float32 n = Agrees-exact64 (n * element_size float32)
size_bytes-Agrees float16 n = Agrees-exact64 (n * element_size float16)
size_bytes-Agrees b_float16 n = Agrees-exact64 (n * element_size b_float16)
size_bytes-Agrees int8 n = Agrees-exact64 (n * element_size int8)

-- `allocate_tensor` without the checks behind its `?`
abbrev pub recorded :
    TensorEngine
    → String
    → List ℕ
    → DType
    → ℕ
    → ℕ
    → Option GpuAllocation
    → VramAllocator
    → Allocated
recorded e name shape dtype n bytes none v = record { result = none; engine = e; allocator = v }
recorded e name shape dtype n bytes (some a) v = record {
  result = some (record {
    name = name;
    shape = shape;
    strides = compute_strides shape;
    dtype = dtype;
    allocation = a;
    num_elements = n;
    size_bytes = bytes;
  });
  engine = record {
    total_allocated = u64 (e.total_allocated + bytes);
    tensor_count = u32 (e.tensor_count + 1);
  };
  allocator = v;
}

pub allocate_tensor_lem :
    (e : TensorEngine) (v : VramAllocator) (name : String) (shape : List ℕ) (dtype : DType)
    → let n = total_elements shape in
      let bytes = Shape.size_bytes dtype n in
      let r = allocate v bytes in
      allocate_tensor e v name shape dtype ≡ recorded e name shape dtype n bytes r.0 r.1
unfolding allocate_tensor
allocate_tensor_lem e v name shape dtype =
    ground (arith, Option-cases (allocate v (Shape.size_bytes dtype (total_elements shape))).0)

record_tensor-Agrees :
    (e : TensorEngine) (name : String) (shape : List ℕ) (dtype : DType) (n bytes : ℕ)
    (r : Option GpuAllocation) (v : VramAllocator)
    → Agrees
        (record_tensor e name shape dtype n bytes r v)
        (recorded e name shape dtype n bytes r v)
unfolding record_tensor
record_tensor-Agrees e name shape dtype n bytes none v = refl
record_tensor-Agrees e name shape dtype n bytes (some a) v =
    let total : ℕ = e.total_allocated + bytes in
    let count : ℕ = e.tensor_count + 1 in
    Agrees->>= (compute_strides_checked shape) _ _ _ (compute_strides-Agrees shape) (
      Agrees->>= (exact64 total) _ _ _ (Agrees-exact64 total)
        (Agrees->>= (exact32 count) _ _ _ (Agrees-exact32 count) refl))

-- In any state, `allocate_tensor` with overflow checks panics, or does what it does without.
pub allocate_tensor-Agrees :
    (e : TensorEngine) (v : VramAllocator) (name : String) (shape : List ℕ) (dtype : DType)
    → Agrees (allocate_tensor_checked e v name shape dtype) (allocate_tensor e v name shape dtype)
unfolding allocate_tensor_checked
allocate_tensor-Agrees e v name shape dtype =
    let n : ℕ = total_elements shape in
    let bytes : ℕ = Shape.size_bytes dtype n in
    let r = allocate v bytes in
    rw (allocate_tensor_lem e v name shape dtype) (
      Agrees->>= (total_elements_checked shape) _ _ _ (total_elements-Agrees shape) (
        Agrees->>= (size_bytes_checked dtype n) _ _ _ (size_bytes-Agrees dtype n) (
          Agrees->>= (allocate_checked v bytes) _ _ _ (allocate-Agrees v bytes)
            (record_tensor-Agrees e name shape dtype n bytes r.0 r.1))))

pub free_tensor-Agrees :
    (e : TensorEngine) (v : VramAllocator) (t : TensorDescriptor)
    → e.total_allocated < 2 ^ 64
    → e.tensor_count < 2 ^ 32
    → Agrees (free_tensor_checked e v t) (free_tensor e v t)
unfolding free_tensor_checked free_tensor
free_tensor-Agrees e v t total count = ground arith
