-- ===== src/Tensor/Descriptor.antt =====
-- `TensorDescriptor` and `TensorEngine` of src/tensor.rs, with what changes their state.
use Prim.Native.String.{String}
use gpu_compute_nostd.Base.{
  ℕ, ◌+◌, ◌-◌, ◌^◌, Bool, true, false, Option, none, some, List, length, u32, u64, ◌!=◌,
  if◌then◌else◌,
}
use gpu_compute_nostd.Memory.{GpuAllocation, VramAllocator, allocate, free, map_to_cpu}
use gpu_compute_nostd.Tensor.Shape.{DType, compute_strides, total_elements, size_bytes}

pub record TensorDescriptor : Type 0 where
  pub name : String
  pub shape : List ℕ
  pub strides : List ℕ
  pub dtype : DType
  pub allocation : GpuAllocation
  pub num_elements : ℕ
  pub size_bytes : ℕ

pub record TensorEngine : Type 0 where
  pub total_allocated : ℕ
  pub tensor_count : ℕ

-- `TensorEngine::new`
unfoldable pub new_tensors : TensorEngine
new_tensors = record { total_allocated = 0; tensor_count = 0 }

-- what `allocate_tensor` comes to: its result, the engine and the allocator
pub record Allocated : Type 0 where
  pub result : Option TensorDescriptor
  pub engine : TensorEngine
  pub allocator : VramAllocator

unfoldable pub allocate_tensor : TensorEngine → VramAllocator → String → List ℕ → DType → Allocated
allocate_tensor e allocator name shape dtype =
    let n = total_elements shape in
    let bytes = size_bytes dtype n in
    let (r, allocator') = allocate allocator bytes in
    elim r [
      | none ↦ record { result = none; engine = e; allocator = allocator' }
      | some a ↦ record {
        result = some (record {
          name = name;
          shape = shape;
          strides = compute_strides shape;
          dtype = dtype;
          allocation = a;
          num_elements = n;
          size_bytes = bytes;
        });
        engine = record {
          total_allocated = u64 (e.total_allocated + bytes);
          tensor_count = u32 (e.tensor_count + 1);
        };
        allocator = allocator';
      }
    ]

-- `is_some` of the mapping, with the tensor as `&mut` leaves it
unfoldable pub map_tensor : VramAllocator → TensorDescriptor → Bool × TensorDescriptor
map_tensor allocator t =
    let (r, a) = map_to_cpu allocator t.allocation in
    (elim r [ some cpu_va ↦ true | none ↦ false ], record t { allocation = a })

-- `TensorEngine::upload`; the code copies no byte yet.
unfoldable pub upload : VramAllocator → TensorDescriptor → List ℕ → Bool × TensorDescriptor
unfolding map_tensor
upload allocator t bytes =
    if length bytes != t.size_bytes then (false, t) else map_tensor allocator t

-- `TensorEngine::download` into a buffer, which stays as it is: the code copies no byte yet.
unfoldable pub download :
    VramAllocator → TensorDescriptor → List ℕ → Bool × TensorDescriptor × List ℕ
unfolding map_tensor
download allocator t buffer =
    if length buffer != t.size_bytes
    then (false, t, buffer)
    else (let (done, t') = map_tensor allocator t in (done, t', buffer))

-- `TensorEngine::free_tensor`
unfoldable pub free_tensor :
    TensorEngine → VramAllocator → TensorDescriptor → TensorEngine × VramAllocator
free_tensor e allocator t = (
  record {
    total_allocated = u64 (e.total_allocated + 2 ^ 64 - t.size_bytes);
    tensor_count = u32 (e.tensor_count + 2 ^ 32 - 1);
  },
  free allocator t.allocation,
)
