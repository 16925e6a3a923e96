-- ===== src/Tensor/Checked.antt =====
-- `TensorDescriptor` and `TensorEngine` (src/tensor.rs) in a build with overflow checks, up to the
-- kernels.
pub mod Laws
pub mod Exact
use Prim.Native.String.{String}
use gpu_compute_nostd.Base.{
  ℕ, ◌+◌, ◌*◌, ◌/◌, Bool, true, false, Option, none, some, List, [], ◌∷◌, reverse, length, ◌!=◌,
  if◌then◌else◌,
}
use gpu_compute_nostd.Base.Checked.{◌>>=◌, Run, done, exact32, exact64, difference}
use gpu_compute_nostd.Memory.{GpuAllocation, VramAllocator, free}
use gpu_compute_nostd.Memory.Checked.{allocate_checked, map_to_cpu_checked}
use gpu_compute_nostd.Tensor.Shape.{DType, int4, element_size}
use gpu_compute_nostd.Tensor.Descriptor.{TensorDescriptor, TensorEngine, Allocated}

-- the loop of `compute_strides`, which also computes the product of all dimensions
unfoldable pub push_strides_checked : List ℕ → ℕ → Run (List ℕ)
push_strides_checked [] stride = done []
push_strides_checked (dim ∷ dims) stride = do
  next ← exact64 (stride * dim)
  rest ← push_strides_checked dims next
  done (stride ∷ rest)

unfoldable pub compute_strides_checked : List ℕ → Run (List ℕ)
unfolding push_strides_checked
compute_strides_checked shape = do
  strides ← push_strides_checked (reverse shape) 1
  done (reverse strides)

-- the fold of `iter().product()`
unfoldable pub multiply_checked : ℕ → List ℕ → Run ℕ
multiply_checked acc [] = done acc
multiply_checked acc (dim ∷ dims) = do next ← exact64 (acc * dim); multiply_checked next dims

unfoldable pub total_elements_checked : List ℕ → Run ℕ
unfolding multiply_checked
total_elements_checked shape = multiply_checked 1 shape

-- `size_bytes` of `allocate_tensor`
unfoldable pub size_bytes_checked : DType → ℕ → Run ℕ
unfolding element_size
size_bytes_checked int4 num_elements = do n ← exact64 (num_elements + 1); done (n / 2)
size_bytes_checked dtype num_elements = exact64 (num_elements * element_size dtype)

-- `allocate_tensor` behind the `?`
unfoldable pub record_tensor :
    TensorEngine
    → String
    → List ℕ
    → DType
    → ℕ
    → ℕ
    → Option GpuAllocation
    → VramAllocator
    → Run Allocated
unfolding compute_strides_checked
record_tensor e name shape dtype n bytes none allocator =
    done (record { result = none; engine = e; allocator = allocator })
record_tensor e name shape dtype n bytes (some a) allocator = do
  strides ← compute_strides_checked shape
  total ← exact64 (e.total_allocated + bytes)
  count ← exact32 (e.tensor_count + 1)
  done (record {
    result = some (record {
      name = name;
      shape = shape;
      strides = strides;
      dtype = dtype;
      allocation = a;
      num_elements = n;
      size_bytes = bytes;
    });
    engine = record { total_allocated = total; tensor_count = count };
    allocator = allocator;
  })

unfoldable pub allocate_tensor_checked :
    TensorEngine → VramAllocator → String → List ℕ → DType → Run Allocated
unfolding total_elements_checked size_bytes_checked record_tensor
allocate_tensor_checked e allocator name shape dtype = do
  n ← total_elements_checked shape
  bytes ← size_bytes_checked dtype n
  r ← allocate_checked allocator bytes
  record_tensor e name shape dtype n bytes r.0 r.1

unfoldable pub free_tensor_checked :
    TensorEngine → VramAllocator → TensorDescriptor → Run (TensorEngine × VramAllocator)
free_tensor_checked e allocator t = do
  total ← difference e.total_allocated t.size_bytes
  count ← difference e.tensor_count 1
  done (record { total_allocated = total; tensor_count = count }, free allocator t.allocation)

unfoldable pub map_tensor_checked : VramAllocator → TensorDescriptor → Run (Bool × TensorDescriptor)
map_tensor_checked allocator t = do
  r ← map_to_cpu_checked allocator t.allocation
  done (elim r.0 [ some cpu_va ↦ true | none ↦ false ], record t { allocation = r.1 })

unfoldable pub upload_checked :
    VramAllocator → TensorDescriptor → List ℕ → Run (Bool × TensorDescriptor)
unfolding map_tensor_checked
upload_checked allocator t bytes =
    if length bytes != t.size_bytes then done (false, t) else map_tensor_checked allocator t

unfoldable pub download_checked :
    VramAllocator → TensorDescriptor → List ℕ → Run (Bool × TensorDescriptor × List ℕ)
unfolding map_tensor_checked
download_checked allocator t buffer =
    if length buffer != t.size_bytes
    then done (false, t, buffer)
    else (do r ← map_tensor_checked allocator t; done (r.0, r.1, buffer))
