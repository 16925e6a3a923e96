-- ===== src/Tensor/Shape.antt =====
-- Element types, strides and element counts of src/tensor.rs.
use Prim.Native.String.{String}
use gpu_compute_nostd.Base.{ℕ, ◌+◌, ◌*◌, ◌/◌, List, [], ◌∷◌, reverse, u64}

pub data DType : Type 0 where
  float32 float16 b_float16 int8 int4 : DType

-- `DType::element_size`
unfoldable pub element_size : DType → ℕ
element_size float32 = 4
element_size float16 = 2
element_size b_float16 = 2
element_size int8 = 1
element_size int4 = 1

-- `impl Display for DType`
unfoldable pub dtype_name : DType → String
dtype_name float32 = "fp32"
dtype_name float16 = "fp16"
dtype_name b_float16 = "bf16"
dtype_name int8 = "int8"
dtype_name int4 = "int4"

-- the loop of `compute_strides` over the reversed shape: the strides in the order of the pushes
unfoldable pub push_strides : List ℕ → ℕ → List ℕ
push_strides [] stride = []
push_strides (dim ∷ dims) stride = stride ∷ push_strides dims (u64 (stride * dim))

-- `TensorDescriptor::compute_strides`
unfoldable pub compute_strides : List ℕ → List ℕ
unfolding push_strides
compute_strides shape = reverse (push_strides (reverse shape) 1)

-- the fold of `iter().product()`
unfoldable pub multiply : ℕ → List ℕ → ℕ
multiply acc [] = acc
multiply acc (dim ∷ dims) = multiply (u64 (acc * dim)) dims

-- `TensorDescriptor::total_elements`
unfoldable pub total_elements : List ℕ → ℕ
unfolding multiply
total_elements shape = multiply 1 shape

-- `size_bytes` of `allocate_tensor`; two elements of `Int4` share a byte
unfoldable pub size_bytes : DType → ℕ → ℕ
unfolding element_size
size_bytes int4 num_elements = u64 (num_elements + 1) / 2
size_bytes dtype num_elements = u64 (num_elements * element_size dtype)
