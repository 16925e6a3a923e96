-- ===== src/Tensor/Text.antt =====
-- The texts of src/tensor.rs: how a tensor is displayed, and the line of `TensorEngine::status`.
use gpu_compute_nostd.Base.{◌*◌, ◌/◌}
use gpu_compute_nostd.Base.Text.{decimal, debug_list, hex16}
use gpu_compute_nostd.Tensor.Shape.{dtype_name}
use gpu_compute_nostd.Tensor.Descriptor.{TensorDescriptor, TensorEngine}
use Prim.Native.String.{String, ◌++◌}

-- `impl Display for TensorDescriptor`
unfoldable pub tensor_text : TensorDescriptor → String
tensor_text t =
    "Tensor '"
    ++ t.name
    ++ "' "
    ++ debug_list t.shape
    ++ " "
    ++ dtype_name t.dtype
    ++ " ("
    ++ decimal t.num_elements
    ++ " elements, "
    ++ decimal t.size_bytes
    ++ " bytes) @ GPU va=0x"
    ++ hex16 t.allocation.gpu_va

-- `TensorEngine::status` writes this line to the log.
unfoldable pub status_text : TensorEngine → String
status_text e =
    "gpu/tensor: "
    ++ decimal e.tensor_count
    ++ " tensors allocated, "
    ++ decimal (e.total_allocated / (1024 * 1024))
    ++ " MiB total VRAM usage"
