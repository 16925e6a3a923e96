-- ===== src/Examples/Texts.antt =====
-- The texts of src/tensor.rs and src/driver.rs, as runs.
use gpu_compute_nostd.Base.{◌≡◌, refl, true, false, [], ◌∷◌}
use gpu_compute_nostd.Base.Text.{decimal, hex16, debug_list, bool_text}
use gpu_compute_nostd.Pci.Family.{pascal, family_name}
use gpu_compute_nostd.Tensor.Shape.{float16, dtype_name}
use gpu_compute_nostd.Tensor.Descriptor.{TensorDescriptor}
use gpu_compute_nostd.Tensor.Text.{tensor_text, status_text}
use gpu_compute_nostd.Driver.{GpuInfo}
use gpu_compute_nostd.Driver.Text.{gpu_info_text}

abbrev weights : TensorDescriptor
weights = record {
  name = "weights";
  shape = 2 ∷ 3 ∷ [];
  strides = 3 ∷ 1 ∷ [];
  dtype = float16;
  allocation = record {
    gpu_va = 0x1_0000_A000;
    phys_addr = 0x100000;
    size = 0x1000;
    cpu_mapped = true;
    cpu_va = 0;
  };
  num_elements = 6;
  size_bytes = 12;
}

weights_text :
    tensor_text weights
    ≡ "Tensor 'weights' [2, 3] fp16 (6 elements, 12 bytes) @ GPU va=0x000000010000A000"
unfolding tensor_text decimal hex16 debug_list dtype_name
weights_text = refl

status_line :
    status_text (record { total_allocated = 0x800000; tensor_count = 12 })
    ≡ "gpu/tensor: 12 tensors allocated, 8 MiB total VRAM usage"
unfolding status_text decimal
status_line = refl

abbrev pascal_info : GpuInfo
pascal_info = record {
  name = "GTX";
  family = pascal;
  device_id = 0x1B80;
  vram_bytes = 0x2_0000_0000;
  gpc_count = 4;
  tpc_per_gpc = 5;
  sm_count = 20;
  needs_gsp_rm = false;
  compute_ready = true;
}

info_text : gpu_info_text pascal_info ≡ "GTX (Pascal, 8192 MiB VRAM, 20 SMs, compute_ready=true)"
unfolding gpu_info_text decimal bool_text family_name
info_text = refl
