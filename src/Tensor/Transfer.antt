-- ===== src/Tensor/Transfer.antt =====
-- `upload` and `download` of src/tensor.rs.
use gpu_compute_nostd.Base.{ℕ, ◌+◌, ◌^◌, ◌≤◌, ◌<◌, ◌≡◌, ◌⊎◌, ◌↔◌, true, false, List, arith, length}
use gpu_compute_nostd.Memory.{VramAllocator, map_to_cpu}
use gpu_compute_nostd.Memory.Bar1.{FitsBar1, IsMapping}
use gpu_compute_nostd.Tensor.Descriptor.{TensorDescriptor, upload, download}

-- If BAR1 fits the CPU's addresses, the end of the tensor's block does not wrap, and the block, if
-- mapped before, is mapped at its place: an upload succeeds exactly if the data has the tensor's size
-- and the block lies in the part of VRAM that BAR1 shows; and then the block is mapped, at its place
-- in the aperture.
pub upload_iff :
    (v : VramAllocator) (t : TensorDescriptor) (bytes : List ℕ)
    → FitsBar1 v
    → t.allocation.phys_addr + t.allocation.size < 2 ^ 64
    → IsMapping v t.allocation
    → (((upload v t bytes).0 ≡ true) ↔ (
        (length bytes ≡ t.size_bytes) × (t.allocation.phys_addr + t.allocation.size ≤ v.bar1_size)))
      × (((upload v t bytes).0 ≡ false)
          ⊎ (((upload v t bytes).1.allocation.cpu_mapped ≡ true)
              × ((upload v t bytes).1.allocation.cpu_va
                  ≡ v.bar1_cpu_base + t.allocation.phys_addr)))
unfolding upload map_to_cpu
upload_iff v t bytes fits word m = ground arith

-- A download has the answer and the effect of an upload of the buffer, and leaves the buffer as it
-- was, on success too.
pub download-upload :
    (v : VramAllocator) (t : TensorDescriptor) (buffer : List ℕ)
    → download v t buffer ≡ ((upload v t buffer).0, (upload v t buffer).1, buffer)
unfolding download upload
download-upload v t buffer = ground arith
