-- ===== src/Examples/Tensors.antt =====
-- The theorems on src/tensor.rs at small shapes, and runs of its operations.
use gpu_compute_nostd.Base.{
  ℕ, ◌+◌, ◌≤◌, ◌<◌, ◌≡◌, ◌⊎◌, ◌↔◌, refl, true, false, some, inl, List, [], ◌∷◌, arith, length,
  product,
}
use gpu_compute_nostd.Memory.{VramAllocator, allocate, first_fit, align_page}
use gpu_compute_nostd.Memory.Detect.{init_from, decode_vram_size}
use gpu_compute_nostd.Tensor.Shape
use gpu_compute_nostd.Tensor.Shape.{
  DType, float16, int4, compute_strides, total_elements, push_strides, multiply,
}
use gpu_compute_nostd.Tensor.Descriptor.{TensorDescriptor, allocate_tensor, upload}
use gpu_compute_nostd.Tensor.Strides.{offset_of, compute_strides-layout}
use gpu_compute_nostd.Tensor.Accounting.{
  Step, make, drop_at, Session, Counts, perform_all, perform_all-Counts,
}
use gpu_compute_nostd.Tensor.Allocation.{packed, allocate_tensor_size}
use gpu_compute_nostd.Tensor.Transfer.{upload_iff}

abbrev cube : List ℕ
cube = 2 ∷ 3 ∷ 5 ∷ []

abbrev vram : VramAllocator
vram = init_from 0 8 0 0xE0000000 0x600000

cube_strides : compute_strides cube ≡ 15 ∷ 5 ∷ 1 ∷ []
unfolding compute_strides
cube_strides = refl

compute_strides-layout_example :
    (offset_of (compute_strides cube) (1 ∷ 2 ∷ 4 ∷ []) < total_elements cube)
    × ((offset_of (compute_strides cube) (1 ∷ 2 ∷ 4 ∷ [])
          ≡ offset_of (compute_strides cube) (1 ∷ 0 ∷ 3 ∷ []))
        ↔ ◌≡◌ {A = List ℕ} (1 ∷ 2 ∷ 4 ∷ []) (1 ∷ 0 ∷ 3 ∷ []))
compute_strides-layout_example =
    compute_strides-layout cube (1 ∷ 2 ∷ 4 ∷ []) (1 ∷ 0 ∷ 3 ∷ []) (omega arith) (omega arith)
      (omega arith)

abbrev fresh : Session
fresh = record {
  engine = record { total_allocated = 0; tensor_count = 0 };
  allocator = vram;
  live = [];
}

fresh-Counts : Counts fresh.engine fresh.live
fresh-Counts = record { total = refl; count = refl; words = tt }

abbrev steps : List Step
steps = make "a" cube float16 ∷ make "b" (7 ∷ []) int4 ∷ drop_at 1 ∷ []

perform_all-Counts_example : Counts (perform_all steps fresh).engine (perform_all steps fresh).live
perform_all-Counts_example = perform_all-Counts steps fresh fresh-Counts

-- seven packed elements in four bytes, at the front of the free VRAM
abbrev sevens : TensorDescriptor
sevens = record {
  name = "b";
  shape = 7 ∷ [];
  strides = 1 ∷ [];
  dtype = int4;
  allocation = record {
    gpu_va = 0x100000000;
    phys_addr = 0x100000;
    size = 0x1000;
    cpu_mapped = false;
    cpu_va = 0;
  };
  num_elements = 7;
  size_bytes = 4;
}

sevens_made : (allocate_tensor fresh.engine vram "b" (7 ∷ []) int4).result ≡ some sevens
unfolding allocate_tensor Shape.size_bytes total_elements compute_strides init_from decode_vram_size
    allocate first_fit align_page
sevens_made = refl

vram_next : vram.next_gpu_va ≡ 0x100000000
unfolding init_from
vram_next = refl

allocate_tensor_size_example :
    (sevens.num_elements ≡ product (7 ∷ []))
    × (sevens.size_bytes ≡ packed int4 (product (7 ∷ [])))
    × (sevens.size_bytes ≤ sevens.allocation.size)
    × (sevens.allocation.size < sevens.size_bytes + 4096)
allocate_tensor_size_example =
    allocate_tensor_size fresh.engine vram "b" (7 ∷ []) int4 (omega arith)
      (omega (arith, vram_next)) sevens_made

abbrev bytes : List ℕ
bytes = 0x21 ∷ 0x43 ∷ 0x65 ∷ 0x07 ∷ []

upload_iff_example :
    (((upload vram sevens bytes).0 ≡ true) ↔ (
      (length bytes ≡ sevens.size_bytes)
      × (sevens.allocation.phys_addr + sevens.allocation.size ≤ vram.bar1_size)))
    × (((upload vram sevens bytes).0 ≡ false)
        ⊎ (((upload vram sevens bytes).1.allocation.cpu_mapped ≡ true)
            × ((upload vram sevens bytes).1.allocation.cpu_va
                ≡ vram.bar1_cpu_base + sevens.allocation.phys_addr)))
unfolding init_from
upload_iff_example = upload_iff vram sevens bytes (omega arith) (omega arith) (inl refl)
