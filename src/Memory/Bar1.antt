-- ===== src/Memory/Bar1.antt =====
-- `VramAllocator::map_to_cpu` of src/memory.rs: the window into VRAM through BAR1.
use gpu_compute_nostd.Base.{ℕ, ◌+◌, ◌^◌, ◌≤◌, ◌<◌, ◌≡◌, ◌⊎◌, ◌↔◌, true, false, none, some, arith}
use gpu_compute_nostd.Memory.Vram.{GpuAllocation, VramAllocator}
use gpu_compute_nostd.Memory.Allocator.{map_to_cpu}
use gpu_compute_nostd.Memory.Regions.{Apart}

-- The aperture lies in the address space.
abbrev pub FitsBar1 : VramAllocator → Type 0
FitsBar1 v = v.bar1_cpu_base + v.bar1_size < 2 ^ 64

-- An allocation is unmapped, or mapped at its place in the aperture.
abbrev pub IsMapping : VramAllocator → GpuAllocation → Type 0
IsMapping v a =
    (a.cpu_mapped ≡ false)
    ⊎ ((a.cpu_mapped ≡ true)
        × (a.cpu_va ≡ v.bar1_cpu_base + a.phys_addr)
        × (a.phys_addr + a.size ≤ v.bar1_size))

-- The call succeeds exactly if the allocation lies in the part of VRAM that the aperture shows.
pub map_to_cpu_iff :
    (v : VramAllocator) (a : GpuAllocation)
    → FitsBar1 v
    → a.phys_addr + a.size < 2 ^ 64
    → IsMapping v a
    → ((map_to_cpu v a).0 ≡ some (v.bar1_cpu_base + a.phys_addr))
      ↔ (a.phys_addr + a.size ≤ v.bar1_size)
unfolding map_to_cpu
map_to_cpu_iff v a fits word m = ground arith

-- A call leaves a mapping that is right, moves nothing, and fails with the allocation unchanged or
-- returns the address that the allocation then records.
pub map_to_cpu-IsMapping :
    (v : VramAllocator) (a : GpuAllocation)
    → FitsBar1 v
    → a.phys_addr + a.size < 2 ^ 64
    → IsMapping v a
    → let (r, a') = map_to_cpu v a in
      IsMapping v a'
      × (a'.gpu_va ≡ a.gpu_va)
      × (a'.phys_addr ≡ a.phys_addr)
      × (a'.size ≡ a.size)
      × (((r ≡ none) × (a' ≡ a)) ⊎ ((r ≡ some a'.cpu_va) × (a'.cpu_mapped ≡ true)))
unfolding map_to_cpu
map_to_cpu-IsMapping v a fits word m = ground arith

-- Mapping again returns the same address and changes nothing.
pub map_to_cpu_again :
    (v : VramAllocator) (a : GpuAllocation) {va : ℕ}
    → (map_to_cpu v a).0 ≡ some va
    → map_to_cpu v (map_to_cpu v a).1 ≡ (some va, (map_to_cpu v a).1)
unfolding map_to_cpu
map_to_cpu_again v a e = ground arith

placed :
    (v : VramAllocator) (a : GpuAllocation) (x : ℕ)
    → FitsBar1 v
    → a.phys_addr + a.size < 2 ^ 64
    → IsMapping v a
    → (map_to_cpu v a).0 ≡ some x
    → (x ≡ v.bar1_cpu_base + a.phys_addr) × (a.phys_addr + a.size ≤ v.bar1_size)
unfolding map_to_cpu
placed v a x fits word m e = ground arith

-- If BAR1 fits the CPU's addresses, no block's end wraps, and a block mapped before is mapped at its
-- place: two mapped allocations that do not meet in VRAM do not meet in the CPU's address space
-- either, and each window stays inside the aperture.
pub map_to_cpu-Apart :
    (v : VramAllocator) (a b : GpuAllocation) (x y : ℕ)
    → FitsBar1 v
    → a.phys_addr + a.size < 2 ^ 64
    → b.phys_addr + b.size < 2 ^ 64
    → IsMapping v a
    → IsMapping v b
    → Apart a.phys_addr a.size b.phys_addr b.size
    → (map_to_cpu v a).0 ≡ some x
    → (map_to_cpu v b).0 ≡ some y
    → Apart x a.size y b.size
      × (v.bar1_cpu_base ≤ x)
      × (x + a.size ≤ v.bar1_cpu_base + v.bar1_size)
      × (y + b.size ≤ v.bar1_cpu_base + v.bar1_size)
map_to_cpu-Apart v a b x y fits wa wb ma mb apart ex ey =
    let pa = placed v a x fits wa ma ex in
    let pb = placed v b y fits wb mb ey in ground (arith, pa, pb)
