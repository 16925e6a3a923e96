-- ===== src/Memory/Allocator.antt =====
-- The operations of `VramAllocator` (src/memory.rs). Sums are those of `u64` in a build without
-- overflow checks; Checked has those with checks.
use gpu_compute_nostd.Base.{
  ℕ, ◌+◌, ◌-◌, true, false, Option, none, some, List, [], ◌∷◌, bit_and, u64, not64, leb, ltb,
  if◌then◌else◌,
}
use gpu_compute_nostd.Memory.Vram.{GpuAllocation, FreeRegion, VramAllocator}

-- `(size + 0xFFF) & !0xFFF`
unfoldable pub align_page : ℕ → ℕ
align_page size = bit_and (u64 (size + 0xFFF)) (not64 0xFFF)

-- The loop of `allocate`: the first region that is large enough gives up its front.
unfoldable pub first_fit : List FreeRegion → ℕ → Option (ℕ × List FreeRegion)
first_fit [] n = none
first_fit (r ∷ rs) n =
    if leb n r.size
    then some (r.start, record r { start = u64 (r.start + n); size = r.size - n } ∷ rs)
    else elim (first_fit rs n) [ none ↦ none | some (p, rs') ↦ some (p, r ∷ rs') ]

-- `VramAllocator::allocate`
unfoldable pub allocate : VramAllocator → ℕ → Option GpuAllocation × VramAllocator
allocate v size =
    let n = align_page size in
    elim (first_fit v.free_list n) [
      | none ↦ (none, v)
      | some (p, regions) ↦ (
        some (record {
          gpu_va = v.next_gpu_va;
          phys_addr = p;
          size = n;
          cpu_mapped = false;
          cpu_va = 0;
        }),
        record v { free_list = regions; next_gpu_va = u64 (v.next_gpu_va + n) },
      )
    ]

-- `VramAllocator::free` only writes to the log.
unfoldable pub free : VramAllocator → GpuAllocation → VramAllocator
free v a = v

-- `VramAllocator::map_to_cpu`: the address, and the allocation as `&mut` leaves it
unfoldable pub map_to_cpu : VramAllocator → GpuAllocation → Option ℕ × GpuAllocation
map_to_cpu v a =
    if a.cpu_mapped
    then (some a.cpu_va, a)
    else if ltb v.bar1_size a.size
    then (none, a)
    else if leb (u64 (a.phys_addr + a.size)) v.bar1_size
    then (let va = u64 (v.bar1_cpu_base + a.phys_addr) in
        (some va, record a { cpu_mapped = true; cpu_va = va }))
    else (none, a)

-- `VramAllocator::map_system_memory`
unfoldable pub map_system_memory : VramAllocator → ℕ → ℕ → Option ℕ × VramAllocator
map_system_memory v system_phys_addr size =
    (some v.next_gpu_va, record v { next_gpu_va = u64 (v.next_gpu_va + align_page size) })
