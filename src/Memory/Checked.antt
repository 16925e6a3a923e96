-- ===== src/Memory/Checked.antt =====
-- The operations of `VramAllocator` (src/memory.rs) in a build with overflow checks.
pub mod Laws
pub mod Sequence
use gpu_compute_nostd.Base.{
  ℕ, ◌+◌, ◌-◌, true, false, Option, none, some, List, [], ◌∷◌, bit_and, not64, leb, ltb,
  if◌then◌else◌,
}
use gpu_compute_nostd.Base.Checked.{◌>>=◌, Run, done, exact64}
use gpu_compute_nostd.Memory.Vram.{GpuAllocation, FreeRegion, VramAllocator}

-- `(size + 0xFFF) & !0xFFF`
unfoldable pub align_page_checked : ℕ → Run ℕ
align_page_checked size = do sum ← exact64 (size + 0xFFF); done (bit_and sum (not64 0xFFF))

-- The loop of `allocate`; `region.size -= aligned_size` stands behind its test.
unfoldable pub first_fit_checked : List FreeRegion → ℕ → Run (Option (ℕ × List FreeRegion))
first_fit_checked [] n = done none
first_fit_checked (r ∷ rs) n =
    let rest = first_fit_checked rs n in
    if leb n r.size
    then (do
      start ← exact64 (r.start + n)
      done (some (r.start, record r { start = start; size = r.size - n } ∷ rs)))
    else (do found ← rest; done (elim found [ none ↦ none | some (p, rs') ↦ some (p, r ∷ rs') ]))

-- the end of `allocate`: the block from the front that the loop has found
unfoldable pub hand_out :
    VramAllocator → ℕ → Option (ℕ × List FreeRegion) → Run (Option GpuAllocation × VramAllocator)
hand_out v n none = done (none, v)
hand_out v n (some (p, regions)) = do
  next ← exact64 (v.next_gpu_va + n)
  done (
    some (record {
      gpu_va = v.next_gpu_va;
      phys_addr = p;
      size = n;
      cpu_mapped = false;
      cpu_va = 0;
    }),
    record v { free_list = regions; next_gpu_va = next },
  )

unfoldable pub allocate_checked : VramAllocator → ℕ → Run (Option GpuAllocation × VramAllocator)
unfolding align_page_checked first_fit_checked hand_out
allocate_checked v size = do
  n ← align_page_checked size
  found ← first_fit_checked v.free_list n
  hand_out v n found

unfoldable pub map_to_cpu_checked : VramAllocator → GpuAllocation → Run (Option ℕ × GpuAllocation)
map_to_cpu_checked v a =
    if a.cpu_mapped
    then done (some a.cpu_va, a)
    else if ltb v.bar1_size a.size
    then done (none, a)
    else (do
      end ← exact64 (a.phys_addr + a.size)
      (if leb end v.bar1_size
          then (do
            va ← exact64 (v.bar1_cpu_base + a.phys_addr)
            done (some va, record a { cpu_mapped = true; cpu_va = va }))
          else done (none, a)))

unfoldable pub map_system_memory_checked : VramAllocator → ℕ → ℕ → Run (Option ℕ × VramAllocator)
unfolding align_page_checked
map_system_memory_checked v system_phys_addr size = do
  n ← align_page_checked size
  next ← exact64 (v.next_gpu_va + n)
  done (some v.next_gpu_va, record v { next_gpu_va = next })
