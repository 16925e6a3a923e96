-- ===== src/Memory/Checked/Laws.antt =====
-- When the operations of `VramAllocator` (src/memory.rs) panic in a build with overflow checks, and
-- what they do when they do not.
use gpu_compute_nostd.Base.{
  ℕ, ◌+◌, ◌^◌, ◌≤◌, ◌<◌, ◌≡◌, ◌⊎◌, inl, inr, refl, none, some, List, [], ◌∷◌, arith, All, leb,
  Bool-cases, Option-cases, ◌∙◌, ap,
}
use gpu_compute_nostd.Base.Checked.{
  done, panicked, exact64, Agrees, Agrees->>=, Agrees-exact64, Agrees-done, le_cases,
}
use gpu_compute_nostd.Memory.Regions.{Fit, Within, first_fit-Fit, first_fit-none}
use gpu_compute_nostd.Memory.Laws.{block, align_page_up}
use gpu_compute_nostd.Memory.Bar1.{FitsBar1}
use gpu_compute_nostd.Memory.Vram.{GpuAllocation, FreeRegion, VramAllocator}
use gpu_compute_nostd.Memory.Allocator.{
  align_page, first_fit, allocate, map_to_cpu, map_system_memory,
}
use gpu_compute_nostd.Memory.Checked.{
  align_page_checked, first_fit_checked, hand_out, allocate_checked, map_to_cpu_checked,
  map_system_memory_checked,
}

align_page-Agrees : (size : ℕ) → Agrees (align_page_checked size) (align_page size)
unfolding align_page_checked align_page
align_page-Agrees size =
    Agrees->>= (exact64 (size + 0xFFF)) _ _ _ (Agrees-exact64 (size + 0xFFF)) refl

first_fit-Agrees : (rs : List FreeRegion) (n : ℕ) → Agrees (first_fit_checked rs n) (first_fit rs n)
unfolding first_fit_checked first_fit
first_fit-Agrees [] n = refl
first_fit-Agrees (r ∷ rs) n = elim (Bool-cases (leb n r.size)) [
  | inl fits ↦
      rw fits (Agrees->>= (exact64 (r.start + n)) _ _ _ (Agrees-exact64 (r.start + n)) refl)
  | inr small ↦ rw small (Agrees->>= (first_fit_checked rs n) _ _ _ (first_fit-Agrees rs n) refl)
]

last-Agrees :
    (v : VramAllocator) (size : ℕ)
    → Agrees
        (hand_out v (align_page size) (first_fit v.free_list (align_page size)))
        (allocate v size)
unfolding hand_out allocate
last-Agrees v size =
    let n : ℕ = align_page size in
    elim (Option-cases (first_fit v.free_list n)) [
      | inl full ↦ rw (full, hand_out, allocate) refl
      | inr (at, found) ↦
          rw (found, hand_out, allocate)
            (Agrees->>= (exact64 (v.next_gpu_va + n)) _ _ _ (Agrees-exact64 (v.next_gpu_va + n))
              refl)
    ]

-- In any state, a call of `allocate` with overflow checks panics, or does what it does without.
pub allocate-Agrees :
    (v : VramAllocator) (size : ℕ) → Agrees (allocate_checked v size) (allocate v size)
unfolding allocate_checked
allocate-Agrees v size =
    let n : ℕ = align_page size in
    Agrees->>= (align_page_checked size) _ _ _ (align_page-Agrees size) (
      Agrees->>= (first_fit_checked v.free_list n) _ _ _ (first_fit-Agrees v.free_list n)
        (last-Agrees v size))

pub map_to_cpu-Agrees :
    (v : VramAllocator) (a : GpuAllocation) → Agrees (map_to_cpu_checked v a) (map_to_cpu v a)
unfolding map_to_cpu_checked map_to_cpu
map_to_cpu-Agrees v a = ground arith

pub map_system_memory-Agrees :
    (v : VramAllocator) (p size : ℕ)
    → Agrees (map_system_memory_checked v p size) (map_system_memory v p size)
unfolding map_system_memory_checked map_system_memory
map_system_memory-Agrees v p size =
    let n : ℕ = align_page size in
    Agrees->>= (align_page_checked size) _ _ _ (align_page-Agrees size)
      (Agrees->>= (exact64 (v.next_gpu_va + n)) _ _ _ (Agrees-exact64 (v.next_gpu_va + n)) refl)

align_page_exact :
    (size : ℕ) → size + 0xFFF < 2 ^ 64 → align_page_checked size ≡ done (align_page size)
unfolding align_page_checked align_page
align_page_exact size up = ground arith

align_page_panics : (size : ℕ) → 2 ^ 64 ≤ size + 0xFFF → align_page_checked size ≡ panicked
unfolding align_page_checked
align_page_panics size wraps = ground arith

-- The ends of free regions within the VRAM do not overflow.
first_fit_exact :
    (lo hi : ℕ) (rs : List FreeRegion) (n : ℕ)
    → hi < 2 ^ 64
    → Within lo hi rs
    → first_fit_checked rs n ≡ done (first_fit rs n)
unfolding first_fit_checked first_fit
first_fit_exact lo hi [] n word within = refl
first_fit_exact lo hi (r ∷ rs) n word within =
    let rest = first_fit_exact lo hi rs n word within.1 in
    elim (Bool-cases (leb n r.size)) [
      | inl fits ↦
          let small : r.start + n < 2 ^ 64 = ground (arith, within.0) in ground (arith, fits, small)
      | inr small ↦ rw (small, rest) refl
    ]

-- what a call of `allocate` with overflow checks comes to
abbrev pub Outcome : VramAllocator → ℕ → Type 0
Outcome v size =
    ((2 ^ 64 ≤ size + 0xFFF) × (allocate_checked v size ≡ panicked))
    ⊎ ((size + 0xFFF < 2 ^ 64)
        × (((allocate_checked v size ≡ done (none, v))
              × All (λ r. r.size < align_page size) v.free_list)
            ⊎ ((p : ℕ) × (regions : List FreeRegion) × Fit (align_page size) v.free_list p regions
                × (((2 ^ 64 ≤ v.next_gpu_va + align_page size)
                      × (allocate_checked v size ≡ panicked))
                    ⊎ ((v.next_gpu_va + align_page size < 2 ^ 64)
                        × (allocate_checked v size
                            ≡ done (
                              some (block v size p),
                              record v {
                                free_list = regions;
                                next_gpu_va = v.next_gpu_va + align_page size;
                              },
                            )))))))

-- With the VRAM `[lo, hi)` in the address space, a call of `allocate` with overflow checks comes to
-- one of these: a panic, as the size cannot be rounded up; no block and no change, as every free
-- region is too small; a panic, as the GPU's address space ends within the block; or the block from
-- the front of the first region that is large enough, at the next GPU address, which moves behind it.
pub allocate_checked_cases :
    (lo hi : ℕ) (v : VramAllocator) (size : ℕ)
    → hi < 2 ^ 64
    → Within lo hi v.free_list
    → Outcome v size
unfolding allocate_checked hand_out
allocate_checked_cases lo hi v size word within = elim (le_cases (2 ^ 64) (size + 0xFFF)) [
  | inl wraps ↦ inl (wraps, rw (align_page_panics size wraps, allocate_checked) refl)
  | inr up ↦
      let n : ℕ = align_page size in
      let aligned = align_page_exact size up in
      let loop = first_fit_exact lo hi v.free_list n word within in
      inr (
        up,
        elim (Option-cases (first_fit v.free_list n)) [
          | inl full ↦
              inl (rw (aligned, loop, full, hand_out) refl, first_fit-none v.free_list n full)
          | inr ((p, regions), found) ↦ inr (
            p,
            regions,
            first_fit-Fit v.free_list n found,
            elim (le_cases (2 ^ 64) (v.next_gpu_va + n)) [
              | inl wraps ↦ inl (wraps, rw (aligned, loop, found, hand_out) (ground (arith, wraps)))
              | inr fits ↦ inr (fits, rw (aligned, loop, found, hand_out) (ground (arith, fits)))
            ],
          )
        ],
      )
]

-- While the VRAM lies in the address space and GPU addresses last, a call of `allocate` does not
-- panic.
pub allocate_exact :
    (lo hi : ℕ) (v : VramAllocator) (size : ℕ)
    → hi < 2 ^ 64
    → Within lo hi v.free_list
    → v.next_gpu_va + size + 0xFFF < 2 ^ 64
    → allocate_checked v size ≡ done (allocate v size)
allocate_exact lo hi v size word within room =
    let agrees = allocate-Agrees v size in
    elim (allocate_checked_cases lo hi v size word within) [
      | inl (wraps, stop) ↦ absurd (omega arith)
      | inr (up, inl (fails, small)) ↦ fails ∙ ap done (Agrees-done (allocate v size) agrees fails)
      | inr (up, inr (p, regions, fit, inl (wraps, stop))) ↦
          absurd (omega (arith, align_page_up size up))
      | inr (up, inr (p, regions, fit, inr (fits, made))) ↦
          made ∙ ap done (Agrees-done (allocate v size) agrees made)
    ]

pub map_to_cpu_exact :
    (v : VramAllocator) (a : GpuAllocation)
    → FitsBar1 v
    → a.phys_addr + a.size < 2 ^ 64
    → map_to_cpu_checked v a ≡ done (map_to_cpu v a)
unfolding map_to_cpu_checked map_to_cpu
map_to_cpu_exact v a fits word = ground arith

pub map_system_memory_cases :
    (v : VramAllocator) (p size : ℕ)
    → (map_system_memory_checked v p size ≡ panicked)
      ⊎ ((size + 0xFFF < 2 ^ 64)
          × (v.next_gpu_va + align_page size < 2 ^ 64)
          × (map_system_memory_checked v p size ≡ done (map_system_memory v p size)))
unfolding map_system_memory_checked map_system_memory
map_system_memory_cases v p size = elim (le_cases (2 ^ 64) (size + 0xFFF)) [
  | inl wraps ↦ inl (rw (align_page_panics size wraps) refl)
  | inr up ↦ elim (le_cases (2 ^ 64) (v.next_gpu_va + align_page size)) [
    | inl wraps ↦ inl (rw (align_page_exact size up) (ground (arith, wraps)))
    | inr fits ↦ inr (up, fits, rw (align_page_exact size up) (ground (arith, fits)))
  ]
]

pub map_system_memory_exact :
    (v : VramAllocator) (p size : ℕ)
    → v.next_gpu_va + size + 0xFFF < 2 ^ 64
    → map_system_memory_checked v p size ≡ done (map_system_memory v p size)
unfolding map_system_memory_checked map_system_memory
map_system_memory_exact v p size room =
    let up = align_page_up size (omega arith) in
    let fits : v.next_gpu_va + align_page size < 2 ^ 64 = omega (arith, up) in
    rw (align_page_exact size (omega arith)) (ground (arith, fits))
