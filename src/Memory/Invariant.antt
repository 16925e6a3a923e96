-- ===== src/Memory/Invariant.antt =====
-- What a client of `VramAllocator` (src/memory.rs) asks of an invariant of the allocator and of the
-- blocks that it has handed out, and two invariants that have it.
use gpu_compute_nostd.Base.{ℕ, ◌+◌, ◌%◌, ◌^◌, ◌≤◌, ◌<◌, ◌≡◌, List, ◌∷◌, arith, All, inl, inr}
use gpu_compute_nostd.Memory.Vram.{GpuAllocation, FreeRegion, VramAllocator}
use gpu_compute_nostd.Memory.Allocator.{align_page, allocate, map_to_cpu, map_system_memory}
use gpu_compute_nostd.Memory.Regions.{Fit, here, there}
use gpu_compute_nostd.Memory.Laws.{IsValid, align_page_lem, align_page_up, allocate_cases}
use gpu_compute_nostd.Memory.Sequence.{kept, alloc-IsValid, map_system_memory-IsValid}

-- The calls that change the allocator or a block keep the invariant, while GPU addresses last; and a
-- block may be forgotten.
pub record IsInvariant (P : VramAllocator → List GpuAllocation → Type 0) : Type 0 where
  pub allocated :
      (v : VramAllocator) (blocks : List GpuAllocation) (n : ℕ)
      → P v blocks
      → v.next_gpu_va + n + 0xFFF < 2 ^ 64
      → P (allocate v n).1 (kept (allocate v n).0 blocks)
  pub mapped :
      (v : VramAllocator) (a : GpuAllocation) (blocks : List GpuAllocation)
      → P v (a ∷ blocks)
      → P v ((map_to_cpu v a).1 ∷ blocks)
  pub dropped :
      (v : VramAllocator) (a : GpuAllocation) (blocks : List GpuAllocation)
      → P v (a ∷ blocks)
      → P v blocks
  pub system_mapped :
      (v : VramAllocator) (blocks : List GpuAllocation) (p n : ℕ)
      → P v blocks
      → v.next_gpu_va + n + 0xFFF < 2 ^ 64
      → P (map_system_memory v p n).1 blocks

-- A call uses up at most the rounded size of the GPU's addresses.
pub allocate_va :
    (v : VramAllocator) (n : ℕ)
    → v.next_gpu_va + n + 0xFFF < 2 ^ 64
    → (allocate v n).1.next_gpu_va ≤ v.next_gpu_va + (n + 0xFFF)
allocate_va v n room = elim (allocate_cases v n) [
  | inl (fails, small) ↦ rw fails (omega arith)
  | inr (p, regions, fit, done) ↦ rw done (omega (arith, align_page_up n (omega arith)))
]

-- A mapping leaves the block where it is.
map_to_cpu_place :
    (v : VramAllocator) (a : GpuAllocation)
    → let a' = (map_to_cpu v a).1 in
      (a'.gpu_va ≡ a.gpu_va) × (a'.phys_addr ≡ a.phys_addr) × (a'.size ≡ a.size)
unfolding map_to_cpu
map_to_cpu_place v a = ground arith

map_to_cpu-IsValid :
    (lo hi : ℕ) (v : VramAllocator) (a : GpuAllocation) (blocks : List GpuAllocation)
    → IsValid lo hi v (a ∷ blocks)
    → IsValid lo hi v ((map_to_cpu v a).1 ∷ blocks)
map_to_cpu-IsValid lo hi v a blocks valid =
    let (gpu_va, phys_addr, size) = map_to_cpu_place v a in
    record {
      word = valid.word;
      within = valid.within;
      separate = valid.separate;
      held = (
        record {
          above = rw phys_addr valid.held.0.above;
          below = rw (phys_addr, size) valid.held.0.below;
          outside = rw (phys_addr, size) valid.held.0.outside;
          va_below = rw (gpu_va, size) valid.held.0.va_below;
        },
        valid.held.1,
      );
      disjoint = (rw (gpu_va, phys_addr, size) valid.disjoint.0, valid.disjoint.1);
    }

pub IsValid-IsInvariant : (lo hi : ℕ) → IsInvariant (IsValid lo hi)
IsValid-IsInvariant lo hi = record {
  allocated = λ v blocks n valid room. (alloc-IsValid lo hi v blocks n valid room).0;
  mapped = map_to_cpu-IsValid lo hi;
  dropped = λ v a blocks valid. record {
    word = valid.word;
    within = valid.within;
    separate = valid.separate;
    held = valid.held.1;
    disjoint = valid.disjoint.1;
  };
  system_mapped = λ v blocks p n valid room.
      map_system_memory-IsValid lo hi v blocks p n valid
        (omega (arith, align_page_up n (omega arith)));
}

-- a block of whole pages, at the start of a page in VRAM and in the GPU's address space
abbrev pub IsPaged : GpuAllocation → Type 0
IsPaged a = (a.gpu_va % 4096 ≡ 0) × (a.phys_addr % 4096 ≡ 0) × (a.size % 4096 ≡ 0)

-- Everything is counted in whole pages.
pub record IsAligned (v : VramAllocator) (blocks : List GpuAllocation) : Type 0 where
  pub regions : All (λ r. r.start % 4096 ≡ 0) v.free_list
  pub next : v.next_gpu_va % 4096 ≡ 0
  pub paged : All IsPaged blocks

Fit-aligned :
    {n p : ℕ} {rs rs' : List FreeRegion}
    → n % 4096 ≡ 0
    → Fit n rs p rs'
    → All (λ r. r.start % 4096 ≡ 0) rs
    → (p % 4096 ≡ 0) × All (λ r. r.start % 4096 ≡ 0) rs'
Fit-aligned e (here r rs le) h = (h.0, (omega (arith, h.0), h.1))
Fit-aligned e (there r lt f) h = let rest = Fit-aligned e f h.1 in (rest.0, (h.0, rest.1))

align_page-aligned : (n : ℕ) → align_page n % 4096 ≡ 0
align_page-aligned n = omega (arith, align_page_lem n)

alloc-IsAligned :
    (v : VramAllocator) (blocks : List GpuAllocation) (n : ℕ)
    → IsAligned v blocks
    → IsAligned (allocate v n).1 (kept (allocate v n).0 blocks)
alloc-IsAligned v blocks n a = elim (allocate_cases v n) [
  | inl (fails, small) ↦ rw fails a
  | inr (p, regions, fit, done) ↦
      let whole = align_page-aligned n in
      let placed = Fit-aligned whole fit a.regions in
      rw done (record {
        regions = placed.1;
        next = omega (arith, a.next, whole);
        paged = ((a.next, placed.0, whole), a.paged);
      })
]

pub IsAligned-IsInvariant : IsInvariant IsAligned
unfolding map_system_memory
IsAligned-IsInvariant = record {
  allocated = λ v blocks n a room. alloc-IsAligned v blocks n a;
  mapped = λ v b blocks a.
      let (gpu_va, phys_addr, size) = map_to_cpu_place v b in
      record {
        regions = a.regions;
        next = a.next;
        paged = (omega (arith, gpu_va, phys_addr, size, a.paged.0), a.paged.1);
      };
  dropped = λ v b blocks a. record { regions = a.regions; next = a.next; paged = a.paged.1 };
  system_mapped = λ v blocks p n a room. record {
    regions = a.regions;
    next = omega (arith, a.next, align_page-aligned n);
    paged = a.paged;
  };
}
