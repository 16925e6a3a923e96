-- ===== src/Memory/Laws.antt =====
-- What one call of `VramAllocator::allocate` (src/memory.rs) does, on every branch.
use gpu_compute_nostd.Base.{
  ℕ, ◌+◌, ◌*◌, ◌/◌, ◌%◌, ◌^◌, ◌≤◌, ◌<◌, ◌≡◌, ◌⊎◌, ◌↔◌, sym, inl, inr, false, Option, none, some,
  List, [], ◌∷◌, arith, All, u64, ◌∙◌, Option-cases,
}
use mathlib.Core.Path.{subst₂}
use gpu_compute_nostd.Base.Bits.{bit_and_field}
use gpu_compute_nostd.Memory.Vram.{GpuAllocation, FreeRegion, VramAllocator}
use gpu_compute_nostd.Memory.Allocator.{align_page, first_fit, allocate}
use gpu_compute_nostd.Memory.Regions.{
  Apart, Apart-symm, IsOutside, Separate, Within, free_bytes, Fit, first_fit-Fit, first_fit-none,
  Fit-Within, Fit-IsOutside, Fit-Separate, Fit-free_bytes,
}

-- Rounding clears the low twelve bits of the wrapped sum.
pub align_page_lem : (size : ℕ) → align_page size ≡ u64 (size + 0xFFF) / 4096 * 4096
unfolding align_page
align_page_lem size = omega (arith, bit_and_field 12 52 (u64 (size + 0xFFF)))

-- A size for which the sum does not wrap is rounded up to the next multiple of 4 KiB.
pub align_page_up :
    (size : ℕ)
    → size + 0xFFF < 2 ^ 64
    → (align_page size % 4096 ≡ 0) × (size ≤ align_page size) × (align_page size < size + 4096)
align_page_up size h = omega (arith, align_page_lem size)

-- A size within 4095 bytes of 2^64 is rounded down to nothing.
pub align_page_wrap : (size : ℕ) → size < 2 ^ 64 → 2 ^ 64 ≤ size + 0xFFF → align_page size ≡ 0
align_page_wrap size h w = omega (arith, align_page_lem size)

-- the block that `allocate` returns for the physical address `p`, and the allocator it leaves
abbrev pub block : VramAllocator → ℕ → ℕ → GpuAllocation
block v size p = record {
  gpu_va = v.next_gpu_va;
  phys_addr = p;
  size = align_page size;
  cpu_mapped = false;
  cpu_va = 0;
}

abbrev pub after : VramAllocator → ℕ → List FreeRegion → VramAllocator
after v size regions = record v {
  free_list = regions;
  next_gpu_va = u64 (v.next_gpu_va + align_page size);
}

pub some_pair {ℓ κ} :
    {A : Type ℓ} {B : Type κ} {a a' : A} {b b' : B}
    → ◌≡◌ {A = Option A × B} (some a, b) (some a', b')
    → (a ≡ a') × (b ≡ b')
some_pair e = ground arith

Fit-not_small : {n p : ℕ} {rs rs' : List FreeRegion} → Fit n rs p rs' → All (λ r. r.size < n) rs → ⊥
Fit-not_small (Fit.here r rs le) h = omega arith
Fit-not_small (Fit.there r lt f) h = Fit-not_small f h.1

-- `allocate` fails, with every region too small and nothing changed, or returns the front of the
-- first region that is large enough.
pub allocate_cases :
    (v : VramAllocator) (size : ℕ)
    → ((allocate v size ≡ (none, v)) × All (λ r. r.size < align_page size) v.free_list)
      ⊎ ((p : ℕ) × (regions : List FreeRegion) × Fit (align_page size) v.free_list p regions
          × (allocate v size ≡ (some (block v size p), after v size regions)))
unfolding allocate
allocate_cases v size = elim (Option-cases (first_fit v.free_list (align_page size))) [
  | inl full ↦ inl (rw (full, allocate), first_fit-none v.free_list (align_page size) full)
  | inr ((p, regions), found) ↦
      inr (p, regions, first_fit-Fit v.free_list (align_page size) found, rw (found, allocate))
]

-- no block meets this one, neither in VRAM nor in the GPU's address space
abbrev pub IsClear : GpuAllocation → List GpuAllocation → Type 0
IsClear a =
    All (λ b. Apart a.phys_addr a.size b.phys_addr b.size × Apart a.gpu_va a.size b.gpu_va b.size)

-- no two blocks meet
abbrev pub Disjoint : List GpuAllocation → Type 0
Disjoint [] = Unit
Disjoint (a ∷ bs) = IsClear a bs × Disjoint bs

-- what holds of a block that was handed out of `[lo, hi)` by an allocator in this state
pub record IsHeld (lo hi : ℕ) (v : VramAllocator) (a : GpuAllocation) : Type 0 where
  pub above : lo ≤ a.phys_addr
  pub below : a.phys_addr + a.size ≤ hi
  pub outside : IsOutside a.phys_addr a.size v.free_list
  pub va_below : a.gpu_va + a.size ≤ v.next_gpu_va

-- The allocator's invariant over the VRAM `[lo, hi)`, with the blocks handed out so far.
pub record IsValid (lo hi : ℕ) (v : VramAllocator) (blocks : List GpuAllocation) : Type 0 where
  pub word : hi < 2 ^ 64
  pub within : Within lo hi v.free_list
  pub separate : Separate v.free_list
  pub held : All (IsHeld lo hi v) blocks
  pub disjoint : Disjoint blocks

module _ (lo hi : ℕ) (v : VramAllocator) (size p : ℕ) (regions : List FreeRegion)
    (fit : Fit (align_page size) v.free_list p regions) (word : hi < 2 ^ 64)
    (within : Within lo hi v.free_list) (up : size + 0xFFF < 2 ^ 64)
    (room : v.next_gpu_va + align_page size < 2 ^ 64) where
  -- The blocks held before stay held, and the new one is clear of them.
  IsHeld-after :
      (blocks : List GpuAllocation)
      → All (IsHeld lo hi v) blocks
      → All (IsHeld lo hi (after v size regions)) blocks × IsClear (block v size p) blocks
  IsHeld-after [] h = (tt, tt)
  IsHeld-after (b ∷ bs) h =
      let o =
        Fit-IsOutside (align_page size) lo hi word b.phys_addr b.size fit within h.0.outside in
      let rest = IsHeld-after bs h.1 in
      (
        (
          record {
            above = h.0.above;
            below = h.0.below;
            outside = o.1;
            va_below = omega (arith, h.0.va_below);
          },
          rest.0,
        ),
        ((Apart-symm b.phys_addr b.size p (align_page size) o.0, inr h.0.va_below), rest.1),
      )

  pub allocated-IsValid :
      (blocks : List GpuAllocation)
      → IsValid lo hi v blocks
      → IsValid lo hi (after v size regions) (block v size p ∷ blocks)
  allocated-IsValid blocks valid =
      let n : ℕ = align_page size in
      let others = IsHeld-after blocks valid.held in
      let inside = Fit-Within n lo hi word fit within in
      let apart = Fit-Separate n lo hi word fit within valid.separate in
      record {
        word = word;
        within = inside.2;
        separate = apart.1;
        held = (
          record { above = inside.0; below = inside.1; outside = apart.0; va_below = omega arith },
          others.0,
        );
        disjoint = (others.1, valid.disjoint);
      }

-- A call that returns a block keeps the invariant, with that block added to those handed out.
pub allocate-IsValid :
    {lo hi : ℕ} {v v' : VramAllocator} {blocks : List GpuAllocation} (size : ℕ) {a : GpuAllocation}
    → IsValid lo hi v blocks
    → v.next_gpu_va + size + 0xFFF < 2 ^ 64
    → allocate v size ≡ (some a, v')
    → IsValid lo hi v' (a ∷ blocks)
allocate-IsValid {lo} {hi} {v} {v'} {blocks} size {a} valid room e = elim (allocate_cases v size) [
  | inl (fails, small) ↦ absurd (ground (arith, fails, e))
  | inr (p, regions, fit, done) ↦
      subst₂ (λ a' w. IsValid lo hi w (a' ∷ blocks)) (some_pair (sym done ∙ e)).0
        (some_pair (sym done ∙ e)).1
        (allocated-IsValid lo hi v size p regions fit valid.word valid.within (omega arith)
          (omega (arith, align_page_up size (omega arith))) blocks valid)
]

-- While GPU addresses last, a block is a whole number of pages, at least as large as asked for and less than a page larger;
-- the free bytes shrink by exactly its size, and the next GPU address grows by it.
pub allocate-size :
    (v : VramAllocator) (size : ℕ) {v' : VramAllocator} {a : GpuAllocation}
    → v.next_gpu_va + size + 0xFFF < 2 ^ 64
    → allocate v size ≡ (some a, v')
    → (a.size % 4096 ≡ 0)
      × (size ≤ a.size)
      × (a.size < size + 4096)
      × (free_bytes v'.free_list + a.size ≡ free_bytes v.free_list)
      × (a.gpu_va ≡ v.next_gpu_va)
      × (v'.next_gpu_va ≡ v.next_gpu_va + a.size)
allocate-size v size room e = elim (allocate_cases v size) [
  | inl (fails, small) ↦ absurd (ground (arith, fails, e))
  | inr (p, regions, fit, done) ↦
      let s = some_pair (sym done ∙ e) in
      let up = align_page_up size (omega arith) in
      let bytes = Fit-free_bytes fit in ground (arith, s, up, bytes)
]

-- A call returns no block and leaves the allocator as it was exactly if every free region is
-- smaller than the rounded size.
pub allocate-none_iff :
    (v : VramAllocator) (size : ℕ)
    → (allocate v size ≡ (none, v)) ↔ All (λ r. r.size < align_page size) v.free_list
allocate-none_iff v size = elim (allocate_cases v size) [
  | inl (fails, small) ↦ (λ _. small, λ _. fails)
  | inr (p, regions, fit, done) ↦
      (λ e. absurd (ground (arith, done, e)), λ small. absurd (Fit-not_small fit small))
]

-- A call fails and changes nothing, or returns a block.
pub allocate_outcome :
    (v : VramAllocator) (size : ℕ)
    → (allocate v size ≡ (none, v))
      ⊎ ((a : GpuAllocation) × (v' : VramAllocator) × (allocate v size ≡ (some a, v')))
allocate_outcome v size = elim (allocate_cases v size) [
  | inl (fails, small) ↦ inl fails
  | inr (p, regions, fit, done) ↦ inr (block v size p, after v size regions, done)
]

-- A call leaves the description of the VRAM alone.
pub allocate_info : (v : VramAllocator) (size : ℕ) → (allocate v size).1.info ≡ v.info
allocate_info v size = elim (allocate_cases v size) [
  | inl (fails, small) ↦ ground (arith, fails)
  | inr (p, regions, fit, done) ↦ ground (arith, done)
]
