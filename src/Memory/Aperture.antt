-- ===== src/Memory/Aperture.antt =====
-- `VramAllocator::map_to_cpu` (src/memory.rs) for every block that the allocator has handed out, after
-- any calls: an invariant for its clients.
use gpu_compute_nostd.Base.{
  ℕ, ◌+◌, ◌^◌, ◌≤◌, ◌<◌, ◌≡◌, refl, subst, List, [], ◌∷◌, Option, none, some, arith, All, inl, inr,
  leb, if◌then◌else◌,
}
use gpu_compute_nostd.Memory.Vram.{GpuAllocation, VramAllocator}
use gpu_compute_nostd.Memory.Allocator.{allocate, map_to_cpu, map_system_memory}
use gpu_compute_nostd.Memory.Laws.{IsValid, IsHeld, allocate_cases}
use gpu_compute_nostd.Memory.Sequence.{kept}
use gpu_compute_nostd.Memory.Bar1.{IsMapping, map_to_cpu-IsMapping}
use gpu_compute_nostd.Memory.Invariant.{IsInvariant, IsValid-IsInvariant}
use gpu_compute_nostd.Memory.Detect.{reserved}

-- The blocks are as they should be in VRAM, the aperture is this one, and a block that is mapped is
-- mapped at its place in it.
pub record IsShown (w : ℕ × ℕ) (v : VramAllocator) (blocks : List GpuAllocation) : Type 0 where
  pub top : ℕ
  pub valid : IsValid reserved top v blocks
  pub base : v.bar1_cpu_base ≡ w.0
  pub size : v.bar1_size ≡ w.1
  pub mapping : All (IsMapping v) blocks

-- the CPU address of a block behind an aperture: none for a block that it does not show whole
abbrev pub shown_at : ℕ × ℕ → GpuAllocation → Option ℕ
shown_at w a = if leb (a.phys_addr + a.size) w.1 then some (w.0 + a.phys_addr) else none

module _ (w : ℕ × ℕ) (fits : w.0 + w.1 < 2 ^ 64) where
  allocate-IsShown :
      (v : VramAllocator) (blocks : List GpuAllocation) (n : ℕ)
      → IsShown w v blocks
      → v.next_gpu_va + n + 0xFFF < 2 ^ 64
      → IsShown w (allocate v n).1 (kept (allocate v n).0 blocks)
  allocate-IsShown v blocks n s room =
      let valid = (IsValid-IsInvariant reserved s.top).allocated v blocks n s.valid room in
      elim (allocate_cases v n) [
        | inl (fails, small) ↦ rw fails s
        | inr (p, regions, fit, done) ↦
            let valid' = subst (λ t. IsValid reserved s.top t.1 (kept t.0 blocks)) done valid in
            rw done (record {
              top = s.top;
              valid = valid';
              base = s.base;
              size = s.size;
              mapping = (inl refl, s.mapping);
            })
      ]

  map_to_cpu-IsShown :
      (v : VramAllocator) (a : GpuAllocation) (blocks : List GpuAllocation)
      → IsShown w v (a ∷ blocks)
      → IsShown w v ((map_to_cpu v a).1 ∷ blocks)
  map_to_cpu-IsShown v a blocks s =
      let below = s.valid.held.0.below in
      record {
        top = s.top;
        valid = (IsValid-IsInvariant reserved s.top).mapped v a blocks s.valid;
        base = s.base;
        size = s.size;
        mapping = (
          (map_to_cpu-IsMapping v a (omega (arith, fits, s.base, s.size))
              (omega (arith, below, s.valid.word)) s.mapping.0).0,
          s.mapping.1,
        );
      }

  pub IsShown-IsInvariant : IsInvariant (IsShown w)
  unfolding map_system_memory
  IsShown-IsInvariant = record {
    allocated = allocate-IsShown;
    mapped = map_to_cpu-IsShown;
    dropped = λ v a blocks s. record {
      top = s.top;
      valid = (IsValid-IsInvariant reserved s.top).dropped v a blocks s.valid;
      base = s.base;
      size = s.size;
      mapping = s.mapping.1;
    };
    system_mapped = λ v blocks p n s room. record {
      top = s.top;
      valid = (IsValid-IsInvariant reserved s.top).system_mapped v blocks p n s.valid room;
      base = s.base;
      size = s.size;
      mapping = s.mapping;
    };
  }

  block_shown :
      (top : ℕ) (v : VramAllocator) (a : GpuAllocation)
      → top < 2 ^ 64
      → v.bar1_cpu_base ≡ w.0
      → v.bar1_size ≡ w.1
      → a.phys_addr + a.size ≤ top
      → IsMapping v a
      → (map_to_cpu v a).0 ≡ shown_at w a
  unfolding map_to_cpu
  block_shown top v a word base size below mapping = ground (arith, fits)

  -- Each block is mapped exactly if the aperture shows all of it, and then at its place.
  pub IsShown-shown_at :
      (top : ℕ) (v : VramAllocator) (blocks : List GpuAllocation)
      → top < 2 ^ 64
      → v.bar1_cpu_base ≡ w.0
      → v.bar1_size ≡ w.1
      → All (IsHeld reserved top v) blocks
      → All (IsMapping v) blocks
      → All (λ a. (map_to_cpu v a).0 ≡ shown_at w a) blocks
  IsShown-shown_at top v [] word base size held mapping = tt
  IsShown-shown_at top v (a ∷ blocks) word base size held mapping = (
    block_shown top v a word base size held.0.below mapping.0,
    IsShown-shown_at top v blocks word base size held.1 mapping.1,
  )
