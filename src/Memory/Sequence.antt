-- ===== src/Memory/Sequence.antt =====
-- Any sequence of calls on one `VramAllocator` (src/memory.rs), from its detection on.
use gpu_compute_nostd.Base.{
  ℕ, ◌+◌, ◌-◌, ◌*◌, ◌^◌, ◌≤◌, ◌<◌, ◌≡◌, ◌⊎◌, Option, inl, inr, refl, none, some, List, [], ◌∷◌,
  arith, All,
}
use gpu_compute_nostd.Hardware.{Device, History}
use gpu_compute_nostd.Mmio.{GpuRegs}
use gpu_compute_nostd.Memory.Vram.{GpuAllocation, VramAllocator}
use gpu_compute_nostd.Memory.Allocator.{align_page, allocate, free, map_system_memory}
use gpu_compute_nostd.Memory.Detect.{decode_vram_size, reserved, init_from, detect_and_init}
use gpu_compute_nostd.Memory.Laws.{
  IsHeld, IsValid, Disjoint, align_page_up, allocate-IsValid, allocate_cases,
}

-- a call by a client
pub data Request : Type 0 where
  alloc : ℕ → Request
  release : GpuAllocation → Request
  map_system : ℕ → ℕ → Request

abbrev pub kept : Option GpuAllocation → List GpuAllocation → List GpuAllocation
kept none blocks = blocks
kept (some a) blocks = a ∷ blocks

-- The blocks handed out so far go along; `free` gives nothing back, so a block stays in the list.
unfoldable pub serve :
    List Request → VramAllocator → List GpuAllocation → VramAllocator × List GpuAllocation
serve [] v blocks = (v, blocks)
serve (alloc n ∷ rs) v blocks = let (r, v') = allocate v n in serve rs v' (kept r blocks)
serve (release a ∷ rs) v blocks = serve rs (free v a) blocks
serve (map_system p n ∷ rs) v blocks = serve rs (map_system_memory v p n).1 blocks

-- GPU addresses that the calls use up at most
abbrev pub va_cost : List Request → ℕ
va_cost [] = 0
va_cost (alloc n ∷ rs) = n + 0xFFF + va_cost rs
va_cost (release a ∷ rs) = va_cost rs
va_cost (map_system p n ∷ rs) = n + 0xFFF + va_cost rs

-- The size register is taken for MiB up to 128 GiB; 0 stands for 8 GiB, a larger value for none.
pub decode_vram_size_le : (reg : ℕ) → decode_vram_size reg ≤ 128 * 1024 * 1024 * 1024
unfolding decode_vram_size
decode_vram_size_le reg = ground arith

module _ (lo hi : ℕ) where
  IsHeld-later :
      (v v' : VramAllocator) (blocks : List GpuAllocation)
      → v'.free_list ≡ v.free_list
      → v.next_gpu_va ≤ v'.next_gpu_va
      → All (IsHeld lo hi v) blocks
      → All (IsHeld lo hi v') blocks
  IsHeld-later v v' [] same le h = tt
  IsHeld-later v v' (b ∷ bs) same le h = (
    record {
      above = h.0.above;
      below = h.0.below;
      outside = rw same h.0.outside;
      va_below = omega (arith, h.0.va_below);
    },
    IsHeld-later v v' bs same le h.1,
  )

  pub map_system_memory-IsValid :
      (v : VramAllocator) (blocks : List GpuAllocation) (p n : ℕ)
      → IsValid lo hi v blocks
      → v.next_gpu_va + align_page n < 2 ^ 64
      → IsValid lo hi (map_system_memory v p n).1 blocks
  unfolding map_system_memory
  map_system_memory-IsValid v blocks p n valid room = record {
    word = valid.word;
    within = valid.within;
    separate = valid.separate;
    held = IsHeld-later v (map_system_memory v p n).1 blocks refl (omega arith) valid.held;
    disjoint = valid.disjoint;
  }

  pub alloc-IsValid :
      (v : VramAllocator) (blocks : List GpuAllocation) (n : ℕ)
      → IsValid lo hi v blocks
      → v.next_gpu_va + n + 0xFFF < 2 ^ 64
      → IsValid lo hi (allocate v n).1 (kept (allocate v n).0 blocks)
        × ((allocate v n).1.next_gpu_va ≤ v.next_gpu_va + (n + 0xFFF))
  alloc-IsValid v blocks n valid room = elim (allocate_cases v n) [
    | inl (fails, small) ↦ rw fails (valid, omega arith)
    | inr (p, regions, fit, done) ↦
        rw done (allocate-IsValid n valid room done, omega (arith, align_page_up n (omega arith)))
  ]

  -- As long as the GPU's address space lasts, every sequence of calls keeps the invariant.
  pub serve-IsValid :
      (rs : List Request) (v : VramAllocator) (blocks : List GpuAllocation)
      → IsValid lo hi v blocks
      → v.next_gpu_va + va_cost rs < 2 ^ 64
      → let (v', blocks') = serve rs v blocks in IsValid lo hi v' blocks'
  unfolding serve free map_system_memory
  serve-IsValid [] v blocks valid room = valid
  serve-IsValid (alloc n ∷ rs) v blocks valid room =
      let step = alloc-IsValid v blocks n valid (omega arith) in
      serve-IsValid rs (allocate v n).1 (kept (allocate v n).0 blocks) step.0
        (omega (arith, step.1))
  serve-IsValid (release a ∷ rs) v blocks valid room = serve-IsValid rs v blocks valid room
  serve-IsValid (map_system p n ∷ rs) v blocks valid room =
      serve-IsValid rs (map_system_memory v p n).1 blocks
        (map_system_memory-IsValid v blocks p n valid
          (omega (arith, align_page_up n (omega arith))))
        (omega (arith, align_page_up n (omega arith)))

-- A freshly detected allocator is valid, with nothing handed out.
pub init_from-IsValid :
    (cfg0 size_reg nparts bar1_cpu_base bar1_size : ℕ)
    → IsValid reserved
        (reserved + (decode_vram_size size_reg - reserved))
        (init_from cfg0 size_reg nparts bar1_cpu_base bar1_size)
        []
unfolding init_from
init_from-IsValid cfg0 size_reg nparts base size = record {
  word = omega (arith, decode_vram_size_le size_reg);
  within = ((omega arith, omega arith), tt);
  separate = (tt, tt);
  held = tt;
  disjoint = tt;
}

-- the block lies in the VRAM behind the reserved part, or is empty
abbrev pub IsPlaced : ℕ → GpuAllocation → Type 0
IsPlaced total a = (reserved ≤ a.phys_addr) × ((a.size ≡ 0) ⊎ (a.phys_addr + a.size ≤ total))

pub All-IsPlaced :
    (total : ℕ) (v : VramAllocator) (blocks : List GpuAllocation)
    → All (IsHeld reserved (reserved + (total - reserved)) v) blocks
    → All (IsPlaced total) blocks
All-IsPlaced total v [] h = tt
All-IsPlaced total v (b ∷ bs) h =
    ((h.0.above, grind (arith, h.0.above, h.0.below)), All-IsPlaced total v bs h.1)

-- From the detection of the VRAM on, whatever calls of `allocate`, `free` and `map_system_memory`
-- follow, no two blocks handed out meet, in VRAM or in the GPU's address space; each starts behind
-- the reserved first MiB and, unless it is empty, ends within the VRAM. This is while GPU addresses
-- last: what the calls use up of them at most must fit.
pub detect-Disjoint :
    (regs : GpuRegs) (bar1_cpu_base bar1_size : ℕ) (d : Device) (h : History) (rs : List Request)
    → 0x0001_0000_0000 + va_cost rs < 2 ^ 64
    → let v = (detect_and_init regs bar1_cpu_base bar1_size d h).0 in
      let (v', blocks) = serve rs v [] in Disjoint blocks × All (IsPlaced v.info.total_bytes) blocks
unfolding detect_and_init
detect-Disjoint regs base size d h rs room =
    let start : VramAllocator = (detect_and_init regs base size d h).0 in
    let total : ℕ = start.info.total_bytes in
    let valid =
      serve-IsValid reserved (reserved + (total - reserved)) rs start []
        (init_from-IsValid _ _ _ _ _) room in
    (valid.disjoint, All-IsPlaced total (serve rs start []).0 (serve rs start []).1 valid.held)
