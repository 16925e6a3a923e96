-- ===== src/Memory/Bump.antt =====
-- The allocator of src/memory.rs against the simple bump allocator that its comment names.
use gpu_compute_nostd.Base.{
  ℕ, ◌+◌, ◌-◌, ◌*◌, ◌/◌, ◌^◌, ◌≤◌, ◌<◌, ◌≡◌, refl, ap, ◌∙◌, false, Option, none, some, List, [],
  ◌∷◌, arith, leb, if◌then◌else◌, length, true, Bool-cases, inl, inr,
}
use gpu_compute_nostd.Hardware.{Device, History}
use gpu_compute_nostd.Mmio.{GpuRegs}
use gpu_compute_nostd.Memory.Vram.{GpuAllocation, VramAllocator}
use gpu_compute_nostd.Memory.Allocator.{align_page, first_fit, allocate, free, map_system_memory}
use gpu_compute_nostd.Memory.Detect.{reserved, init_from, detect_and_init}
use gpu_compute_nostd.Memory.Laws.{align_page_lem}
use gpu_compute_nostd.Memory.Sequence.{
  Request, alloc, release, map_system, kept, serve, va_cost, decode_vram_size_le,
}

-- The reference: the next physical address, the bytes behind it, and the next GPU address, on
-- numbers that do not wrap.
pub record Bump : Type 0 where
  pub phys : ℕ
  pub left : ℕ
  pub va : ℕ

-- the next multiple of a page
abbrev pub pages : ℕ → ℕ
pages size = (size + 4095) / 4096 * 4096

-- the block for `size` bytes, and the reference behind it
abbrev pub granted : Bump → ℕ → GpuAllocation
granted b size = record {
  gpu_va = b.va;
  phys_addr = b.phys;
  size = pages size;
  cpu_mapped = false;
  cpu_va = 0;
}

abbrev pub moved : Bump → ℕ → Bump
moved b size = record {
  phys = b.phys + pages size;
  left = b.left - pages size;
  va = b.va + pages size;
}

abbrev pub bump : Bump → ℕ → Option GpuAllocation × Bump
bump b size = if leb (pages size) b.left then (some (granted b size), moved b size) else (none, b)

-- the same calls on the reference; a block is never given back
abbrev pub replay : List Request → Bump → List GpuAllocation → Bump × List GpuAllocation
replay [] b blocks = (b, blocks)
replay (alloc n ∷ rs) b blocks = let (r, b') = bump b n in replay rs b' (kept r blocks)
replay (release a ∷ rs) b blocks = replay rs b blocks
replay (map_system p n ∷ rs) b blocks = replay rs (record b { va = b.va + pages n }) blocks

-- The allocator holds one region, where the reference stands.
record Follows (v : VramAllocator) (b : Bump) : Type 0 where
  regions : v.free_list ≡ record { start = b.phys; size = b.left } ∷ []
  next : v.next_gpu_va ≡ b.va
  fits : b.phys + b.left < 2 ^ 64

align_page-pages : (n : ℕ) → n + 0xFFF < 2 ^ 64 → align_page n ≡ pages n
align_page-pages n h = omega (arith, align_page_lem n)

-- Two states that both follow stay together.
abbrev Agree : Option GpuAllocation × VramAllocator → Option GpuAllocation × Bump → Type 0
Agree (r, v) (q, b) = (r ≡ q) × Follows v b

module _ (v : VramAllocator) (b : Bump) (n : ℕ) (f : Follows v b)
    (room : b.va + n + 0xFFF < 2 ^ 64) where
  rounds : align_page n ≡ pages n
  rounds = align_page-pages n (omega arith)

  found :
      leb (pages n) b.left ≡ true
      → first_fit v.free_list (align_page n)
        ≡ some (b.phys, record { start = b.phys + pages n; size = b.left - pages n } ∷ [])
  unfolding first_fit
  found fit = rw (f.regions, rounds, fit, first_fit) (ground (arith, f.fits))

  full : leb (pages n) b.left ≡ false → first_fit v.free_list (align_page n) ≡ none
  unfolding first_fit
  full small = rw (f.regions, rounds, small, first_fit) refl

  allocate-Agree : Agree (allocate v n) (bump b n)
  unfolding allocate
  allocate-Agree = elim (Bool-cases (leb (pages n) b.left)) [
    | inl fit ↦
        rw (fit, found fit, allocate)
          (
            ground (arith, rounds, f.next),
            record {
              regions = refl;
              next = omega (arith, rounds, f.next);
              fits = ground (arith, f.fits);
            },
          )
    | inr small ↦ rw (small, full small, allocate) (refl, f)
  ]

  map_system_memory-Follows :
      (p : ℕ) → Follows (map_system_memory v p n).1 (record b { va = b.va + pages n })
  unfolding map_system_memory
  map_system_memory-Follows p = record {
    regions = f.regions;
    next = omega (arith, rounds, f.next);
    fits = f.fits;
  }

bump_va : (b : Bump) (n : ℕ) → (bump b n).1.va ≤ b.va + n + 0xFFF
bump_va b n = ground arith

serve-Follows :
    (rs : List Request) (v : VramAllocator) (b : Bump) (blocks : List GpuAllocation)
    → Follows v b
    → b.va + va_cost rs < 2 ^ 64
    → (serve rs v blocks).1 ≡ (replay rs b blocks).1
unfolding serve free
serve-Follows [] v b blocks f room = refl
serve-Follows (alloc n ∷ rs) v b blocks f room =
    let one = allocate-Agree v b n f (omega arith) in
    ap (λ r. (serve rs (allocate v n).1 (kept r blocks)).1) one.0
    ∙ serve-Follows rs (allocate v n).1 (bump b n).1 (kept (bump b n).0 blocks) one.1
        (omega (arith, bump_va b n))
serve-Follows (release a ∷ rs) v b blocks f room = serve-Follows rs v b blocks f room
serve-Follows (map_system p n ∷ rs) v b blocks f room =
    serve-Follows rs (map_system_memory v p n).1 (record b { va = b.va + pages n }) blocks
      (map_system_memory-Follows v b n f (omega arith) p) (omega arith)

-- the reference at the start, over a VRAM of so many bytes
abbrev pub first_free : ℕ → Bump
first_free total = record { phys = reserved; left = total - reserved; va = 0x0001_0000_0000 }

detected :
    (regs : GpuRegs) (bar1_cpu_base bar1_size : ℕ) (d : Device) (h : History)
    → let v = (detect_and_init regs bar1_cpu_base bar1_size d h).0 in
      Follows v (first_free v.info.total_bytes)
unfolding detect_and_init init_from
detected regs base size d h = record {
  regions = refl;
  next = refl;
  fits = omega (arith, decode_vram_size_le);
}

-- From its detection on, while GPU addresses last, the allocator with its free list hands out the
-- same blocks as a bump allocator that counts in whole pages, never wraps and never frees.
pub detect-replay :
    (regs : GpuRegs) (bar1_cpu_base bar1_size : ℕ) (d : Device) (h : History) (rs : List Request)
    → 0x0001_0000_0000 + va_cost rs < 2 ^ 64
    → let v = (detect_and_init regs bar1_cpu_base bar1_size d h).0 in
      (serve rs v []).1 ≡ (replay rs (first_free v.info.total_bytes) []).1
detect-replay regs base size d h rs room =
    serve-Follows rs _ _ [] (detected regs base size d h) room

-- bytes that the allocations take
abbrev pub demand : List Request → ℕ
demand [] = 0
demand (alloc n ∷ rs) = pages n + demand rs
demand (release a ∷ rs) = demand rs
demand (map_system p n ∷ rs) = demand rs

abbrev pub allocations : List Request → ℕ
allocations [] = 0
allocations (alloc n ∷ rs) = 1 + allocations rs
allocations (release a ∷ rs) = allocations rs
allocations (map_system p n ∷ rs) = allocations rs

replay-all :
    (rs : List Request) (b : Bump) (blocks : List GpuAllocation)
    → demand rs ≤ b.left
    → length (replay rs b blocks).1 ≡ allocations rs + length blocks
replay-all [] b blocks fit = omega arith
replay-all (alloc n ∷ rs) b blocks fit =
    let enough : leb (pages n) b.left ≡ true = ground arith in
    let given : bump b n ≡ (some (granted b n), moved b n) = rw enough refl in
    ap (λ t. length (replay rs t.1 (kept t.0 blocks)).1) given
    ∙ replay-all rs (moved b n) (granted b n ∷ blocks) (omega arith)
    ∙ omega arith
replay-all (release a ∷ rs) b blocks fit = replay-all rs b blocks fit
replay-all (map_system p n ∷ rs) b blocks fit =
    replay-all rs (record b { va = b.va + pages n }) blocks fit

-- While GPU addresses last, and as long as the pages asked for fit the VRAM behind the reserved part,
-- no allocation of a sequence of calls from the detection on fails, in whatever order they come:
-- nothing is lost between blocks.
pub detect-all :
    (regs : GpuRegs) (bar1_cpu_base bar1_size : ℕ) (d : Device) (h : History) (rs : List Request)
    → 0x0001_0000_0000 + va_cost rs < 2 ^ 64
    → let v = (detect_and_init regs bar1_cpu_base bar1_size d h).0 in
      demand rs ≤ v.info.total_bytes - reserved → length (serve rs v []).1 ≡ allocations rs
detect-all regs base size d h rs room fit =
    ap length (detect-replay regs base size d h rs room) ∙ replay-all rs _ [] fit ∙ omega arith
