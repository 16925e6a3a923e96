-- ===== src/Memory/Threads/Laws.antt =====
-- Threads on one `VramAllocator` (src/memory.rs): every run of their steps is a run of whole calls.
use gpu_compute_nostd.Base.{
  ℕ, ◌+◌, ◌≡◌, refl, sym, ap, subst, ◌∙◌, Option, none, some, List, [], ◌∷◌, ◌++◌, u64, arith,
  Option-cases, inl, inr, All, ◌<◌, ◌^◌,
}
use gpu_compute_nostd.Memory.Vram.{GpuAllocation, FreeRegion, VramAllocator}
use gpu_compute_nostd.Memory.Allocator.{align_page, first_fit, allocate, free, map_system_memory}
use gpu_compute_nostd.Memory.Sequence.{
  Request, alloc, release, map_system, kept, serve, va_cost, IsPlaced, detect-Disjoint,
}
use gpu_compute_nostd.Memory.Laws.{Disjoint}
use gpu_compute_nostd.Memory.Detect.{detect_and_init}
use gpu_compute_nostd.Hardware.{Device, History}
use gpu_compute_nostd.Mmio.{GpuRegs}
use gpu_compute_nostd.Memory.Threads.{
  Pending, take_region, assign_va, Event, begin, finish, map_call, free_call, World, after_begin,
  step, run, idle,
}

serve-append :
    (rs qs : List Request) (v : VramAllocator) (blocks : List GpuAllocation)
    → serve (rs ++ qs) v blocks ≡ serve qs (serve rs v blocks).0 (serve rs v blocks).1
unfolding serve
serve-append [] qs v blocks = refl
serve-append (alloc n ∷ rs) qs v blocks =
    serve-append rs qs (allocate v n).1 (kept (allocate v n).0 blocks)
serve-append (release a ∷ rs) qs v blocks = serve-append rs qs (free v a) blocks
serve-append (map_system p n ∷ rs) qs v blocks =
    serve-append rs qs (map_system_memory v p n).1 blocks

-- How the allocator `v` stands to the one `s` of the calls that have returned: the same, or with the
-- region of the call in progress taken.
abbrev pub Ahead : Option Pending → VramAllocator → VramAllocator → Type 0
Ahead none s v = v ≡ s
Ahead (some t) s v =
    (regions : List FreeRegion) × (first_fit s.free_list (align_page t.size)
      ≡ some (t.phys_addr, regions))
    × (v ≡ record s { free_list = regions })

-- The calls that have returned, served one after the other, leave an allocator that this one is ahead
-- of, and give the same blocks.
pub record Follows (v0 : VramAllocator) (w : World) : Type 0 where
  pub serial : VramAllocator
  pub served : serve w.calls v0 [] ≡ (serial, w.blocks)
  pub ahead : Ahead w.holder serial w.vram

serve_one :
    (v0 s : VramAllocator) (calls : List Request) (blocks : List GpuAllocation) (q : Request)
    → serve calls v0 [] ≡ (s, blocks)
    → serve (calls ++ (q ∷ [])) v0 [] ≡ serve (q ∷ []) s blocks
serve_one v0 s calls blocks q e =
    serve-append calls (q ∷ []) v0 [] ∙ ap (λ t. serve (q ∷ []) t.0 t.1) e

begin-Follows :
    (v0 : VramAllocator) (n : ℕ) (w : World)
    → w.holder ≡ none
    → Follows v0 w
    → Follows v0 (after_begin n w (take_region w.vram n))
unfolding take_region serve allocate
begin-Follows v0 n w unlocked f =
    let same : w.vram ≡ f.serial = subst (λ k. Ahead k f.serial w.vram) unlocked f.ahead in
    elim (Option-cases (first_fit w.vram.free_list (align_page n))) [
      | inl full ↦
          rw (full, after_begin)
            (record {
              serial = f.serial;
              served =
                  serve_one v0 f.serial w.calls w.blocks (alloc n) f.served
                  ∙ ground (arith, full, same);
              ahead = f.ahead;
            })
      | inr ((p, regions), found) ↦
          rw (found, after_begin)
            (record {
              serial = f.serial;
              served = f.served;
              ahead = (
                regions,
                ap (λ v. first_fit v.free_list (align_page n)) (sym same) ∙ found,
                ap {B = VramAllocator} (λ (v : VramAllocator). record v { free_list = regions })
                    same,
              );
            })
    ]

finish_served :
    (s v : VramAllocator) (t : Pending) (blocks : List GpuAllocation) (regions : List FreeRegion)
    → first_fit s.free_list (align_page t.size) ≡ some (t.phys_addr, regions)
    → v ≡ record s { free_list = regions }
    → serve (alloc t.size ∷ []) s blocks ≡ (
      record s { free_list = regions; next_gpu_va = u64 (s.next_gpu_va + align_page t.size) },
      (assign_va v t).0 ∷ blocks,
    )
unfolding assign_va serve allocate
finish_served s v t blocks regions fits taken =
    let va : s.next_gpu_va ≡ v.next_gpu_va =
      ap (λ (u : VramAllocator). u.next_gpu_va) (sym taken) in
    let done : allocate s t.size ≡ (
      some (assign_va v t).0,
      record s { free_list = regions; next_gpu_va = u64 (s.next_gpu_va + align_page t.size) },
    ) =
      rw (fits, sym va, allocate) refl in
    ap (λ r. (r.1, kept r.0 blocks)) done

finish-Follows :
    (v0 : VramAllocator) (t : Pending) (w : World)
    → w.holder ≡ some t
    → Follows v0 w
    → Follows v0 (step finish w)
unfolding step assign_va serve allocate
finish-Follows v0 t w locked f =
    let (regions, fits, taken) = subst (λ k. Ahead k f.serial w.vram) locked f.ahead in
    rw (locked, step)
      (record {
        serial = record f.serial {
          free_list = regions;
          next_gpu_va = u64 (f.serial.next_gpu_va + align_page t.size);
        };
        served =
            serve_one v0 f.serial w.calls w.blocks (alloc t.size) f.served
            ∙ finish_served f.serial w.vram t w.blocks regions fits taken;
        ahead =
            ap {B = VramAllocator}
              (λ (v : VramAllocator). record v {
                next_gpu_va = u64 (v.next_gpu_va + align_page t.size);
              })
              taken;
      })

map_call-Ahead :
    (holder : Option Pending) (s v : VramAllocator) (p n : ℕ)
    → Ahead holder s v
    → Ahead holder (map_system_memory s p n).1 (map_system_memory v p n).1
unfolding map_system_memory
map_call-Ahead none s v p n a = ap (λ u. (map_system_memory u p n).1) a
map_call-Ahead (some t) s v p n (regions, fits, taken) =
    (regions, fits, ap (λ u. (map_system_memory u p n).1) taken)

step-Follows : (v0 : VramAllocator) (e : Event) (w : World) → Follows v0 w → Follows v0 (step e w)
unfolding step free serve
step-Follows v0 (begin n) w f = elim (Option-cases w.holder) [
  | inl unlocked ↦ rw (unlocked, step) (begin-Follows v0 n w unlocked f)
  | inr (t, locked) ↦ rw (locked, step) f
]
step-Follows v0 finish w f = elim (Option-cases w.holder) [
  | inl unlocked ↦ rw (unlocked, step) f
  | inr (t, locked) ↦ finish-Follows v0 t w locked f
]
step-Follows v0 (map_call p n) w f = record {
  serial = (map_system_memory f.serial p n).1;
  served = serve_one v0 f.serial w.calls w.blocks (map_system p n) f.served;
  ahead = map_call-Ahead w.holder f.serial w.vram p n f.ahead;
}
step-Follows v0 (free_call a) w f = record {
  serial = f.serial;
  served = serve_one v0 f.serial w.calls w.blocks (release a) f.served;
  ahead = f.ahead;
}

run-Follows :
    (v0 : VramAllocator) (es : List Event) (w : World) → Follows v0 w → Follows v0 (run es w)
unfolding run
run-Follows v0 [] w f = f
run-Follows v0 (e ∷ es) w f = run-Follows v0 es (step e w) (step-Follows v0 e w f)

idle-Follows : (v : VramAllocator) → Follows v (idle v)
unfolding serve
idle-Follows v = record { serial = v; served = refl; ahead = refl }

-- Whatever steps the threads take and in whatever order, when no call is in progress the allocator and
-- the blocks are those of the same calls made one after the other, in the order in which they
-- returned.
pub run-serve :
    (v : VramAllocator) (es : List Event)
    → (run es (idle v)).holder ≡ none
    → serve (run es (idle v)).calls v [] ≡ ((run es (idle v)).vram, (run es (idle v)).blocks)
run-serve v es unlocked =
    let w : World = run es (idle v) in
    let f = run-Follows v es (idle v) (idle-Follows v) in
    let same : w.vram ≡ f.serial = subst (λ k. Ahead k f.serial w.vram) unlocked f.ahead in
    f.served ∙ ap (λ u. (u, w.blocks)) (sym same)

-- From the detection of the VRAM on, with any number of threads and at every moment, also while calls
-- are in progress: no two blocks handed out meet, in VRAM or in the GPU's address space; each starts
-- behind the reserved first MiB and, unless it is empty, ends within the VRAM. This is while GPU
-- addresses last: what the calls that have returned use up of them at most must fit.
pub detect-run-Disjoint :
    (regs : GpuRegs) (bar1_cpu_base bar1_size : ℕ) (d : Device) (h : History) (es : List Event)
    → let v = (detect_and_init regs bar1_cpu_base bar1_size d h).0 in
      let w = run es (idle v) in
      0x0001_0000_0000 + va_cost w.calls < 2 ^ 64
      → Disjoint w.blocks × All (IsPlaced v.info.total_bytes) w.blocks
detect-run-Disjoint regs base size d h es room =
    let v : VramAllocator = (detect_and_init regs base size d h).0 in
    let w : World = run es (idle v) in
    let same : (serve w.calls v []).1 ≡ w.blocks =
      ap (λ t. t.1) (run-Follows v es (idle v) (idle-Follows v)).served in
    subst (λ blocks. Disjoint blocks × All (IsPlaced v.info.total_bytes) blocks) same
      (detect-Disjoint regs base size d h w.calls room)
