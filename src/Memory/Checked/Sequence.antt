-- ===== src/Memory/Checked/Sequence.antt =====
-- Any sequence of calls on one `VramAllocator` (src/memory.rs) in a build with overflow checks. With
-- them no bound on what the calls ask for is needed: the sum that would break the allocator is a
-- panic.
use gpu_compute_nostd.Base.{
  ℕ, ◌+◌, ◌-◌, ◌^◌, ◌<◌, ◌≡◌, sym, ◌∙◌, refl, subst, inl, inr, Option, List, [], ◌∷◌, arith, All,
}
use gpu_compute_nostd.Base.Checked.{
  Run, done, ◌>>=◌, Agrees, Agrees->>=, Agrees-done, >>=-done, done_inj,
}
use gpu_compute_nostd.Hardware.{Device, History}
use gpu_compute_nostd.Mmio.{GpuRegs}
use gpu_compute_nostd.Memory.Vram.{GpuAllocation, VramAllocator}
use gpu_compute_nostd.Memory.Allocator.{align_page, allocate, free, map_system_memory}
use gpu_compute_nostd.Memory.Detect.{reserved, detect_and_init}
use gpu_compute_nostd.Memory.Laws.{IsValid, Disjoint, block, allocated-IsValid, align_page_up}
use gpu_compute_nostd.Memory.Sequence.{
  Request, alloc, release, map_system, kept, serve, va_cost, alloc-IsValid,
  map_system_memory-IsValid, init_from-IsValid, IsPlaced, All-IsPlaced,
}
use gpu_compute_nostd.Memory.Checked.{allocate_checked, map_system_memory_checked}
use gpu_compute_nostd.Memory.Checked.Laws.{
  allocate-Agrees, map_system_memory-Agrees, allocate_checked_cases, allocate_exact,
  map_system_memory_cases, map_system_memory_exact,
}

unfoldable pub serve_checked :
    List Request → VramAllocator → List GpuAllocation → Run (VramAllocator × List GpuAllocation)
serve_checked [] v blocks = done (v, blocks)
serve_checked (alloc n ∷ rs) v blocks = do
  r ← allocate_checked v n
  serve_checked rs r.1 (kept r.0 blocks)
serve_checked (release a ∷ rs) v blocks = serve_checked rs (free v a) blocks
serve_checked (map_system p n ∷ rs) v blocks = do
  r ← map_system_memory_checked v p n
  serve_checked rs r.1 blocks

module _ (lo hi : ℕ) where
  -- A call that returns keeps the invariant, whatever is left of the GPU's addresses.
  pub allocate_checked-IsValid :
      (v : VramAllocator) (blocks : List GpuAllocation) (n : ℕ)
      (r : Option GpuAllocation × VramAllocator)
      → IsValid lo hi v blocks
      → allocate_checked v n ≡ done r
      → IsValid lo hi r.1 (kept r.0 blocks)
  allocate_checked-IsValid v blocks n r valid e =
      elim (allocate_checked_cases lo hi v n valid.word valid.within) [
        | inl (wraps, stop) ↦ absurd (ground (arith, stop, e))
        | inr (up, inl (fails, small)) ↦
            subst (λ t. IsValid lo hi t.1 (kept t.0 blocks)) (done_inj (sym fails ∙ e)) valid
        | inr (up, inr (p, regions, fit, inl (wraps, stop))) ↦ absurd (ground (arith, stop, e))
        | inr (up, inr (p, regions, fit, inr (fits, made))) ↦
            let next : ℕ = v.next_gpu_va + align_page n in
            subst (λ t. IsValid lo hi t.1 (kept t.0 blocks)) (done_inj (sym made ∙ e))
              (subst
                (λ k.
                  IsValid lo hi (record v { free_list = regions; next_gpu_va = k })
                    (block v n p ∷ blocks))
                (omega arith)
                (allocated-IsValid lo hi v n p regions fit valid.word valid.within up fits blocks
                  valid))
      ]

  pub map_system_memory_checked-IsValid :
      (v : VramAllocator) (blocks : List GpuAllocation) (p n : ℕ) (r : Option ℕ × VramAllocator)
      → IsValid lo hi v blocks
      → map_system_memory_checked v p n ≡ done r
      → IsValid lo hi r.1 blocks
  map_system_memory_checked-IsValid v blocks p n r valid e = elim (map_system_memory_cases v p n) [
    | inl stop ↦ absurd (ground (arith, stop, e))
    | inr (up, fits, made) ↦
        subst (λ t. IsValid lo hi t.1 blocks) (done_inj (sym made ∙ e))
          (map_system_memory-IsValid lo hi v blocks p n valid fits)
  ]

  serve_checked-IsValid :
      (rs : List Request) (v : VramAllocator) (blocks : List GpuAllocation)
      {s : VramAllocator × List GpuAllocation}
      → IsValid lo hi v blocks
      → serve_checked rs v blocks ≡ done s
      → IsValid lo hi s.0 s.1
  unfolding serve_checked free
  serve_checked-IsValid [] v blocks {s} valid e =
      subst (λ t. IsValid lo hi t.0 t.1) (done_inj e) valid
  serve_checked-IsValid (alloc n ∷ rs) v blocks {s} valid e =
      let (r, made, rest) = >>=-done (allocate_checked v n) e in
      serve_checked-IsValid rs r.1 (kept r.0 blocks)
        (allocate_checked-IsValid v blocks n r valid made) rest
  serve_checked-IsValid (release a ∷ rs) v blocks {s} valid e =
      serve_checked-IsValid rs v blocks valid e
  serve_checked-IsValid (map_system p n ∷ rs) v blocks {s} valid e =
      let (r, made, rest) = >>=-done (map_system_memory_checked v p n) e in
      serve_checked-IsValid rs r.1 blocks
        (map_system_memory_checked-IsValid v blocks p n r valid made) rest

-- A sequence with overflow checks panics somewhere, or does what it does without.
pub serve-Agrees :
    (rs : List Request) (v : VramAllocator) (blocks : List GpuAllocation)
    → Agrees (serve_checked rs v blocks) (serve rs v blocks)
unfolding serve_checked serve
serve-Agrees [] v blocks = refl
serve-Agrees (alloc n ∷ rs) v blocks =
    Agrees->>= (allocate_checked v n) _ _ _ (allocate-Agrees v n)
      (serve-Agrees rs (allocate v n).1 (kept (allocate v n).0 blocks))
serve-Agrees (release a ∷ rs) v blocks = serve-Agrees rs (free v a) blocks
serve-Agrees (map_system p n ∷ rs) v blocks =
    Agrees->>= (map_system_memory_checked v p n) _ _ _ (map_system_memory-Agrees v p n)
      (serve-Agrees rs (map_system_memory v p n).1 blocks)

module _ (lo hi : ℕ) where
  serve_exact :
      (rs : List Request) (v : VramAllocator) (blocks : List GpuAllocation)
      → IsValid lo hi v blocks
      → v.next_gpu_va + va_cost rs < 2 ^ 64
      → serve_checked rs v blocks ≡ done (serve rs v blocks)
  unfolding serve_checked serve free map_system_memory
  serve_exact [] v blocks valid room = refl
  serve_exact (alloc n ∷ rs) v blocks valid room =
      let step = alloc-IsValid lo hi v blocks n valid (omega arith) in
      rw (allocate_exact lo hi v n valid.word valid.within (omega arith)) (
        serve_exact rs (allocate v n).1 (kept (allocate v n).0 blocks) step.0
          (omega (arith, step.1)))
  serve_exact (release a ∷ rs) v blocks valid room = serve_exact rs v blocks valid room
  serve_exact (map_system p n ∷ rs) v blocks valid room =
      let up = align_page_up n (omega arith) in
      rw (map_system_memory_exact v p n (omega arith)) (
        serve_exact rs (map_system_memory v p n).1 blocks
          (map_system_memory-IsValid lo hi v blocks p n valid (omega (arith, up)))
          (omega (arith, up)))

-- From the detection of the VRAM on, in a build with overflow checks, whatever calls of `allocate`,
-- `free` and `map_system_memory` follow: if none of them panics, no two blocks handed out meet, in
-- VRAM or in the GPU's address space; each starts behind the reserved first MiB and, unless it is
-- empty, ends within the VRAM; and all is as without the checks. What the calls ask for has no bound.
pub detect-serve_checked :
    (regs : GpuRegs) (bar1_cpu_base bar1_size : ℕ) (d : Device) (h : History) (rs : List Request)
    {s : VramAllocator × List GpuAllocation}
    → let v = (detect_and_init regs bar1_cpu_base bar1_size d h).0 in
      serve_checked rs v [] ≡ done s
      → Disjoint s.1 × All (IsPlaced v.info.total_bytes) s.1 × (s ≡ serve rs v [])
unfolding detect_and_init
detect-serve_checked regs base size d h rs {s} e =
    let start : VramAllocator = (detect_and_init regs base size d h).0 in
    let total : ℕ = start.info.total_bytes in
    let hi : ℕ = reserved + (total - reserved) in
    let valid = serve_checked-IsValid reserved hi rs start [] (init_from-IsValid _ _ _ _ _) e in
    (
      valid.disjoint,
      All-IsPlaced total s.0 s.1 valid.held,
      Agrees-done (serve rs start []) (serve-Agrees rs start []) e,
    )

-- From the detection of the VRAM on, no call panics while GPU addresses last: what the calls use up
-- of them at most must fit.
pub detect-serve_exact :
    (regs : GpuRegs) (bar1_cpu_base bar1_size : ℕ) (d : Device) (h : History) (rs : List Request)
    → 0x0001_0000_0000 + va_cost rs < 2 ^ 64
    → let v = (detect_and_init regs bar1_cpu_base bar1_size d h).0 in
      serve_checked rs v [] ≡ done (serve rs v [])
unfolding detect_and_init
detect-serve_exact regs base size d h rs room =
    let start : VramAllocator = (detect_and_init regs base size d h).0 in
    serve_exact reserved (reserved + (start.info.total_bytes - reserved)) rs start []
      (init_from-IsValid _ _ _ _ _) room
