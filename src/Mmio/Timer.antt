-- ===== src/Mmio/Timer.antt =====
-- `GpuRegs::read_timer_ns` of src/mmio.rs on a device whose timer is a 64-bit counter.
use gpu_compute_nostd.Base.{
  ◌∷◌, ℕ, zero, suc, ◌+◌, ◌/◌, ◌%◌, ◌^◌, ◌≤◌, ◌<◌, ◌≡◌, Bool, true, false, Option, ap, some, inl,
  inr, arith, bit_or, ◌==◌, ◌<<◌, Bool-cases,
}
use gpu_compute_nostd.Base.Bits.{bit_or_fields}
use gpu_compute_nostd.Hardware.{Access, load, Device, History}
use gpu_compute_nostd.Mmio.{GpuRegs, read_timer_ns, nv_ptimer_time_0, nv_ptimer_time_1}

-- NV_PTIMER: the two registers are the halves of a counter that may advance at every access and
-- does not run over.
pub record IsTimer (regs : GpuRegs) (d : Device) : Type 0 where
  pub now : History → ℕ
  pub advances : (a : Access) (h : History) → now h ≤ now (a ∷ h)
  pub fits : (h : History) → now h < 2 ^ 64
  pub low : (h : History) → d.loads h (regs.bar0 + nv_ptimer_time_0) ≡ now h % 2 ^ 32
  pub high : (h : History) → d.loads h (regs.bar0 + nv_ptimer_time_1) ≡ now h / 2 ^ 32

module _ {regs : GpuRegs} {d : Device} (timer : IsTimer regs d) where
  -- the history after the first, the second and the third read of a round
  abbrev after1 : History → History
  after1 h = load (regs.bar0 + nv_ptimer_time_1) ∷ h

  abbrev after2 : History → History
  after2 h = load (regs.bar0 + nv_ptimer_time_0) ∷ after1 h

  abbrev after3 : History → History
  after3 h = load (regs.bar0 + nv_ptimer_time_1) ∷ after2 h

  -- the test of a round
  abbrev steady : History → Bool
  steady h =
      d.loads h (regs.bar0 + nv_ptimer_time_1) == d.loads (after2 h) (regs.bar0 + nv_ptimer_time_1)

  ordered :
      (h : History)
      → (timer.now h ≤ timer.now (after1 h))
        × (timer.now (after1 h) ≤ timer.now (after2 h))
        × (timer.now (after2 h) ≤ timer.now (after3 h))
  ordered h = (timer.advances _ h, timer.advances _ (after1 h), timer.advances _ (after2 h))

  -- Between two equal readings of the high half the counter had that half.
  joined :
      (h : History)
      → steady h ≡ true
      → bit_or
          (d.loads h (regs.bar0 + nv_ptimer_time_1) << 32)
          (d.loads (after1 h) (regs.bar0 + nv_ptimer_time_0))
        ≡ timer.now (after1 h)
  joined h same = ground (
    arith,
    ordered h,
    timer.high h,
    timer.high (after2 h),
    timer.low (after1 h),
    bit_or_fields 32 (d.loads h (regs.bar0 + nv_ptimer_time_1))
        (d.loads (after1 h) (regs.bar0 + nv_ptimer_time_0)),
  )

  rises : (h : History) → steady h ≡ false → timer.now h / 2 ^ 32 < timer.now (after3 h) / 2 ^ 32
  rises h rose = ground (arith, ordered h, timer.high h, timer.high (after2 h))

  -- what is later than after a round is later than before it
  later :
      (h : History) {r : Option ℕ} {h' : History}
      → (t : ℕ) × (r ≡ some t) × (timer.now (after3 h) ≤ t) × (t ≤ timer.now h')
      → (t : ℕ) × (r ≡ some t) × (timer.now h ≤ t) × (t ≤ timer.now h')
  later h (t, e, lo, hi) = (t, e, omega (arith, ordered h), hi)

  -- On such a timer, with fuel of at least 2^32 less the counter's high half, the loop ends with a
  -- reading that lies between the counter's values before and after the call, so no torn value is
  -- returned.
  pub read_timer_ns-now :
      (fuel : ℕ) (h : History)
      → 2 ^ 32 ≤ fuel + timer.now h / 2 ^ 32
      → let (r, h') = read_timer_ns regs fuel d h in
        (t : ℕ) × (r ≡ some t) × (timer.now h ≤ t) × (t ≤ timer.now h')
  unfolding read_timer_ns
  read_timer_ns-now zero h enough = absurd (omega (arith, timer.fits h))
  read_timer_ns-now (suc fuel) h enough = elim (Bool-cases (steady h)) [
    | inl same ↦
        rw (same, read_timer_ns)
          (
            timer.now (after1 h),
            ap some (joined h same),
            omega (arith, ordered h),
            omega (arith, ordered h),
          )
    | inr rose ↦
        rw (rose, read_timer_ns)
          (later h (read_timer_ns-now fuel (after3 h) (omega (arith, rises h rose))))
  ]
