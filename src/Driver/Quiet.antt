-- ===== src/Driver/Quiet.antt =====
-- What `handle_interrupt` and `enable_interrupts` (src/driver.rs, src/mmio.rs) come to on a card
-- whose sources take back their line when their status register is cleared.
use gpu_compute_nostd.Base.{
  ℕ, ◌+◌, ◌^◌, ◌≤◌, ◌≡◌, refl, ◌∙◌, false, ◌==◌, ◌∷◌, arith, Bool-cases, inl, inr,
}
use gpu_compute_nostd.Base.Bits.{bit}
use gpu_compute_nostd.Hardware.{Access, load, store, Device, History}
use gpu_compute_nostd.Mmio.{
  GpuRegs, enable_interrupts, write32, nv_pmc_intr_0, nv_pmc_intr_en_0, nv_pfifo_intr_0,
  nv_pgraph_intr, nv_ptimer_intr_0,
}
use gpu_compute_nostd.Driver.{GpuDevice, handle_interrupt}
use gpu_compute_nostd.Driver.Interrupts.{acked, handle_interrupt_lem}

-- One source at bit `k`: all ones in its status register take its line back, and nothing that the
-- driver does raises it.
pub record IsSource (regs : GpuRegs) (d : Device) (k register : ℕ) : Type 0 where
  pub cleared :
      (h : History)
      → bit k (d.loads (store (regs.bar0 + register) 0xFFFF_FFFF ∷ h) (regs.bar0 + nv_pmc_intr_0))
        ≡ 0
  pub lowers :
      (e : Access) (h : History)
      → bit k (d.loads (e ∷ h) (regs.bar0 + nv_pmc_intr_0))
        ≤ bit k (d.loads h (regs.bar0 + nv_pmc_intr_0))

module _ (g : GpuDevice) (d : Device) where
  -- the pending sources after a history
  abbrev lines : History → ℕ
  lines h = d.loads h (g.regs.bar0 + nv_pmc_intr_0)

  -- The step for one source leaves no line higher, and its own low if it was asked for.
  acked_lowers :
      (intr k j r s : ℕ) (h : History)
      → IsSource g.regs d j s
      → bit j (lines (acked g.regs intr k r h)) ≤ bit j (lines h)
  acked_lowers intr k j r s h source = elim (Bool-cases (bit k intr == 1)) [
    | inl on ↦ rw on (source.lowers _ h)
    | inr off ↦ rw off (omega arith)
  ]

  acked_clears :
      (intr k r : ℕ) (h : History)
      → IsSource g.regs d k r
      → bit k (lines h) ≤ bit k intr
      → bit k (lines (acked g.regs intr k r h)) ≡ 0
  acked_clears intr k r h source le = elim (Bool-cases (bit k intr == 1)) [
    | inl on ↦ rw on (source.cleared h)
    | inr off ↦ rw off (ground arith)
  ]

  acked_idle : (intr k r : ℕ) (h : History) → bit k intr ≡ 0 → acked g.regs intr k r h ≡ h
  acked_idle intr k r h zero_bit = let off : (bit k intr == 1) ≡ false = ground arith in rw off refl

  idle_call :
      (h : History)
      → bit 8 (lines h) ≡ 0
      → bit 12 (lines h) ≡ 0
      → bit 20 (lines h) ≡ 0
      → (handle_interrupt g d h).1 ≡ load (g.regs.bar0 + nv_pmc_intr_0) ∷ h
  idle_call h b8 b12 b20 =
      let h1 : History = load (g.regs.bar0 + nv_pmc_intr_0) ∷ h in
      handle_interrupt_lem g d h
      ∙ acked_idle (lines h) 20 nv_ptimer_intr_0 _ b20
      ∙ acked_idle (lines h) 12 nv_pgraph_intr _ b12
      ∙ acked_idle (lines h) 8 nv_pfifo_intr_0 h1 b8

  -- If each of the three sources that `enable_interrupts` enables takes its line back when its
  -- status register is written all ones, and nothing the driver does raises a line, then after the
  -- handler none of the three is pending, so the same interrupt does not fire again at once; and a
  -- second call only reads.
  pub handle_interrupt-quiet :
      (h : History)
      → IsSource g.regs d 8 nv_pfifo_intr_0
      → IsSource g.regs d 12 nv_pgraph_intr
      → IsSource g.regs d 20 nv_ptimer_intr_0
      → let h' = (handle_interrupt g d h).1 in
        ((enable_interrupts g.regs d h).1
          ≡ store (g.regs.bar0 + nv_pmc_intr_en_0) (2 ^ 8 + 2 ^ 12 + 2 ^ 20) ∷ h)
        × (bit 8 (lines h') ≡ 0)
        × (bit 12 (lines h') ≡ 0)
        × (bit 20 (lines h') ≡ 0)
        × ((handle_interrupt g d h').1 ≡ load (g.regs.bar0 + nv_pmc_intr_0) ∷ h')
  unfolding enable_interrupts write32
  handle_interrupt-quiet h pfifo pgraph ptimer =
      let intr : ℕ = lines h in
      let e0 : Access = load (g.regs.bar0 + nv_pmc_intr_0) in
      let h1 : History = e0 ∷ h in
      let h2 : History = acked g.regs intr 8 nv_pfifo_intr_0 h1 in
      let h3 : History = acked g.regs intr 12 nv_pgraph_intr h2 in
      let h4 : History = acked g.regs intr 20 nv_ptimer_intr_0 h3 in
      let end : (handle_interrupt g d h).1 ≡ h4 = handle_interrupt_lem g d h in
      let low8 = acked_clears intr 8 nv_pfifo_intr_0 h1 pfifo (pfifo.lowers e0 h) in
      let le12 = acked_lowers intr 8 12 nv_pfifo_intr_0 nv_pgraph_intr h1 pgraph in
      let low12 =
        acked_clears intr 12 nv_pgraph_intr h2 pgraph (omega (arith, le12, pgraph.lowers e0 h)) in
      let le20 = acked_lowers intr 8 20 nv_pfifo_intr_0 nv_ptimer_intr_0 h1 ptimer in
      let le20' = acked_lowers intr 12 20 nv_pgraph_intr nv_ptimer_intr_0 h2 ptimer in
      let low20 =
        acked_clears intr 20 nv_ptimer_intr_0 h3 ptimer
          (omega (arith, le20, le20', ptimer.lowers e0 h)) in
      let b12 : bit 12 (lines h4) ≡ 0 =
        omega (arith, low12, acked_lowers intr 20 12 nv_ptimer_intr_0 nv_pgraph_intr h3 pgraph) in
      let b8 : bit 8 (lines h4) ≡ 0 = omega (
        arith,
        low8,
        acked_lowers intr 12 8 nv_pgraph_intr nv_pfifo_intr_0 h2 pfifo,
        acked_lowers intr 20 8 nv_ptimer_intr_0 nv_pfifo_intr_0 h3 pfifo,
      ) in
      rw end (refl, b8, b12, low20, idle_call h4 b8 b12 low20)
