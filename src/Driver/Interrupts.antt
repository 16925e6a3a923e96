-- ===== src/Driver/Interrupts.antt =====
-- `GpuDevice::handle_interrupt` of src/driver.rs: which sources it clears, and in which order.
use gpu_compute_nostd.Base.{
  ℕ, ◌+◌, ◌*◌, ◌^◌, ◌<◌, ◌≡◌, refl, ap, true, false, bit_and, ◌==◌, ◌!=◌, ◌∷◌, arith, if◌then◌else◌,
  Bool-cases, inl, inr,
}
use gpu_compute_nostd.Base.Bits.{bit, bit_and-bit}
use gpu_compute_nostd.Hardware.{load, store, Device, History}
use gpu_compute_nostd.Mmio.{
  GpuRegs, write32, read_interrupts, nv_pmc_intr_0, nv_pfifo_intr_0, nv_pgraph_intr,
  nv_ptimer_intr_0,
}
use gpu_compute_nostd.Driver.{GpuDevice, clear_if, handle_interrupt}

-- The history with a source cleared if its bit is set.
abbrev pub acked : GpuRegs → ℕ → ℕ → ℕ → History → History
acked regs intr k register h =
    if bit k intr == 1 then store (regs.bar0 + register) 0xFFFF_FFFF ∷ h else h

clear_if_lem :
    (regs : GpuRegs) (intr k mask register : ℕ) (d : Device) (h : History)
    → bit_and intr mask ≡ bit k intr * mask
    → 0 < mask
    → clear_if regs intr mask register d h ≡ (tt, acked regs intr k register h)
unfolding clear_if write32
clear_if_lem regs intr k mask register d h digit pos = elim (Bool-cases (bit k intr == 1)) [
  | inl on ↦
      let one : bit k intr ≡ 1 = ground arith in
      let found : (bit_and intr mask != 0) ≡ true = ground (arith, digit, ap (λ t. t * mask) one) in
      rw (found, on, clear_if) refl
  | inr off ↦
      let none_set : bit k intr ≡ 0 = ground arith in
      let found : (bit_and intr mask != 0) ≡ false =
        ground (arith, digit, ap (λ t. t * mask) none_set) in
      rw (found, off, clear_if) refl
]

-- The handler reads the pending interrupts once and clears PFIFO, PGRAPH and PTIMER, in that order,
-- each exactly if its own bit (8, 12 or 20) was set; it touches nothing else.
pub handle_interrupt_lem :
    (g : GpuDevice) (d : Device) (h : History)
    → let intr = d.loads h (g.regs.bar0 + nv_pmc_intr_0) in
      (handle_interrupt g d h).1
      ≡ acked g.regs intr 20 nv_ptimer_intr_0 (
          acked g.regs intr 12 nv_pgraph_intr
            (acked g.regs intr 8 nv_pfifo_intr_0 (load (g.regs.bar0 + nv_pmc_intr_0) ∷ h)))
unfolding handle_interrupt read_interrupts
handle_interrupt_lem g d h =
    let a : ℕ = g.regs.bar0 + nv_pmc_intr_0 in
    let intr : ℕ = d.loads h a in
    let h1 : History = load a ∷ h in
    let h2 : History = acked g.regs intr 8 nv_pfifo_intr_0 h1 in
    let h3 : History = acked g.regs intr 12 nv_pgraph_intr h2 in
    elim (Bool-cases (intr == 0)) [
      | inl idle ↦ let e : d.loads h a ≡ 0 = ground arith in rw (idle, handle_interrupt) (rw e refl)
      | inr busy ↦
          rw (busy, handle_interrupt)
            (rw
              (clear_if_lem g.regs intr 8 (2 ^ 8) nv_pfifo_intr_0 d h1 (bit_and-bit 8 intr)
                (omega arith))
              (rw
                (clear_if_lem g.regs intr 12 (2 ^ 12) nv_pgraph_intr d h2 (bit_and-bit 12 intr)
                  (omega arith))
                (rw
                  (clear_if_lem g.regs intr 20 (2 ^ 20) nv_ptimer_intr_0 d h3 (bit_and-bit 20 intr)
                    (omega arith))
                  refl)))
    ]
