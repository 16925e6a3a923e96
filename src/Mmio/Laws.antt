-- ===== src/Mmio/Laws.antt =====
-- What the operations of `GpuRegs` (src/mmio.rs) do to a register that holds what is written.
use gpu_compute_nostd.Base.{
  ℕ, ◌+◌, ◌/◌, ◌^◌, ◌<◌, ◌≡◌, ◌≢◌, refl, ◌∷◌, arith, u32, bit_or, ◌<<◌, ◌>>>◌, ap, ◌∙◌,
}
use mathlib.Core.Path.{ap₂}
use gpu_compute_nostd.Base.Bits.{bit_or_fields, bit_and_ones}
use gpu_compute_nostd.Hardware.{Access, load, store, Device, History}
use gpu_compute_nostd.Mmio.{
  GpuRegs, read64, write64, read_chip_id, master_reset, nv_pmc_enable, nv_pmc_boot_0,
}

-- the access writes nothing at address `a`
abbrev pub Spares : ℕ → Access → Type 0
Spares a (store b v) = b ≢ a
Spares a _ = Unit

-- The word at address `a` is memory: it is what was written last.
pub record IsRegister (d : Device) (a : ℕ) : Type 0 where
  pub written : (v : ℕ) (h : History) → d.loads (store a v ∷ h) a ≡ u32 v
  pub kept : (e : Access) (h : History) → Spares a e → d.loads (e ∷ h) a ≡ d.loads h a

-- `read64` gets back the 64-bit value that `write64` has put into two words of memory, at an offset
-- for which the second one's does not wrap.
pub read64-write64 :
    (regs : GpuRegs) (offset v : ℕ) (d : Device) (h : History)
    → offset + 4 < 2 ^ 32
    → v < 2 ^ 64
    → IsRegister d (regs.bar0 + offset)
    → IsRegister d (regs.bar0 + u32 (offset + 4))
    → (read64 regs offset d (write64 regs offset v d h).1).0 ≡ v
unfolding read64 write64
read64-write64 regs offset v d h fits word lo hi =
    let a : ℕ = regs.bar0 + offset in
    let b : ℕ = regs.bar0 + u32 (offset + 4) in
    let h1 : History = store a (u32 v) ∷ h in
    let h2 : History = store b (u32 (v >>> 32)) ∷ h1 in
    omega (
      arith,
      lo.kept (store b (u32 (v >>> 32))) h1 (omega arith),
      lo.written (u32 v) h,
      hi.kept (load a) h2 tt,
      hi.written (u32 (v >>> 32)) h1,
      ap₂ bit_or (ap (λ t. t << 32) (hi.kept (load a) h2 tt ∙ hi.written (u32 (v >>> 32)) h1))
          (lo.kept (store b (u32 (v >>> 32))) h1 (omega arith) ∙ lo.written (u32 v) h),
      bit_or_fields 32 (u32 (u32 (v >>> 32))) (u32 (u32 v)) (omega arith),
    )

-- `master_reset` writes 0 to NV_PMC_ENABLE and then its first value, reading after each write; a
-- register that holds what is written is afterwards as it was.
pub master_reset_lem :
    (regs : GpuRegs) (d : Device) (h : History)
    → IsRegister d (regs.bar0 + nv_pmc_enable)
    → let a = regs.bar0 + nv_pmc_enable in
      let enable = d.loads h a in
      let h' = (master_reset regs d h).1 in
      (h' ≡ load a ∷ store a enable ∷ load a ∷ store a 0 ∷ load a ∷ h) × (d.loads h' a ≡ enable)
unfolding master_reset
master_reset_lem regs d h reg =
    let a : ℕ = regs.bar0 + nv_pmc_enable in
    let h' : History = load a ∷ store a 0 ∷ load a ∷ h in
    (
      refl,
      omega (
        arith,
        reg.kept (load a) (store a (d.loads h a) ∷ h') tt,
        reg.written (d.loads h a) h',
        d.loads_word h a,
      ),
    )

-- The chip ID is the top twelve bits of NV_PMC_BOOT_0.
pub read_chip_id_lem :
    (regs : GpuRegs) (d : Device) (h : History)
    → ((read_chip_id regs d h).0 ≡ d.loads h (regs.bar0 + nv_pmc_boot_0) / 2 ^ 20)
      × ((read_chip_id regs d h).0 < 2 ^ 12)
unfolding read_chip_id
read_chip_id_lem regs d h =
    let a : ℕ = regs.bar0 + nv_pmc_boot_0 in
    (
      omega (arith, d.loads_word h a, bit_and_ones 12 (d.loads h a / 2 ^ 20)),
      omega (arith, d.loads_word h a, bit_and_ones 12 (d.loads h a / 2 ^ 20)),
    )
