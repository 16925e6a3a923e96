-- ===== src/Mmio.antt =====
-- src/mmio.rs: register offsets, and the accessor `GpuRegs` with its operations.
mod Registers
pub mod Timer
pub mod Laws
pub use Registers.*
use gpu_compute_nostd.Base.{
  ℕ, zero, suc, ◌+◌, ◌*◌, ◌^◌, Bool, true, false, Option, none, some, bit_and, bit_or, u32, ◌<<◌,
  ◌>>>◌, ◌==◌,
}
use gpu_compute_nostd.Hardware.{
  Device, History, Io, pure, ◌>>=◌, ◌>>◌, read_volatile, write_volatile,
}

-- `GpuRegs`: the virtual address at which BAR0 is mapped
pub record GpuRegs : Type 0 where
  pub bar0 : ℕ

-- `GpuRegs::new`
unfoldable pub new : ℕ → GpuRegs
new bar0_vaddr = record { bar0 = bar0_vaddr }

module _ (regs : GpuRegs) where
  unfoldable pub read32 : ℕ → Io ℕ
  read32 offset = read_volatile (regs.bar0 + offset)

  unfoldable pub write32 : ℕ → ℕ → Io (Unit {0})
  write32 offset value = write_volatile (regs.bar0 + offset) value

  unfoldable pub read64 : ℕ → Io ℕ
  unfolding read32
  read64 offset = do lo ← read32 offset; hi ← read32 (u32 (offset + 4)); pure (bit_or (hi << 32) lo)

  unfoldable pub write64 : ℕ → ℕ → Io (Unit {0})
  unfolding write32
  write64 offset value = do
    write32 offset (u32 value)
    write32 (u32 (offset + 4)) (u32 (value >>> 32))

  unfoldable pub read_chip_id : Io ℕ
  unfolding read32
  read_chip_id = do boot0 ← read32 nv_pmc_boot_0; pure (bit_and (boot0 >>> 20) 0xFFF)

  -- The `loop` runs at most `fuel` rounds; `none` when they are used up.
  unfoldable pub read_timer_ns : ℕ → Io (Option ℕ)
  unfolding read32
  read_timer_ns zero d h = (none, h)
  read_timer_ns (suc fuel) d h =
      let (hi1, h1) = read32 nv_ptimer_time_1 d h in
      let (lo, h2) = read32 nv_ptimer_time_0 d h1 in
      let (hi2, h3) = read32 nv_ptimer_time_1 d h2 in
      elim (hi1 == hi2) [
        | true ↦ (some (bit_or (hi1 << 32) lo), h3)
        | false ↦ read_timer_ns fuel d h3
      ]

  unfoldable pub master_reset : Io (Unit {0})
  unfolding read32 write32
  master_reset = do
    enable ← read32 nv_pmc_enable
    write32 nv_pmc_enable 0
    read32 nv_pmc_enable
    write32 nv_pmc_enable enable
    read32 nv_pmc_enable
    pure tt

  unfoldable pub disable_interrupts : Io (Unit {0})
  unfolding write32
  disable_interrupts = write32 nv_pmc_intr_en_0 0

  unfoldable pub enable_interrupts : Io (Unit {0})
  unfolding write32
  enable_interrupts =
      let mask = bit_or (bit_or nv_pmc_intr_pfifo nv_pmc_intr_pgraph) nv_pmc_intr_ptimer in
      write32 nv_pmc_intr_en_0 mask

  unfoldable pub read_interrupts : Io ℕ
  unfolding read32
  read_interrupts = read32 nv_pmc_intr_0

  unfoldable pub gpc_count : Io ℕ
  unfolding read32
  gpc_count = read32 nv_pgraph_gpc_count

  unfoldable pub tpc_per_gpc : Io ℕ
  unfolding read32
  tpc_per_gpc = read32 nv_pgraph_tpc_per_gpc
