-- ===== src/Driver/Checked/Topology.antt =====
-- Steps 3 to 8 of `GpuDevice::init` (src/driver.rs), up to the product for `sm_count`: what they read.
-- None of their sums can overflow.
use gpu_compute_nostd.Base.{ℕ}
use gpu_compute_nostd.Hardware.{Io, pure, ◌>>=◌, ◌>>◌}
use gpu_compute_nostd.Mmio.{new, read_chip_id, disable_interrupts, gpc_count, tpc_per_gpc}
use gpu_compute_nostd.Pci.Scan.{GpuPciDevice}
use gpu_compute_nostd.Memory.{VramAllocator}
use gpu_compute_nostd.Memory.Detect.{detect_and_init}
use gpu_compute_nostd.Driver.{check_pmu}

pub record Topology : Type 0 where
  pub chip_id : ℕ
  pub vram : VramAllocator
  pub gpc_count : ℕ
  pub tpc_per_gpc : ℕ

unfoldable pub read_topology : GpuPciDevice → Io Topology
read_topology pci =
    let regs = new pci.bar0_base in
    (do
      chip_id ← read_chip_id regs
      disable_interrupts regs
      check_pmu pci.family regs
      vram ← detect_and_init regs pci.bar1_base pci.bar1_size
      gpcs ← gpc_count regs
      tpcs ← tpc_per_gpc regs
      pure (record { chip_id = chip_id; vram = vram; gpc_count = gpcs; tpc_per_gpc = tpcs }))
