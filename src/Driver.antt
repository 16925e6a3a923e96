-- ===== src/Driver.antt =====
-- src/driver.rs: `GpuDevice`, its initialization, queries and interrupt handler.
pub mod Interrupts
pub mod Quiet
pub mod Trace
pub mod Windows
pub mod Text
pub mod Init
pub mod Start
pub mod Session
pub mod Checked
use gpu_compute_nostd.Base.{
  ℕ, ◌*◌, ◌/◌, Bool, true, false, not, Option, none, some, bit_and, u32, ◌!=◌, ◌==◌, ◌&&◌,
  if◌then◌else◌,
}
use Prim.Native.String.{String}
use gpu_compute_nostd.Hardware.{Io, pure, ◌>>=◌, ◌>>◌}
use gpu_compute_nostd.Mmio.{
  GpuRegs, new, write32, read_chip_id, read_timer_ns, disable_interrupts, enable_interrupts,
  read_interrupts, gpc_count, tpc_per_gpc, nv_pmc_intr_pfifo, nv_pmc_intr_pgraph,
  nv_pmc_intr_ptimer, nv_pfifo_intr_0, nv_pgraph_intr, nv_ptimer_intr_0,
}
use gpu_compute_nostd.Pci.Family.{GpuFamily, turing, ampere, ada}
use gpu_compute_nostd.Pci.Scan.{GpuPciDevice, scan_for_nvidia_gpu}
use gpu_compute_nostd.Memory.{VramAllocator}
use gpu_compute_nostd.Memory.Detect.{detect_and_init}
use gpu_compute_nostd.Falcon
use gpu_compute_nostd.Falcon.{pmu, is_halted}
use gpu_compute_nostd.Fifo.Channel.{Channel, allocate_channel}
use gpu_compute_nostd.Fifo.Runlist.{init_fifo}
use gpu_compute_nostd.Compute.{ComputeEngine, new_engine, bind_to_channel}
use gpu_compute_nostd.Tensor.Descriptor.{TensorEngine, new_tensors}

pub record GpuInfo : Type 0 where
  pub name : String
  pub family : GpuFamily
  pub device_id : ℕ
  pub vram_bytes : ℕ
  pub gpc_count : ℕ
  pub tpc_per_gpc : ℕ
  pub sm_count : ℕ
  pub needs_gsp_rm : Bool
  pub compute_ready : Bool

pub record GpuDevice : Type 0 where
  pub pci : GpuPciDevice
  pub regs : GpuRegs
  pub vram : VramAllocator
  pub compute : ComputeEngine
  pub tensors : TensorEngine
  pub compute_channel : Option Channel
  pub compute_ready : Bool
  pub chip_id : ℕ
  pub gpc_count : ℕ
  pub tpc_per_gpc : ℕ

-- `matches!(family, Turing | Ampere | Ada)`
unfoldable pub needs_gsp_rm : GpuFamily → Bool
needs_gsp_rm turing = true
needs_gsp_rm ampere = true
needs_gsp_rm ada = true
needs_gsp_rm _ = false

unfoldable pub sms_per_tpc : GpuFamily → ℕ
sms_per_tpc ampere = 2
sms_per_tpc ada = 2
sms_per_tpc _ = 1

-- step 6 of `init`: only asks whether the PMU is halted, and loads nothing
unfoldable pub check_pmu : GpuFamily → GpuRegs → Io (Unit {0})
check_pmu family regs =
    if needs_gsp_rm family then pure tt else is_halted (Falcon.new pmu) regs >> pure tt

-- step 11 of `init`, with the channel after it
unfoldable pub bind_if : Bool → ComputeEngine → Option Channel → GpuRegs → Io (Option Channel)
bind_if ready compute none regs = pure none
bind_if ready compute (some ch) regs =
    if ready then (bind_to_channel compute ch regs >>= λ c. pure (some c)) else pure (some ch)

-- `init` from the device that the scan has found on
unfoldable pub init_device : GpuPciDevice → Io GpuDevice
unfolding check_pmu bind_if
init_device pci =
    let regs = new pci.bar0_base in
    (do
      chip_id ← read_chip_id regs
      disable_interrupts regs
      check_pmu pci.family regs
      vram ← detect_and_init regs pci.bar1_base pci.bar1_size
      gpcs ← gpc_count regs
      tpcs ← tpc_per_gpc regs
      init_fifo regs
      let compute = new_engine pci.family
      let channel = (allocate_channel vram 0 0).0
      let vram' = (allocate_channel vram 0 0).1
      let ready = not (needs_gsp_rm pci.family) && elim channel [ some ch ↦ true | none ↦ false ]
      channel' ← bind_if ready compute channel regs
      enable_interrupts regs
      pure (record {
        pci = pci;
        regs = regs;
        vram = vram';
        compute = compute;
        tensors = new_tensors;
        compute_channel = channel';
        compute_ready = ready;
        chip_id = chip_id;
        gpc_count = gpcs;
        tpc_per_gpc = tpcs;
      }))

-- `GpuDevice::init`
unfoldable pub init : Io (Option GpuDevice)
unfolding init_device
init d h =
    let (r, h1) = scan_for_nvidia_gpu d h in
    elim r [ none ↦ (none, h1) | some pci ↦ let (g, h2) = init_device pci d h1 in (some g, h2) ]

unfoldable pub query_info : GpuDevice → GpuInfo
query_info g = record {
  name = g.pci.name;
  family = g.pci.family;
  device_id = g.pci.device_id;
  vram_bytes = g.vram.info.total_bytes;
  gpc_count = g.gpc_count;
  tpc_per_gpc = g.tpc_per_gpc;
  sm_count = u32 (u32 (g.gpc_count * g.tpc_per_gpc) * sms_per_tpc g.pci.family);
  needs_gsp_rm = needs_gsp_rm g.pci.family;
  compute_ready = g.compute_ready;
}

-- `status` reads the timer and the pending interrupts, and writes all to the log.
unfoldable pub status : ℕ → GpuDevice → Io (Option (ℕ × ℕ))
status fuel g d h =
    let (t, h1) = read_timer_ns g.regs fuel d h in
    elim t [
      | none ↦ (none, h1)
      | some timer_ns ↦
          let (intr, h2) = read_interrupts g.regs d h1 in (some (timer_ns / 1000000, intr), h2)
    ]

-- clears one source, if it is pending
unfoldable pub clear_if : GpuRegs → ℕ → ℕ → ℕ → Io (Unit {0})
clear_if regs intr mask register =
    if bit_and intr mask != 0 then write32 regs register 0xFFFF_FFFF else pure tt

-- `GpuDevice::handle_interrupt`
unfoldable pub handle_interrupt : GpuDevice → Io (Unit {0})
unfolding clear_if
handle_interrupt g = do
  intr ← read_interrupts g.regs
  if intr == 0 then pure tt else (do
    clear_if g.regs intr nv_pmc_intr_pfifo nv_pfifo_intr_0
    clear_if g.regs intr nv_pmc_intr_pgraph nv_pgraph_intr
    clear_if g.regs intr nv_pmc_intr_ptimer nv_ptimer_intr_0)
