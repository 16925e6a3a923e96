-- ===== src/Driver/Checked.antt =====
-- `GpuDevice::init` and `query_info` (src/driver.rs) in a build with overflow checks.
pub mod Topology
pub mod Init
pub mod Info
use gpu_compute_nostd.Base.{ℕ, ◌*◌, Bool, true, false, not, ◌&&◌, Option, none, some}
use gpu_compute_nostd.Base.Checked.{Run, done, ◌>>=◌, exact32}
use gpu_compute_nostd.Hardware.{Device, History}
use gpu_compute_nostd.Mmio.{GpuRegs, new, enable_interrupts}
use gpu_compute_nostd.Pci.Family.{GpuFamily}
use gpu_compute_nostd.Pci.Scan.{GpuPciDevice, scan_for_nvidia_gpu}
use gpu_compute_nostd.Fifo.Channel.{Channel}
use gpu_compute_nostd.Fifo.Runlist.{init_fifo}
use gpu_compute_nostd.Fifo.Checked.{allocate_channel_checked}
use gpu_compute_nostd.Compute.{ComputeEngine, new_engine}
use gpu_compute_nostd.Compute.Checked.{bind_to_channel_checked}
use gpu_compute_nostd.Tensor.Descriptor.{new_tensors}
use gpu_compute_nostd.Driver.{GpuInfo, GpuDevice, needs_gsp_rm, sms_per_tpc}
use gpu_compute_nostd.Driver.Checked.Topology.{read_topology}

-- `gpc_count * tpc_per_gpc * sms_per_tpc`
unfoldable pub sm_count_checked : ℕ → ℕ → GpuFamily → Run ℕ
sm_count_checked gpcs tpcs family = do
  total ← exact32 (gpcs * tpcs)
  exact32 (total * sms_per_tpc family)

-- step 11 of `init`, with the channel after it
unfoldable pub bind_if_checked :
    Bool
    → ComputeEngine
    → Option Channel
    → GpuRegs
    → Device
    → History
    → Run (Option Channel × History)
bind_if_checked ready compute none regs d h = done (none, h)
bind_if_checked false compute (some ch) regs d h = done (some ch, h)
bind_if_checked true compute (some ch) regs d h = do
  r ← bind_to_channel_checked compute ch regs d h
  done (some r.0, r.1)

-- `init` from the device that the scan has found on
unfoldable pub init_device_checked : GpuPciDevice → Device → History → Run (GpuDevice × History)
unfolding sm_count_checked bind_if_checked
init_device_checked pci d h =
    let regs = new pci.bar0_base in
    let (t, h1) = read_topology pci d h in
    let h2 = (init_fifo regs d h1).1 in
    let compute = new_engine pci.family in
    (do
      sm_count ← sm_count_checked t.gpc_count t.tpc_per_gpc pci.family
      r ← allocate_channel_checked t.vram 0 0
      let ready = not (needs_gsp_rm pci.family) && elim r.0 [ some ch ↦ true | none ↦ false ]
      c ← bind_if_checked ready compute r.0 regs d h2
      done (
        record {
          pci = pci;
          regs = regs;
          vram = r.1;
          compute = compute;
          tensors = new_tensors;
          compute_channel = c.0;
          compute_ready = ready;
          chip_id = t.chip_id;
          gpc_count = t.gpc_count;
          tpc_per_gpc = t.tpc_per_gpc;
        },
        (enable_interrupts regs d c.1).1,
      ))

unfoldable pub init_checked : Device → History → Run (Option GpuDevice × History)
unfolding init_device_checked
init_checked d h =
    let (r, h1) = scan_for_nvidia_gpu d h in
    elim r [
      | none ↦ done (none, h1)
      | some pci ↦ init_device_checked pci d h1 >>= λ g. done (some g.0, g.1)
    ]

unfoldable pub query_info_checked : GpuDevice → Run GpuInfo
unfolding sm_count_checked
query_info_checked g = do
  sm_count ← sm_count_checked g.gpc_count g.tpc_per_gpc g.pci.family
  done (record {
    name = g.pci.name;
    family = g.pci.family;
    device_id = g.pci.device_id;
    vram_bytes = g.vram.info.total_bytes;
    gpc_count = g.gpc_count;
    tpc_per_gpc = g.tpc_per_gpc;
    sm_count = sm_count;
    needs_gsp_rm = needs_gsp_rm g.pci.family;
    compute_ready = g.compute_ready;
  })
