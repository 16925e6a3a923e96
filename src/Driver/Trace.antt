-- ===== src/Driver/Trace.antt =====
-- Every access to the device that `GpuDevice::init` (src/driver.rs) makes after the scan, in order.
use gpu_compute_nostd.Base.{
  ◌+◌, ◌^◌, ◌≡◌, refl, ap, ◌∙◌, Bool, true, false, not, ◌&&◌, Option, subst, none, some, ◌∷◌,
  if◌then◌else◌, Bool-cases, Option-cases, inl, inr,
}
use gpu_compute_nostd.Hardware.{load, store, Device, History}
use gpu_compute_nostd.Mmio.{
  GpuRegs, new, write32, read_chip_id, disable_interrupts, enable_interrupts, gpc_count,
  tpc_per_gpc, nv_pmc_boot_0, nv_pmc_intr_en_0, nv_pfb_cfg0, nv_pfb_vram_size, nv_pfb_nparts,
  nv_pgraph_gpc_count, nv_pgraph_tpc_per_gpc, nv_pfifo_intr_0, nv_pfifo_intr_en_0,
}
use gpu_compute_nostd.Pci.Scan.{GpuPciDevice}
use gpu_compute_nostd.Memory.{VramAllocator, GpuAllocation}
use gpu_compute_nostd.Memory.Detect.{detect_and_init}
use gpu_compute_nostd.Falcon
use gpu_compute_nostd.Falcon.{pmu, falcon_cpuctl, is_halted, base_offset}
use gpu_compute_nostd.Falcon.Upload.{reg}
use gpu_compute_nostd.Fifo.Channel.{Channel, allocate_channel, opened, submit}
use gpu_compute_nostd.Fifo.Runlist.{init_fifo}
use gpu_compute_nostd.Fifo.Submit.{allocate_channel-some}
use gpu_compute_nostd.Compute.{ComputeEngine, new_engine, bind_to_channel}
use gpu_compute_nostd.Driver.{GpuDevice, needs_gsp_rm, check_pmu, bind_if, init_device}

-- the VRAM, the topology and PFIFO
abbrev pub probed : GpuRegs → History → History
probed regs h =
    store (regs.bar0 + nv_pfifo_intr_en_0) 0xFFFF_FFFF
    ∷ store (regs.bar0 + nv_pfifo_intr_0) 0xFFFF_FFFF
    ∷ load (regs.bar0 + nv_pfifo_intr_0)
    ∷ load (regs.bar0 + nv_pgraph_tpc_per_gpc)
    ∷ load (regs.bar0 + nv_pgraph_gpc_count)
    ∷ load (regs.bar0 + nv_pfb_nparts)
    ∷ load (regs.bar0 + nv_pfb_vram_size)
    ∷ load (regs.bar0 + nv_pfb_cfg0)
    ∷ h

-- then the doorbell of channel 0, if the compute class is bound, and interrupts on
abbrev pub finished : GpuRegs → Bool → History → History
finished regs bound h =
    store (regs.bar0 + nv_pmc_intr_en_0) (2 ^ 8 + 2 ^ 12 + 2 ^ 20)
    ∷ (if bound then store (regs.bar0 + 0x90000) 1 ∷ probed regs h else probed regs h)

-- the chip ID, interrupts off, and a look at the PMU
abbrev pub begun : GpuRegs → Bool → History → History
begun regs gsp h =
    let off = store (regs.bar0 + nv_pmc_intr_en_0) 0 ∷ load (regs.bar0 + nv_pmc_boot_0) ∷ h in
    if gsp then off else load (reg (Falcon.new pmu) regs falcon_cpuctl) ∷ off

check_pmu_lem :
    (pci : GpuPciDevice) (regs : GpuRegs) (d : Device) (h : History)
    → (check_pmu pci.family regs d h).1
      ≡ (if needs_gsp_rm pci.family then h else load (reg (Falcon.new pmu) regs falcon_cpuctl) ∷ h)
unfolding check_pmu is_halted
check_pmu_lem pci regs d h = elim (Bool-cases (needs_gsp_rm pci.family)) [
  | inl gsp ↦ rw (gsp, check_pmu) refl
  | inr direct ↦ rw (direct, check_pmu) refl
]

-- a channel as it is allocated, if there is one
abbrev IsFresh : Option Channel → Type 0
IsFresh none = Unit
IsFresh (some ch) = (g : GpuAllocation) × (p : GpuAllocation) × (opened 0 0 g p ≡ ch)

allocate_channel-IsFresh : (v : VramAllocator) → IsFresh (allocate_channel v 0 0).0
allocate_channel-IsFresh v = elim (Option-cases (allocate_channel v 0 0).0) [
  | inl fails ↦ rw fails tt
  | inr (ch, done) ↦
      let made =
        allocate_channel-some v (allocate_channel v 0 0).1 0 0 ch
          (ap (λ (c : Option Channel). (c, (allocate_channel v 0 0).1)) done) in
      rw done (made.0, made.1, made.5)
]

module _ (e : ComputeEngine) (regs : GpuRegs) (d : Device) (h : History) where
  -- Binding the class to a fresh channel rings its doorbell with 1.
  bind_if_lem :
      (gsp : Bool) (c : Option Channel)
      → IsFresh c
      → let ready = not gsp && elim c [ some ch ↦ true | none ↦ false ] in
        (bind_if ready e c regs d h).1 ≡ (if ready then store (regs.bar0 + 0x90000) 1 ∷ h else h)
  unfolding bind_if bind_to_channel submit write32
  bind_if_lem true none f = refl
  bind_if_lem false none f = refl
  bind_if_lem true (some ch) f = refl
  bind_if_lem false (some ch) (g, p, made) =
      subst (λ k. (bind_if true e (some k) regs d h).1 ≡ store (regs.bar0 + 0x90000) 1 ∷ h) made
        refl

-- After the scan, `init` makes exactly these accesses: interrupts are off from its second access on
-- and come on with its last, the PMU is only looked at and only on a family without GSP-RM, and the
-- doorbell is rung once, with 1, exactly if the device is then ready for compute.
pub init_device-trace :
    (pci : GpuPciDevice) (d : Device) (h : History)
    → let (g, h') = init_device pci d h in
      h' ≡ finished g.regs g.compute_ready (begun g.regs (needs_gsp_rm pci.family) h)
unfolding init_device detect_and_init read_chip_id disable_interrupts enable_interrupts gpc_count
    tpc_per_gpc init_fifo
init_device-trace pci d h =
    let regs : GpuRegs = new pci.bar0_base in
    let gsp : Bool = needs_gsp_rm pci.family in
    let off : History =
      store (regs.bar0 + nv_pmc_intr_en_0) 0 ∷ load (regs.bar0 + nv_pmc_boot_0) ∷ h in
    let looked : History = (check_pmu pci.family regs d off).1 in
    let vram : VramAllocator = (detect_and_init regs pci.bar1_base pci.bar1_size d looked).0 in
    let g : GpuDevice = (init_device pci d h).0 in
    ap (λ t. store (regs.bar0 + nv_pmc_intr_en_0) (2 ^ 8 + 2 ^ 12 + 2 ^ 20) ∷ t)
      (bind_if_lem (new_engine pci.family) regs d (probed regs looked) gsp
        (allocate_channel vram 0 0).0 (allocate_channel-IsFresh vram))
    ∙ ap (λ t. finished regs g.compute_ready t) (check_pmu_lem pci regs d off)
