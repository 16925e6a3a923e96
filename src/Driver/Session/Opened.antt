-- ===== src/Driver/Session/Opened.antt =====
-- From the initialization in src/driver.rs to every state of a session, for any invariant of the
-- allocator.
use gpu_compute_nostd.Base.{
  ℕ, ◌+◌, ◌-◌, ◌≡◌, sym, subst, Bool, true, false, Option, none, some, List, [], ◌∷◌, arith,
}
use mathlib.Core.Path.{subst₂}
use gpu_compute_nostd.Hardware.{Device, History}
use gpu_compute_nostd.Mmio.{GpuRegs}
use gpu_compute_nostd.Pci.Scan.{GpuPciDevice}
use gpu_compute_nostd.Memory.{GpuAllocation, VramAllocator}
use gpu_compute_nostd.Memory.Detect.{reserved, init_from, detect_and_init}
use gpu_compute_nostd.Memory.Invariant.{IsInvariant}
use gpu_compute_nostd.Fifo.Channel.{Channel, submit}
use gpu_compute_nostd.Compute.{ComputeEngine, bind_to_channel}
use gpu_compute_nostd.Driver.{GpuDevice, bind_if, init_device}
use gpu_compute_nostd.Driver.Session.{Session, Reach, opened, channel_blocks}
use gpu_compute_nostd.Driver.Session.Allocations.{allocate_channel_kept, room-AllocatedTwo}
use gpu_compute_nostd.Driver.Session.Demand.{owned}
use gpu_compute_nostd.Driver.Session.Safety.{Reach-IsConsistent, opened-IsConsistent}
use gpu_compute_nostd.Driver.Init.{init_device-IsSetUp}

-- A submission leaves a channel its buffers.
submit_buffers :
    (ch : Channel) (regs : GpuRegs) (commands : List ℕ) (d : Device) (h : History)
    → let ch' = (submit ch regs commands d h).0.1 in
      (ch'.push_buffer ≡ ch.push_buffer) × (ch'.gpfifo ≡ ch.gpfifo)
unfolding submit
submit_buffers ch regs commands d h = ground arith

module _ (P : VramAllocator → List GpuAllocation → Type 0) (laws : IsInvariant P) where
  bind_if_kept :
      (v : VramAllocator) (ready : Bool) (e : ComputeEngine) (c : Option Channel) (regs : GpuRegs)
      (d : Device) (h : History)
      → P v (channel_blocks c [])
      → P v (channel_blocks (bind_if ready e c regs d h).0 [])
  unfolding bind_if bind_to_channel
  bind_if_kept v ready e none regs d h a = a
  bind_if_kept v false e (some ch) regs d h a = a
  bind_if_kept v true e (some ch) regs d h a =
      let same = submit_buffers ch regs _ d h in
      subst₂ (λ p g. P v (p ∷ g ∷ [])) (sym same.0) (sym same.1) a

  init_device_kept :
      (pci : GpuPciDevice) (d : Device) (h : History)
      → ((cfg0 size_reg nparts : ℕ)
          → P (init_from cfg0 size_reg nparts pci.bar1_base pci.bar1_size) [])
      → let g = (init_device pci d h).0 in P g.vram (channel_blocks g.compute_channel [])
  unfolding init_device detect_and_init init_from
  init_device_kept pci d h start = bind_if_kept _ _ _ _ _ d _ (
      allocate_channel_kept P laws _ 0 0 []
        (room-AllocatedTwo P laws _ [] (start _ _ _) (omega arith)))

  -- The invariant holds in every state that calls lead to from an initialization that has opened a
  -- channel, if it holds of the allocator that the detection sets up.
  pub Reach_kept :
      (pci : GpuPciDevice) (d : Device) (h : History) {ch : Channel} {s : Session} {h' : History}
      → ((cfg0 size_reg nparts : ℕ)
          → P (init_from cfg0 size_reg nparts pci.bar1_base pci.bar1_size) [])
      → let (g, h1) = init_device pci d h in
        g.compute_channel ≡ some ch → Reach g.regs d (opened g ch) h1 s h' → P s.vram (owned s)
  Reach_kept pci d h {ch} start e r =
      let g : GpuDevice = (init_device pci d h).0 in
      let hi : ℕ = reserved + (g.vram.info.total_bytes - reserved) in
      let first = opened-IsConsistent hi g e (init_device-IsSetUp pci d h) in
      let memory : P g.vram (channel_blocks (some ch) []) =
        subst (λ c. P g.vram (channel_blocks c [])) e (init_device_kept pci d h start) in
      (Reach-IsConsistent P laws g.regs d (opened g ch) (init_device pci d h).1
        (record { channel = first.channel; memory = memory; layout = tt }) r).memory
