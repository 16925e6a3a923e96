-- ===== src/Driver/Init.antt =====
-- What `GpuDevice::init` of src/driver.rs sets up on the device that the scan has found.
use gpu_compute_nostd.Base.{
  ℕ, ◌+◌, ◌-◌, ◌^◌, ◌<◌, ◌≡◌, ◌≢◌, ◌↔◌, refl, sym, ap, Bool, true, false, not, Option, List, none,
  some, [], ◌∷◌, arith, Option-cases, inl, inr, ◌&&◌, length, ◌*◌,
}
use mathlib.Core.Path.{subst₂}
use gpu_compute_nostd.Fifo.Method.{gpu_method_1}
use gpu_compute_nostd.Hardware.{Device, History}
use gpu_compute_nostd.Mmio.{GpuRegs, new, disable_interrupts, read_chip_id}
use gpu_compute_nostd.Pci.Scan.{GpuPciDevice}
use gpu_compute_nostd.Memory
use gpu_compute_nostd.Memory.{VramAllocator}
use gpu_compute_nostd.Memory.Detect.{reserved, detect_and_init}
use gpu_compute_nostd.Memory.Laws.{allocate_outcome, allocate_info}
use gpu_compute_nostd.Memory.Sequence.{init_from-IsValid}
use gpu_compute_nostd.Fifo.Channel.{
  Channel, allocate_channel, submit, default_gpfifo_entries, default_push_buffer_size,
}
use gpu_compute_nostd.Fifo.Submit.{IsValid, submit-IsValid, submit_cases, allocate_channel-IsValid}
use gpu_compute_nostd.Compute.{ComputeEngine, new_engine, bind_to_channel}
use gpu_compute_nostd.Driver.{needs_gsp_rm, bind_if, check_pmu, init_device}

-- A submission keeps the channel valid, and leaves its buffers where they are.
pub submit_kept :
    (ch : Channel) (regs : GpuRegs) (commands : List ℕ) (d : Device) (h : History)
    → IsValid ch
    → length commands * 4 < 2 ^ 31
    → let ch' = (submit ch regs commands d h).0.1 in
      IsValid ch' × (ch'.push_buffer ≡ ch.push_buffer) × (ch'.gpfifo ≡ ch.gpfifo)
submit_kept ch regs commands d h v short =
    let valid = submit-IsValid ch regs commands d h v short in
    elim (submit_cases ch regs commands d h v short) [
      | inl (full, none_returned, same, quiet) ↦
          (valid, ap (λ (c : Channel). c.push_buffer) same, ap (λ (c : Channel). c.gpfifo) same)
      | inr (room, returned, moved, kicked) ↦
          (valid, ap (λ (c : Channel). c.push_buffer) moved, ap (λ (c : Channel). c.gpfifo) moved)
    ]

-- what holds of the channel and the allocator of a device
abbrev pub IsSetUp : ℕ → VramAllocator → Option Channel → Type 0
IsSetUp hi v none = Unit
IsSetUp hi v (some ch) =
    IsValid ch × Memory.Laws.IsValid reserved hi v (ch.push_buffer ∷ ch.gpfifo ∷ [])

bind_if-IsSetUp :
    (hi : ℕ) (v : VramAllocator) (ready : Bool) (e : ComputeEngine) (c : Option Channel)
    (regs : GpuRegs) (d : Device) (h : History)
    → IsSetUp hi v c
    → IsSetUp hi v (bind_if ready e c regs d h).0
unfolding bind_if bind_to_channel
bind_if-IsSetUp hi v ready e none regs d h s = s
bind_if-IsSetUp hi v false e (some ch) regs d h s = s
bind_if-IsSetUp hi v true e (some ch) regs d h s =
    let k =
      submit_kept ch regs (gpu_method_1 e.subchannel 0 ∷ e.class_id ∷ []) d h s.0 (omega arith) in
    (k.0, subst₂ (λ p g. Memory.Laws.IsValid reserved hi v (p ∷ g ∷ [])) (sym k.1) (sym k.2) s.1)

pub allocate_channel-IsSetUp :
    (hi : ℕ) (v : VramAllocator)
    → Memory.Laws.IsValid reserved hi v []
    → v.next_gpu_va + 2 ^ 19 < 2 ^ 64
    → IsSetUp hi (allocate_channel v 0 0).1 (allocate_channel v 0 0).0
allocate_channel-IsSetUp hi v valid room = elim (Option-cases (allocate_channel v 0 0).0) [
  | inl fails ↦ rw fails tt
  | inr (ch, done) ↦
      let all =
        allocate_channel-IsValid {v' = (allocate_channel v 0 0).1} 0 0 valid room (omega arith)
          (ap (λ (c : Option Channel). (c, (allocate_channel v 0 0).1)) done) in
      rw done (all.0, all.1)
]

-- The channel's allocations leave the description of the VRAM alone.
allocate_channel_info : (v : VramAllocator) → (allocate_channel v 0 0).1.info ≡ v.info
unfolding allocate_channel
allocate_channel_info v = elim (allocate_outcome v (default_gpfifo_entries * 8)) [
  | inl full ↦ ground (arith, full)
  | inr (g, v1, one) ↦ elim (allocate_outcome v1 default_push_buffer_size) [
    | inl full ↦ ground (arith, one, full, allocate_info v (default_gpfifo_entries * 8))
    | inr (p, v2, two) ↦ ground (
      arith,
      one,
      two,
      allocate_info v (default_gpfifo_entries * 8),
      allocate_info v1 default_push_buffer_size,
    )
  ]
]

set_up :
    (v : VramAllocator) (ready : Bool) (e : ComputeEngine) (regs : GpuRegs) (d : Device)
    (h : History)
    → Memory.Laws.IsValid reserved (reserved + (v.info.total_bytes - reserved)) v []
    → v.next_gpu_va + 2 ^ 19 < 2 ^ 64
    → let (c, v') = allocate_channel v 0 0 in
      IsSetUp (reserved + (v'.info.total_bytes - reserved)) v' (bind_if ready e c regs d h).0
set_up v ready e regs d h valid room =
    let hi : ℕ = reserved + (v.info.total_bytes - reserved) in
    let done =
      bind_if-IsSetUp hi (allocate_channel v 0 0).1 ready e (allocate_channel v 0 0).0 regs d h
        (allocate_channel-IsSetUp hi v valid room) in
    rw (allocate_channel_info v) done

ready_lem :
    (gsp : Bool) (c : Option Channel) (e : ComputeEngine) (regs : GpuRegs) (d : Device)
    (h : History)
    → let ready = not gsp && elim c [ some ch ↦ true | none ↦ false ] in
      (ready ≡ true) ↔ ((gsp ≡ false) × ((bind_if ready e c regs d h).0 ≢ none))
unfolding bind_if
ready_lem true c e regs d h = (λ r. cc, λ r. cc)
ready_lem false none e regs d h = (λ r. cc, λ r. absurd (r.1 refl))
ready_lem false (some ch) e regs d h = (λ r. (refl, λ eq. cc), λ r. refl)

-- After an initialization the channel, if there is one, is valid, and its push buffer and GPFIFO
-- are the two blocks that the allocator has handed out of the VRAM behind the reserved first MiB,
-- with the allocator's invariant holding for what follows.
pub init_device-IsSetUp :
    (pci : GpuPciDevice) (d : Device) (h : History)
    → let g = (init_device pci d h).0 in
      IsSetUp (reserved + (g.vram.info.total_bytes - reserved)) g.vram g.compute_channel
unfolding init_device detect_and_init
init_device-IsSetUp pci d h =
    let regs : GpuRegs = new pci.bar0_base in
    let before : History =
      (check_pmu pci.family regs d (disable_interrupts regs d (read_chip_id regs d h).1).1).1 in
    set_up (detect_and_init regs pci.bar1_base pci.bar1_size d before).0 _ (new_engine pci.family)
      regs d _ (init_from-IsValid _ _ _ _ _) (omega arith)

-- The device is ready for compute exactly if its family does without GSP-RM firmware and a channel
-- could be allocated.
pub init_device-ready :
    (pci : GpuPciDevice) (d : Device) (h : History)
    → let g = (init_device pci d h).0 in
      (g.compute_ready ≡ true) ↔ ((needs_gsp_rm pci.family ≡ false) × (g.compute_channel ≢ none))
unfolding init_device
init_device-ready pci d h =
    ready_lem (needs_gsp_rm pci.family) _ (new_engine pci.family) (new pci.bar0_base) d _
