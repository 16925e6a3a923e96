-- ===== src/Driver/Checked/Init.antt =====
-- When `GpuDevice::init` and `query_info` (src/driver.rs) panic in a build with overflow checks, and
-- what they do when they do not.
use gpu_compute_nostd.Base.{
  ℕ, ◌+◌, ◌-◌, ◌*◌, ◌^◌, ◌<◌, ◌≡◌, ◌⊎◌, inl, inr, ◌↔◌, refl, sym, ◌∙◌, Bool, true, false, not, ◌&&◌,
  Option, none, some, List, [], ◌∷◌, arith, u32,
}
use gpu_compute_nostd.Base.Checked.{
  done, panicked, exact32, Agrees, Agrees->>=, Agrees-exact32, >>=_after, >>=-done, Run-cases,
  panicked_not,
}
use gpu_compute_nostd.Hardware.{Device, History}
use gpu_compute_nostd.Mmio.{GpuRegs, new}
use gpu_compute_nostd.Pci.Family.{
  GpuFamily, kepler, maxwell, pascal, volta, turing, ampere, ada, unknown,
}
use gpu_compute_nostd.Pci.Scan.{GpuPciDevice}
use gpu_compute_nostd.Memory
use gpu_compute_nostd.Memory.Laws.{some_pair}
use gpu_compute_nostd.Memory.{VramAllocator}
use gpu_compute_nostd.Memory.Detect.{reserved, detect_and_init}
use gpu_compute_nostd.Memory.Sequence.{init_from-IsValid}
use gpu_compute_nostd.Fifo.Method.{gpu_method_1}
use gpu_compute_nostd.Fifo.Checked.Laws.{submit_exact}
use gpu_compute_nostd.Driver.Init.{IsSetUp, allocate_channel-IsSetUp}
use gpu_compute_nostd.Fifo.Channel.{Channel, allocate_channel}
use gpu_compute_nostd.Fifo.Runlist.{init_fifo}
use gpu_compute_nostd.Fifo.Checked.{allocate_channel_checked}
use gpu_compute_nostd.Fifo.Checked.Laws.{allocate_channel-Agrees, allocate_channel_exact}
use gpu_compute_nostd.Compute.{ComputeEngine, new_engine, bind_to_channel}
use gpu_compute_nostd.Compute.Checked.{bind_to_channel_checked}
use gpu_compute_nostd.Compute.Checked.Laws.{bind_to_channel-Agrees}
use gpu_compute_nostd.Driver.{GpuDevice, needs_gsp_rm, sms_per_tpc, bind_if, init_device}
use gpu_compute_nostd.Driver.Checked.Topology.{read_topology}
use gpu_compute_nostd.Driver.Checked.{sm_count_checked, bind_if_checked, init_device_checked}

sm_count-Agrees :
    (gpcs tpcs : ℕ) (family : GpuFamily)
    → Agrees (sm_count_checked gpcs tpcs family) (u32 (u32 (gpcs * tpcs) * sms_per_tpc family))
unfolding sm_count_checked
sm_count-Agrees gpcs tpcs family =
    Agrees->>= (exact32 (gpcs * tpcs)) _ _ _ (Agrees-exact32 (gpcs * tpcs))
      (Agrees-exact32 (u32 (gpcs * tpcs) * sms_per_tpc family))

bind_if-Agrees :
    (ready : Bool) (e : ComputeEngine) (c : Option Channel) (regs : GpuRegs) (d : Device)
    (h : History)
    → Agrees (bind_if_checked ready e c regs d h) (bind_if ready e c regs d h)
unfolding bind_if_checked bind_if
bind_if-Agrees ready e none regs d h = refl
bind_if-Agrees false e (some ch) regs d h = refl
bind_if-Agrees true e (some ch) regs d h =
    Agrees->>= (bind_to_channel_checked e ch regs d h) _ _ _ (bind_to_channel-Agrees e ch regs d h)
      refl

-- An initialization with overflow checks panics, or does what it does without.
pub init_device-Agrees :
    (pci : GpuPciDevice) (d : Device) (h : History)
    → Agrees (init_device_checked pci d h) (init_device pci d h)
unfolding init_device_checked init_device read_topology
init_device-Agrees pci d h =
    let t = read_topology pci d h in
    let r = allocate_channel t.0.vram 0 0 in
    let h2 : History = (init_fifo (new pci.bar0_base) d t.1).1 in
    let ready : Bool =
      not (needs_gsp_rm pci.family) && elim r.0 [ some ch ↦ true | none ↦ false ] in
    Agrees->>= (sm_count_checked t.0.gpc_count t.0.tpc_per_gpc pci.family) _ _ _
      (sm_count-Agrees t.0.gpc_count t.0.tpc_per_gpc pci.family)
      (Agrees->>= (allocate_channel_checked t.0.vram 0 0) r _ _
        (allocate_channel-Agrees t.0.vram 0 0)
        (Agrees->>= (bind_if_checked ready (new_engine pci.family) r.0 (new pci.bar0_base) d h2) _ _
          _ (bind_if-Agrees ready (new_engine pci.family) r.0 (new pci.bar0_base) d h2) refl))

pub sms-cases : (family : GpuFamily) → (sms_per_tpc family ≡ 1) ⊎ (sms_per_tpc family ≡ 2)
unfolding sms_per_tpc
sms-cases kepler = inl refl
sms-cases maxwell = inl refl
sms-cases pascal = inl refl
sms-cases volta = inl refl
sms-cases turing = inl refl
sms-cases ampere = inr refl
sms-cases ada = inr refl
sms-cases unknown = inl refl

-- The number of streaming multiprocessors fits 32 bits.
abbrev pub HasCountableSms : GpuFamily → ℕ → ℕ → Type 0
HasCountableSms family gpcs tpcs = gpcs * tpcs * sms_per_tpc family < 2 ^ 32

sm_count_done :
    (gpcs tpcs : ℕ) (family : GpuFamily) {n : ℕ}
    → sm_count_checked gpcs tpcs family ≡ done n
    → HasCountableSms family gpcs tpcs × (n ≡ gpcs * tpcs * sms_per_tpc family)
unfolding sm_count_checked
sm_count_done gpcs tpcs family {n} e = ground (arith, sms-cases family)

pub sm_count_exact :
    (gpcs tpcs : ℕ) (family : GpuFamily)
    → HasCountableSms family gpcs tpcs
    → sm_count_checked gpcs tpcs family ≡ done (u32 (u32 (gpcs * tpcs) * sms_per_tpc family))
unfolding sm_count_checked
sm_count_exact gpcs tpcs family fits = ground (arith, sms-cases family)

bind_if_exact :
    (hi : ℕ) (v : VramAllocator) (ready : Bool) (e : ComputeEngine) (c : Option Channel)
    (regs : GpuRegs) (d : Device) (h : History)
    → IsSetUp hi v c
    → bind_if_checked ready e c regs d h ≡ done (bind_if ready e c regs d h)
unfolding bind_if_checked bind_if bind_to_channel_checked bind_to_channel
bind_if_exact hi v ready e none regs d h s = refl
bind_if_exact hi v false e (some ch) regs d h s = refl
bind_if_exact hi v true e (some ch) regs d h s =
    let commands : List ℕ = gpu_method_1 e.subchannel 0x0000 ∷ e.class_id ∷ [] in
    rw (submit_exact ch regs commands d h s.0 (omega arith)) refl

pub init_device_done :
    (pci : GpuPciDevice) (d : Device) (h : History) {r : GpuDevice × History}
    → init_device_checked pci d h ≡ done r
    → let g = (init_device pci d h).0 in HasCountableSms pci.family g.gpc_count g.tpc_per_gpc
unfolding init_device_checked init_device read_topology
init_device_done pci d h {r} e =
    let t = read_topology pci d h in
    let (n, counted, rest) =
      >>=-done (sm_count_checked t.0.gpc_count t.0.tpc_per_gpc pci.family) e in
    (sm_count_done t.0.gpc_count t.0.tpc_per_gpc pci.family counted).0

init_device_exact :
    (pci : GpuPciDevice) (d : Device) (h : History)
    → let g = (init_device pci d h).0 in
      HasCountableSms pci.family g.gpc_count g.tpc_per_gpc
      → init_device_checked pci d h ≡ done (init_device pci d h)
unfolding init_device_checked init_device read_topology detect_and_init
init_device_exact pci d h fits =
    let t = read_topology pci d h in
    let v : VramAllocator = t.0.vram in
    let hi : ℕ = reserved + (v.info.total_bytes - reserved) in
    let valid : Memory.Laws.IsValid reserved hi v [] = init_from-IsValid _ _ _ _ _ in
    let r = allocate_channel v 0 0 in
    let h2 : History = (init_fifo (new pci.bar0_base) d t.1).1 in
    let ready : Bool =
      not (needs_gsp_rm pci.family) && elim r.0 [ some ch ↦ true | none ↦ false ] in
    >>=_after (sm_count_checked t.0.gpc_count t.0.tpc_per_gpc pci.family) _ _ _
      (sm_count_exact t.0.gpc_count t.0.tpc_per_gpc pci.family fits)
      (>>=_after (allocate_channel_checked v 0 0) r _ _
        (allocate_channel_exact reserved hi v [] 0 0 valid (omega arith) (omega arith))
        (>>=_after (bind_if_checked ready (new_engine pci.family) r.0 (new pci.bar0_base) d h2) _ _
          _
          (bind_if_exact hi r.1 ready (new_engine pci.family) r.0 (new pci.bar0_base) d h2
            (allocate_channel-IsSetUp hi v valid (omega arith)))
          refl))

-- With overflow checks, the initialization of the card that was found does what it does without them
-- exactly if the number of streaming multiprocessors, from the two counts that the card reports, fits
-- 32 bits; otherwise it does not return.
pub init_device_checked_iff :
    (pci : GpuPciDevice) (d : Device) (h : History)
    → let g = (init_device pci d h).0 in
      ((init_device_checked pci d h ≡ done (init_device pci d h))
        ↔ HasCountableSms pci.family g.gpc_count g.tpc_per_gpc)
      × ((init_device_checked pci d h ≡ panicked)
          ↔ ¬ HasCountableSms pci.family g.gpc_count g.tpc_per_gpc)
init_device_checked_iff pci d h =
    let exact = init_device_exact pci d h in
    (
      (λ e. init_device_done pci d h e, exact),
      (
        λ stop fits. absurd (panicked_not (sym stop ∙ exact fits)),
        λ wraps. elim (Run-cases (init_device_checked pci d h)) [
          | inl (r, e) ↦ absurd (wraps (init_device_done pci d h e))
          | inr stop ↦ stop
        ],
      ),
    )
