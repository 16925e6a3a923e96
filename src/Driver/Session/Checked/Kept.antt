-- ===== src/Driver/Session/Checked/Kept.antt =====
-- What holds in every state of a session on a `GpuDevice` (src/driver.rs) besides its memory: the
-- counters of the tensor engine are words, BAR1 fits the CPU's addresses, the runlist keeps its number.
use gpu_compute_nostd.Base.{
  length, ap, sym, ◌∙◌, ◌*◌, u64, Option-cases, ℕ, ◌+◌, ◌^◌, ◌<◌, ◌≡◌, refl, subst, inl, inr, List,
  arith,
}
use gpu_compute_nostd.Hardware.{Device, History}
use gpu_compute_nostd.Mmio.{GpuRegs}
use gpu_compute_nostd.Pci.Scan.{GpuPciDevice}
use Prim.Native.String.{String}
use gpu_compute_nostd.Fifo.Runlist.{Runlist, new_runlist, add_channel, remove_channel, commit}
use gpu_compute_nostd.Memory.{allocate, VramAllocator, map_system_memory}
use gpu_compute_nostd.Memory.Bar1.{FitsBar1}
use gpu_compute_nostd.Memory.Invariant.{IsInvariant}
use gpu_compute_nostd.Memory.Detect.{init_from}
use gpu_compute_nostd.Fifo.Channel.{Channel}
use gpu_compute_nostd.Compute.Checked.Exact.{allocate-FitsBar1}
use gpu_compute_nostd.Tensor.Shape.{DType}
use gpu_compute_nostd.Tensor.Descriptor.{TensorEngine, allocate_tensor, free_tensor, new_tensors}
use gpu_compute_nostd.Tensor.Allocation.{allocate_tensor_cases}
use gpu_compute_nostd.Driver.{GpuDevice, init_device}
use gpu_compute_nostd.Driver.Session.{
  Call, Session, make_tensor, drop_tensor, load, launch, send, reset, map_system, open_channel,
  list_channel, unlist_channel, commit_runlist, perform, Reach, here, step, opened,
}
use gpu_compute_nostd.Driver.Session.Checked.Equivalence.{HasWords}

pub FitsBar1-IsInvariant : IsInvariant (λ v blocks. FitsBar1 v)
unfolding map_system_memory
FitsBar1-IsInvariant = record {
  allocated = λ v blocks n fits room. allocate-FitsBar1 v n fits;
  mapped = λ v a blocks fits. fits;
  dropped = λ v a blocks fits. fits;
  system_mapped = λ v blocks p n fits room. fits;
}

allocate_tensor-HasWords :
    (e : TensorEngine) (v : VramAllocator) (name : String) (shape : List ℕ) (dtype : DType)
    → HasWords e
    → HasWords (allocate_tensor e v name shape dtype).engine
allocate_tensor-HasWords e v name shape dtype words =
    elim (allocate_tensor_cases e v name shape dtype) [
      | inl (fails, made) ↦ rw made words
      | inr (a, v', fits, made) ↦ rw made (omega arith, omega arith)
    ]

-- The counters of the tensor engine stay words.
pub perform-HasWords :
    (regs : GpuRegs) (c : Call) (s : Session) (d : Device) (h : History)
    → HasWords s.tensors
    → HasWords (perform regs c s d h).0.tensors
unfolding perform free_tensor
perform-HasWords regs (make_tensor name shape dtype) s d h words =
    allocate_tensor-HasWords s.tensors s.vram name shape dtype words
perform-HasWords regs (drop_tensor t) s d h words = (omega arith, omega arith)
perform-HasWords regs (load binary entry shared registers) s d h words = words
perform-HasWords regs (launch shader grid block cbs waits) s d h words = words
perform-HasWords regs (send commands) s d h words = words
perform-HasWords regs reset s d h words = words
perform-HasWords regs (map_system p n) s d h words = words
perform-HasWords regs (open_channel id engine) s d h words = words
perform-HasWords regs (list_channel id) s d h words = words
perform-HasWords regs (unlist_channel id) s d h words = words
perform-HasWords regs commit_runlist s d h words = words

-- A commit leaves a runlist its number.
commit_id : (r : Runlist) (v : VramAllocator) → (commit r v).0.id ≡ r.id
unfolding commit
commit_id r v = ground (arith, Option-cases (allocate v (u64 (length r.channels * 8))).0)

perform_id :
    (regs : GpuRegs) (c : Call) (s : Session) (d : Device) (h : History)
    → (perform regs c s d h).0.runlist.id ≡ s.runlist.id
unfolding perform add_channel remove_channel
perform_id regs (make_tensor name shape dtype) s d h = refl
perform_id regs (drop_tensor t) s d h = refl
perform_id regs (load binary entry shared registers) s d h = refl
perform_id regs (launch shader grid block cbs waits) s d h = refl
perform_id regs (send commands) s d h = refl
perform_id regs reset s d h = refl
perform_id regs (map_system p n) s d h = refl
perform_id regs (open_channel id engine) s d h = refl
perform_id regs (list_channel id) s d h = refl
perform_id regs (unlist_channel id) s d h = refl
perform_id regs commit_runlist s d h = commit_id s.runlist s.vram

Reach_id :
    {regs : GpuRegs} {d : Device} {start : Session} {h : History} {s : Session} {h' : History}
    → Reach regs d start h s h'
    → s.runlist.id ≡ start.runlist.id
Reach_id here = refl
Reach_id {regs} {d} (step c {s} {s'} {h1} {h2} r room short e) =
    ap (λ t. t.0.runlist.id) (sym e) ∙ perform_id regs c s d h1 ∙ Reach_id r

pub Reach-HasWords :
    {regs : GpuRegs} {d : Device} {start : Session} {h : History} {s : Session} {h' : History}
    → HasWords start.tensors
    → Reach regs d start h s h'
    → HasWords s.tensors
Reach-HasWords words here = words
Reach-HasWords {regs} {d} words (step c {s} {s'} {h1} {h2} r room short e) =
    subst (λ t. HasWords t.0.tensors) e (perform-HasWords regs c s d h1 (Reach-HasWords words r))

pub opened-HasWords :
    (pci : GpuPciDevice) (d : Device) (h : History) → HasWords (init_device pci d h).0.tensors
unfolding init_device new_tensors
opened-HasWords pci d h = (omega arith, omega arith)

pub init-FitsBar1 :
    (base size cfg0 size_reg nparts : ℕ)
    → base + size < 2 ^ 64
    → FitsBar1 (init_from cfg0 size_reg nparts base size)
unfolding init_from
init-FitsBar1 base size cfg0 size_reg nparts fits = fits

-- The runlist of a session that starts on a device is numbered 0.
pub numbered :
    (g : GpuDevice) {ch : Channel} {d : Device} {h : History} {s : Session} {h' : History}
    → Reach g.regs d (opened g ch) h s h'
    → s.runlist.id < 2 ^ 27
unfolding new_runlist
numbered g r = omega (arith, Reach_id r)
