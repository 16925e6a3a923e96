-- ===== src/Driver/Session/Checked/Equivalence.antt =====
-- One call of a session on a `GpuDevice` (src/driver.rs), with and without overflow checks.
use gpu_compute_nostd.Base.{◌^◌, ◌<◌, refl, Bool}
use gpu_compute_nostd.Base.Checked.{Agrees, Agrees->>=}
use gpu_compute_nostd.Hardware.{Device, History}
use gpu_compute_nostd.Mmio.{GpuRegs}
use gpu_compute_nostd.Memory.Checked.{map_system_memory_checked}
use gpu_compute_nostd.Memory.Checked.Laws.{map_system_memory-Agrees}
use gpu_compute_nostd.Fifo.Checked.{allocate_channel_checked, submit_checked, commit_checked}
use gpu_compute_nostd.Fifo.Checked.Laws.{submit-Agrees, allocate_channel-Agrees, commit-Agrees}
use gpu_compute_nostd.Compute.Checked.{load_shader_checked, dispatch_checked}
use gpu_compute_nostd.Compute.Checked.Laws.{load_shader-Agrees, dispatch-Agrees}
use gpu_compute_nostd.Tensor.Descriptor.{TensorEngine}
use gpu_compute_nostd.Tensor.Checked.{allocate_tensor_checked, free_tensor_checked}
use gpu_compute_nostd.Tensor.Checked.Laws.{allocate_tensor-Agrees, free_tensor-Agrees}
use gpu_compute_nostd.Driver.Session.{
  Call, Session, make_tensor, drop_tensor, load, launch, send, reset, map_system, open_channel,
  list_channel, unlist_channel, commit_runlist, perform,
}
use gpu_compute_nostd.Driver.Session.Checked.{perform_checked}

-- the engine's counters are words of 64 and 32 bits
abbrev pub HasWords : TensorEngine → Type 0
HasWords e = (e.total_allocated < 2 ^ 64) × (e.tensor_count < 2 ^ 32)

-- In any state whose tensor counters are words of 64 and 32 bits, whatever the call, it panics with
-- overflow checks, or does what it does without: the same state, and the same accesses to the device.
pub perform-Agrees :
    (info : Bool) (regs : GpuRegs) (c : Call) (s : Session) (d : Device) (h : History)
    → HasWords s.tensors
    → Agrees (perform_checked info regs c s d h) (perform regs c s d h)
unfolding perform_checked perform
perform-Agrees info regs (make_tensor name shape dtype) s d h words =
    Agrees->>= (allocate_tensor_checked s.tensors s.vram name shape dtype) _ _ _
      (allocate_tensor-Agrees s.tensors s.vram name shape dtype) refl
perform-Agrees info regs (drop_tensor t) s d h words =
    Agrees->>= (free_tensor_checked s.tensors s.vram t) _ _ _
      (free_tensor-Agrees s.tensors s.vram t words.0 words.1) refl
perform-Agrees info regs (load binary entry shared registers) s d h words =
    Agrees->>= (load_shader_checked s.vram binary entry shared registers) _ _ _
      (load_shader-Agrees s.vram binary entry shared registers) refl
perform-Agrees info regs (launch shader grid block cbs waits) s d h words =
    Agrees->>=
      (dispatch_checked info s.compute regs s.channel shader grid block cbs s.vram waits d h) _ _ _
      (dispatch-Agrees info s.compute regs s.channel shader grid block cbs s.vram waits d h) refl
perform-Agrees info regs (send commands) s d h words =
    Agrees->>= (submit_checked s.channel regs commands d h) _ _ _
      (submit-Agrees s.channel regs commands d h) refl
perform-Agrees info regs reset s d h words = refl
perform-Agrees info regs (map_system p n) s d h words =
    Agrees->>= (map_system_memory_checked s.vram p n) _ _ _ (map_system_memory-Agrees s.vram p n)
      refl
perform-Agrees info regs (open_channel id engine) s d h words =
    Agrees->>= (allocate_channel_checked s.vram id engine) _ _ _
      (allocate_channel-Agrees s.vram id engine) refl
perform-Agrees info regs (list_channel id) s d h words = refl
perform-Agrees info regs (unlist_channel id) s d h words = refl
perform-Agrees info regs commit_runlist s d h words =
    Agrees->>= (commit_checked s.runlist s.vram) _ _ _ (commit-Agrees s.runlist s.vram) refl
