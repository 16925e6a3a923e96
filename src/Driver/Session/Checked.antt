-- ===== src/Driver/Session/Checked.antt =====
-- The calls of a session on a `GpuDevice` (src/driver.rs) in a build with overflow checks.
pub mod Equivalence
pub mod Kept
pub mod Exact
pub mod Allocations
pub mod Safety
use gpu_compute_nostd.Base.{◌+◌, ◌^◌, ◌≤◌, ◌<◌, Bool, [], product}
use gpu_compute_nostd.Base.Checked.{◌>>=◌, Run, done}
use gpu_compute_nostd.Hardware.{Device, History}
use gpu_compute_nostd.Mmio.{GpuRegs}
use gpu_compute_nostd.Memory.Sequence.{kept}
use gpu_compute_nostd.Memory.Checked.{map_system_memory_checked}
use gpu_compute_nostd.Fifo.Channel.{reset_push_buffer}
use gpu_compute_nostd.Fifo.Runlist.{add_channel, remove_channel}
use gpu_compute_nostd.Fifo.Checked.{allocate_channel_checked, submit_checked, commit_checked}
use gpu_compute_nostd.Compute.{fence_if}
use gpu_compute_nostd.Compute.Checked.{load_shader_checked, dispatch_checked}
use gpu_compute_nostd.Compute.Checked.Exact.{IsLoggable}
use gpu_compute_nostd.Tensor.Shape.{total_elements, size_bytes}
use gpu_compute_nostd.Tensor.Checked.{allocate_tensor_checked, free_tensor_checked}
use gpu_compute_nostd.Tensor.Checked.Exact.{HasCounters}
use gpu_compute_nostd.Driver.Session.{
  Call, Session, make_tensor, drop_tensor, load, launch, send, reset, map_system, open_channel,
  list_channel, unlist_channel, commit_runlist, tensor_block, shader_block, fence_block,
  channel_blocks, runlist_block, with_channel,
}

unfoldable pub perform_checked :
    Bool → GpuRegs → Call → Session → Device → History → Run (Session × History)
perform_checked info regs (make_tensor name shape dtype) s d h = do
  r ← allocate_tensor_checked s.tensors s.vram name shape dtype
  done (
    record s {
      vram = r.allocator;
      tensors = r.engine;
      blocks = kept (tensor_block r.result) s.blocks;
    },
    h,
  )
perform_checked info regs (drop_tensor t) s d h = do
  r ← free_tensor_checked s.tensors s.vram t
  done (record s { tensors = r.0; vram = r.1 }, h)
perform_checked info regs (load binary entry shared registers) s d h = do
  r ← load_shader_checked s.vram binary entry shared registers
  done (record s { vram = r.1; blocks = kept (shader_block r.0) s.blocks }, h)
perform_checked info regs (launch shader grid block cbs waits) s d h = do
  r ← dispatch_checked info s.compute regs s.channel shader grid block cbs s.vram waits d h
  let fence = (fence_if s.compute s.vram waits).0
  done (
    with_channel
        (record s {
          vram = r.0.allocator;
          compute = r.0.engine;
          blocks = kept (fence_block fence) s.blocks;
        })
        r.0.channel,
    r.1,
  )
perform_checked info regs (send commands) s d h = do
  r ← submit_checked s.channel regs commands d h
  done (with_channel s r.0.1, r.1)
perform_checked info regs reset s d h =
    done (record s { channel = reset_push_buffer s.channel; segments = [] }, h)
perform_checked info regs (map_system p n) s d h = do
  r ← map_system_memory_checked s.vram p n
  done (record s { vram = r.1 }, h)
perform_checked info regs (open_channel id engine) s d h = do
  r ← allocate_channel_checked s.vram id engine
  done (record s { vram = r.1; blocks = channel_blocks r.0 s.blocks }, h)
perform_checked info regs (list_channel id) s d h =
    done (record s { runlist = add_channel s.runlist id }, h)
perform_checked info regs (unlist_channel id) s d h =
    done (record s { runlist = remove_channel s.runlist id }, h)
perform_checked info regs commit_runlist s d h = do
  r ← commit_checked s.runlist s.vram
  done (
    record s { vram = r.1; runlist = r.0; blocks = kept (runlist_block s.runlist s.vram) s.blocks },
    h,
  )

-- A tensor has at least one and fewer than 2^61 elements, and the engine's counters have room for it;
-- a tensor that is dropped is counted; there is a next fence value, and what a launch logs fits 32
-- bits.
abbrev pub IsExact : Bool → Session → Call → Type 0
IsExact info s (make_tensor name shape dtype) =
    (1 ≤ product shape)
    × (product shape < 2 ^ 61)
    × HasCounters s.tensors (size_bytes dtype (total_elements shape))
IsExact info s (drop_tensor t) =
    (t.size_bytes ≤ s.tensors.total_allocated) × (1 ≤ s.tensors.tensor_count)
IsExact info s (launch shader grid block cbs waits) =
    (s.compute.next_fence_value + 1 < 2 ^ 32) × IsLoggable info grid block
IsExact info s c = Unit
