-- ===== src/Driver/Session.antt =====
-- What a client does with a `GpuDevice` (src/driver.rs) that is set up: the calls of src/tensor.rs,
-- src/compute.rs, src/fifo.rs and src/memory.rs on its allocator, engines and channel.
pub mod Allocations
pub mod Demand
pub mod Laws
pub mod Safety
pub mod Opened
pub mod Pages
pub mod Aperture
pub mod Checked
use Prim.Native.String.{String}
use gpu_compute_nostd.Base.{
  ℕ, ◌+◌, ◌-◌, ◌*◌, ◌^◌, ◌<◌, ◌≡◌, Bool, Option, none, some, List, [], ◌∷◌, ◌++◌, length, u64, ltb,
  if◌then◌else◌,
}
use gpu_compute_nostd.Hardware.{◌>>=◌, Io, pure, Device, History}
use gpu_compute_nostd.Mmio.{GpuRegs}
use gpu_compute_nostd.Memory.{GpuAllocation, VramAllocator, allocate, map_system_memory}
use gpu_compute_nostd.Memory.Sequence.{kept}
use gpu_compute_nostd.Fifo.Channel.{Channel, allocate_channel, submit, reset_push_buffer}
use gpu_compute_nostd.Fifo.Runlist.{Runlist, new_runlist, add_channel, remove_channel, commit}
use gpu_compute_nostd.Compute.{
  ComputeEngine, ShaderProgram, GridDim, BlockDim, ConstantBufferBinding, GpuFence, fence_if,
  load_shader, dispatch,
}
use gpu_compute_nostd.Tensor.Shape.{DType, total_elements, size_bytes}
use gpu_compute_nostd.Tensor.Descriptor.{
  TensorDescriptor, TensorEngine, allocate_tensor, free_tensor,
}
use gpu_compute_nostd.Driver.{GpuDevice}

pub data Call : Type 0 where
  make_tensor : String → List ℕ → DType → Call
  drop_tensor : TensorDescriptor → Call
  load : List ℕ → ℕ → ℕ → ℕ → Call
  launch : ShaderProgram → GridDim → BlockDim → List ConstantBufferBinding → Bool → Call
  send : List ℕ → Call
  reset : Call
  map_system : ℕ → ℕ → Call
  open_channel : ℕ → ℕ → Call
  list_channel : ℕ → Call
  unlist_channel : ℕ → Call
  commit_runlist : Call

-- The state that the calls change, with the blocks handed out for tensors, shaders, fences, further
-- channels and runlists, the newest first, and the parts of the push buffer taken since the last reset, the oldest first.
pub record Session : Type 0 where
  pub vram : VramAllocator
  pub compute : ComputeEngine
  pub tensors : TensorEngine
  pub channel : Channel
  pub runlist : Runlist
  pub blocks : List GpuAllocation
  pub segments : List (ℕ × ℕ)

abbrev pub tensor_block : Option TensorDescriptor → Option GpuAllocation
tensor_block none = none
tensor_block (some t) = some t.allocation

abbrev pub shader_block : Option ShaderProgram → Option GpuAllocation
shader_block none = none
shader_block (some p) = some p.allocation

abbrev pub fence_block : Option GpuFence → Option GpuAllocation
fence_block none = none
fence_block (some f) = some f.allocation

abbrev pub channel_blocks : Option Channel → List GpuAllocation → List GpuAllocation
channel_blocks none blocks = blocks
channel_blocks (some ch) blocks = ch.push_buffer ∷ ch.gpfifo ∷ blocks

-- the block of a commit: what the runlist has afterwards, unless the commit did nothing
abbrev pub runlist_block : Runlist → VramAllocator → Option GpuAllocation
runlist_block r v =
    let n = u64 (length r.channels * 8) in if ltb 0 n then (allocate v n).0 else none

-- the part of the push buffer between two states of a channel, empty for a submission refused
abbrev pub taken : Channel → Channel → ℕ × ℕ
taken ch ch' = (ch.push_buffer.gpu_va + ch.push_offset, ch'.push_offset - ch.push_offset)

abbrev pub with_channel : Session → Channel → Session
with_channel s ch = record s { channel = ch; segments = s.segments ++ (taken s.channel ch ∷ []) }

unfoldable pub perform : GpuRegs → Call → Session → Io Session
perform regs (make_tensor name shape dtype) s =
    let r = allocate_tensor s.tensors s.vram name shape dtype in
    pure (record s {
      vram = r.allocator;
      tensors = r.engine;
      blocks = kept (tensor_block r.result) s.blocks;
    })
perform regs (drop_tensor t) s =
    let (e, v) = free_tensor s.tensors s.vram t in pure (record s { tensors = e; vram = v })
perform regs (load binary entry shared registers) s =
    let (p, v) = load_shader s.vram binary entry shared registers in
    pure (record s { vram = v; blocks = kept (shader_block p) s.blocks })
perform regs (launch shader grid block cbs waits) s = do
  r ← dispatch s.compute regs s.channel shader grid block cbs s.vram waits
  let fence = (fence_if s.compute s.vram waits).0
  pure (
      with_channel
        (record s {
          vram = r.allocator;
          compute = r.engine;
          blocks = kept (fence_block fence) s.blocks;
        })
        r.channel)
perform regs (send commands) s = do t ← submit s.channel regs commands; pure (with_channel s t.1)
perform regs reset s = pure (record s { channel = reset_push_buffer s.channel; segments = [] })
perform regs (map_system p n) s = pure (record s { vram = (map_system_memory s.vram p n).1 })
perform regs (open_channel id engine) s =
    let (ch, v) = allocate_channel s.vram id engine in
    pure (record s { vram = v; blocks = channel_blocks ch s.blocks })
perform regs (list_channel id) s = pure (record s { runlist = add_channel s.runlist id })
perform regs (unlist_channel id) s = pure (record s { runlist = remove_channel s.runlist id })
perform regs commit_runlist s =
    let (r, v) = commit s.runlist s.vram in
    pure
      (record s { vram = v; runlist = r; blocks = kept (runlist_block s.runlist s.vram) s.blocks })

-- the bytes that a call asks the allocator for at most, or of GPU addresses
abbrev pub demand : Session → Call → ℕ
demand s (make_tensor name shape dtype) = size_bytes dtype (total_elements shape)
demand s (drop_tensor t) = 0
demand s (load binary entry shared registers) = length binary
demand s (launch shader grid block cbs waits) = 64
demand s (send commands) = 0
demand s reset = 0
demand s (map_system p n) = n
demand s (open_channel id engine) = 2 ^ 19
demand s (list_channel id) = 0
demand s (unlist_channel id) = 0
demand s commit_runlist = length s.runlist.channels * 8

-- A submission has fewer than 2 GiB, and a channel's number is one of the doorbells'.
abbrev pub IsShort : Call → Type 0
IsShort (launch shader grid block cbs waits) = length cbs < 2 ^ 24
IsShort (send commands) = length commands < 2 ^ 29
IsShort (open_channel id engine) = id < 2 ^ 16
IsShort c = Unit

-- The states that calls lead to, while GPU addresses last and submissions are short.
pub data Reach (regs : GpuRegs) (d : Device) (start : Session) (h : History)
    : Session → History → Type 0 where
  here : Reach regs d start h start h
  step :
      (c : Call) {s s' : Session} {h1 h2 : History}
      → Reach regs d start h s h1
      → s.vram.next_gpu_va + demand s c + 0xFFF < 2 ^ 64
      → IsShort c
      → perform regs c s d h1 ≡ (s', h2)
      → Reach regs d start h s' h2

-- the session that starts on a device with this channel
abbrev pub opened : GpuDevice → Channel → Session
opened g ch = record {
  vram = g.vram;
  compute = g.compute;
  tensors = g.tensors;
  channel = ch;
  runlist = new_runlist 0;
  blocks = [];
  segments = [];
}
