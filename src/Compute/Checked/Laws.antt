-- ===== src/Compute/Checked/Laws.antt =====
-- When the operations of src/compute.rs panic in a build with overflow checks, and what they do when
-- they do not.
use gpu_compute_nostd.Base.{
  ℕ, ◌+◌, ◌≡◌, refl, Bool, true, false, Option, none, some, List, [], ◌∷◌, arith, length,
  Option-cases,
}
use gpu_compute_nostd.Base.Checked.{exact32, Agrees, Agrees->>=, Agrees-exact32, Agrees-Unit}
use gpu_compute_nostd.Hardware.{Device, History}
use gpu_compute_nostd.Mmio.{GpuRegs}
use gpu_compute_nostd.Memory.{GpuAllocation, VramAllocator, allocate, map_to_cpu}
use gpu_compute_nostd.Memory.Checked.{allocate_checked, map_to_cpu_checked}
use gpu_compute_nostd.Memory.Checked.Laws.{allocate-Agrees, map_to_cpu-Agrees}
use gpu_compute_nostd.Fifo.Method.{gpu_method_1}
use gpu_compute_nostd.Fifo.Channel.{Channel}
use gpu_compute_nostd.Fifo.Checked.{submit_checked}
use gpu_compute_nostd.Fifo.Checked.Laws.{submit-Agrees}
use gpu_compute_nostd.Compute.{
  ShaderProgram, GridDim, BlockDim, ConstantBufferBinding, ComputeEngine, new_fence,
  bind_to_channel, load_shader, build_dispatch_commands, fence_if, dispatch,
}
use gpu_compute_nostd.Compute.Checked.{
  new_fence_checked, bind_to_channel_checked, map_shader, load_shader_checked, log_launch,
  build_checked, fence_if_checked, dispatch_checked,
}

new_fence-Agrees :
    (v : VramAllocator) (value : ℕ) → Agrees (new_fence_checked v value) (new_fence v value)
unfolding new_fence_checked new_fence
new_fence-Agrees v value =
    Agrees->>= (allocate_checked v 64) _ _ _ (allocate-Agrees v 64)
      (ground (arith, Option-cases (allocate v 64).0))

pub fence_if-Agrees :
    (e : ComputeEngine) (v : VramAllocator) (waits : Bool)
    → Agrees (fence_if_checked e v waits) (fence_if e v waits)
unfolding fence_if_checked fence_if
fence_if-Agrees e v true =
    let next : ℕ = e.next_fence_value + 1 in
    Agrees->>= (exact32 next) _ _ _ (Agrees-exact32 next) (
      Agrees->>= (new_fence_checked v e.next_fence_value) _ _ _
        (new_fence-Agrees v e.next_fence_value) refl)
fence_if-Agrees e v false = refl

pub bind_to_channel-Agrees :
    (e : ComputeEngine) (ch : Channel) (regs : GpuRegs) (d : Device) (h : History)
    → Agrees (bind_to_channel_checked e ch regs d h) (bind_to_channel e ch regs d h)
unfolding bind_to_channel_checked bind_to_channel
bind_to_channel-Agrees e ch regs d h =
    let commands : List ℕ = gpu_method_1 e.subchannel 0x0000 ∷ e.class_id ∷ [] in
    Agrees->>= (submit_checked ch regs commands d h) _ _ _ (submit-Agrees ch regs commands d h) refl

abbrev pub mapped_if :
    List ℕ → ℕ → ℕ → ℕ → Option GpuAllocation → VramAllocator → Option ShaderProgram × VramAllocator
mapped_if binary entry shared registers none v = (none, v)
mapped_if binary entry shared registers (some a) v = (
  some (record {
    allocation = (map_to_cpu v a).1;
    size = length binary;
    entry_offset = entry;
    shared_mem_size = shared;
    num_registers = registers;
    num_const_buffers = 0;
  }),
  v,
)

pub load_shader_lem :
    (v : VramAllocator) (binary : List ℕ) (entry shared registers : ℕ)
    → let r = allocate v (length binary) in
      load_shader v binary entry shared registers ≡ mapped_if binary entry shared registers r.0 r.1
unfolding load_shader
load_shader_lem v binary entry shared registers =
    ground (arith, Option-cases (allocate v (length binary)).0)

map_shader-Agrees :
    (binary : List ℕ) (entry shared registers : ℕ) (r : Option GpuAllocation) (v : VramAllocator)
    → Agrees
        (map_shader binary entry shared registers r v)
        (mapped_if binary entry shared registers r v)
unfolding map_shader
map_shader-Agrees binary entry shared registers none v = refl
map_shader-Agrees binary entry shared registers (some a) v =
    Agrees->>= (map_to_cpu_checked v a) _ _ _ (map_to_cpu-Agrees v a) refl

pub load_shader-Agrees :
    (v : VramAllocator) (binary : List ℕ) (entry shared registers : ℕ)
    → Agrees
        (load_shader_checked v binary entry shared registers)
        (load_shader v binary entry shared registers)
unfolding load_shader_checked
load_shader-Agrees v binary entry shared registers =
    let n : ℕ = length binary in
    let r = allocate v n in
    rw (load_shader_lem v binary entry shared registers) (
      Agrees->>= (allocate_checked v n) _ _ _ (allocate-Agrees v n)
        (map_shader-Agrees binary entry shared registers r.0 r.1))

-- In any state, a dispatch with overflow checks panics, or does what it does without.
pub dispatch-Agrees :
    (info : Bool) (e : ComputeEngine) (regs : GpuRegs) (ch : Channel) (shader : ShaderProgram)
    (grid : GridDim) (block : BlockDim) (cbs : List ConstantBufferBinding) (v : VramAllocator)
    (waits : Bool) (d : Device) (h : History)
    → Agrees
        (dispatch_checked info e regs ch shader grid block cbs v waits d h)
        (dispatch e regs ch shader grid block cbs v waits d h)
unfolding dispatch_checked dispatch build_checked
dispatch-Agrees info e regs ch shader grid block cbs v waits d h =
    let f = fence_if e v waits in
    let commands : List ℕ = build_dispatch_commands f.1 shader grid block cbs f.0 in
    Agrees->>= (fence_if_checked e v waits) _ _ _ (fence_if-Agrees e v waits) (
      Agrees->>= (build_checked info f.1 shader grid block cbs f.0) commands _ _
        (Agrees->>= (log_launch info grid block) tt _ _ (Agrees-Unit (log_launch info grid block))
          refl)
        (Agrees->>= (submit_checked ch regs commands d h) _ _ _ (submit-Agrees ch regs commands d h)
          refl))
