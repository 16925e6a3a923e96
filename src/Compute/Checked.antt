-- ===== src/Compute/Checked.antt =====
-- The operations of src/compute.rs in a build with overflow checks. The arguments of `log::info!` are
-- computed if the `log` crate lets a line of that level pass, which is the parameter `info`.
pub mod Laws
pub mod Exact
use gpu_compute_nostd.Base.{
  ℕ, ◌+◌, ◌*◌, Bool, true, false, Option, none, some, List, [], ◌∷◌, length,
}
use gpu_compute_nostd.Base.Checked.{◌>>=◌, Run, done, exact32}
use gpu_compute_nostd.Hardware.{Device, History}
use gpu_compute_nostd.Mmio.{GpuRegs}
use gpu_compute_nostd.Memory.{GpuAllocation, VramAllocator}
use gpu_compute_nostd.Memory.Checked.{allocate_checked, map_to_cpu_checked}
use gpu_compute_nostd.Fifo.Method.{gpu_method_1}
use gpu_compute_nostd.Fifo.Channel.{Channel}
use gpu_compute_nostd.Fifo.Checked.{submit_checked}
use gpu_compute_nostd.Compute.{
  ShaderProgram, GridDim, BlockDim, ConstantBufferBinding, GpuFence, ComputeEngine, Dispatched,
  build_dispatch_commands, finish_wait,
}

-- `BlockDim::total_threads`
unfoldable pub total_threads_checked : BlockDim → Run ℕ
total_threads_checked b = do plane ← exact32 (b.x * b.y); exact32 (plane * b.z)

-- `GpuFence::new`
unfoldable pub new_fence_checked : VramAllocator → ℕ → Run (Option GpuFence × VramAllocator)
new_fence_checked allocator signal_value = do
  r ← allocate_checked allocator 64
  done (
    elim r.0 [
      | none ↦ none
      | some a ↦ some (record { allocation = a; signal_value = signal_value })
    ],
    r.1,
  )

unfoldable pub bind_to_channel_checked :
    ComputeEngine → Channel → GpuRegs → Device → History → Run (Channel × History)
bind_to_channel_checked e channel regs d h = do
  r ← submit_checked channel regs (gpu_method_1 e.subchannel 0x0000 ∷ e.class_id ∷ []) d h
  done (r.0.1, r.1)

-- `load_shader` behind its `?`; the address that the mapping returns is not used.
unfoldable pub map_shader :
    List ℕ
    → ℕ
    → ℕ
    → ℕ
    → Option GpuAllocation
    → VramAllocator
    → Run (Option ShaderProgram × VramAllocator)
map_shader binary entry_offset shared_mem_size num_registers none allocator = done (none, allocator)
map_shader binary entry_offset shared_mem_size num_registers (some a) allocator = do
  m ← map_to_cpu_checked allocator a
  done (
    some (record {
      allocation = m.1;
      size = length binary;
      entry_offset = entry_offset;
      shared_mem_size = shared_mem_size;
      num_registers = num_registers;
      num_const_buffers = 0;
    }),
    allocator,
  )

unfoldable pub load_shader_checked :
    VramAllocator → List ℕ → ℕ → ℕ → ℕ → Run (Option ShaderProgram × VramAllocator)
unfolding map_shader
load_shader_checked allocator binary entry_offset shared_mem_size num_registers = do
  r ← allocate_checked allocator (length binary)
  map_shader binary entry_offset shared_mem_size num_registers r.0 r.1

-- the line that `build_dispatch_commands` logs: the numbers of blocks and of threads in it
unfoldable pub log_launch : Bool → GridDim → BlockDim → Run (Unit {0})
unfolding total_threads_checked
log_launch false grid block = done tt
log_launch true grid block = do
  plane ← exact32 (grid.x * grid.y)
  blocks ← exact32 (plane * grid.z)
  threads ← total_threads_checked block
  done tt

unfoldable pub build_checked :
    Bool
    → ComputeEngine
    → ShaderProgram
    → GridDim
    → BlockDim
    → List ConstantBufferBinding
    → Option GpuFence
    → Run (List ℕ)
unfolding log_launch
build_checked info e shader grid block const_buffers fence = do
  line ← log_launch info grid block
  done (build_dispatch_commands e shader grid block const_buffers fence)

-- the fence of a dispatch, with the engine and the allocator after it
unfoldable pub fence_if_checked :
    ComputeEngine → VramAllocator → Bool → Run (Option GpuFence × ComputeEngine × VramAllocator)
unfolding new_fence_checked
fence_if_checked e allocator true = do
  next ← exact32 (e.next_fence_value + 1)
  r ← new_fence_checked allocator e.next_fence_value
  done (r.0, record e { next_fence_value = next }, r.1)
fence_if_checked e allocator false = done (none, e, allocator)

unfoldable pub dispatch_checked :
    Bool
    → ComputeEngine
    → GpuRegs
    → Channel
    → ShaderProgram
    → GridDim
    → BlockDim
    → List ConstantBufferBinding
    → VramAllocator
    → Bool
    → Device
    → History
    → Run (Dispatched × History)
unfolding fence_if_checked build_checked
dispatch_checked info e regs channel shader grid block const_buffers allocator waits d h = do
  f ← fence_if_checked e allocator waits
  commands ← build_checked info f.1 shader grid block const_buffers f.0
  t ← submit_checked channel regs commands d h
  done (
    record {
      result = elim t.0.0 [ some va ↦ finish_wait waits f.0 | none ↦ false ];
      engine = f.1;
      channel = t.0.1;
      allocator = f.2;
    },
    t.1,
  )
