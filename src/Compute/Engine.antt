-- ===== src/Compute/Engine.antt =====
-- The data and operations of src/compute.rs.
use gpu_compute_nostd.Base.{
  ℕ, zero, suc, ◌+◌, ◌*◌, Bool, true, false, Option, none, some, List, [], ◌∷◌, ◌++◌, length,
  bit_and, bit_or, u32, ◌<<◌, ◌>>>◌,
}
use gpu_compute_nostd.Hardware.{Io, pure, ◌>>=◌}
use gpu_compute_nostd.Mmio.{GpuRegs}
use gpu_compute_nostd.Memory.{GpuAllocation, VramAllocator, allocate, map_to_cpu}
use gpu_compute_nostd.Pci.Family.{
  GpuFamily, kepler, maxwell, pascal, volta, turing, ampere, ada, unknown,
}
use gpu_compute_nostd.Fifo.Method.{gpu_method_1}
use gpu_compute_nostd.Fifo.Channel.{Channel, submit}
use gpu_compute_nostd.Compute.Methods.{
  kepler_compute_a, maxwell_compute_a, pascal_compute_a, volta_compute_a, turing_compute_a,
  ampere_compute_a, ada_compute_a, nvc6c0_set_program_region_a, nvc6c0_set_program_region_b,
  nvc6c0_set_shader_program, nvc6c0_set_shared_memory_size, nvc6c0_cb_selector,
  nvc6c0_set_constant_buffer_bind, nvc6c0_set_block_dim_x, nvc6c0_set_block_dim_y,
  nvc6c0_set_block_dim_z, nvc6c0_launch_dim_x, nvc6c0_launch_dim_y, nvc6c0_launch_dim_z,
  nvc6c0_launch, nvc6c0_set_report_semaphore_a, nvc6c0_set_report_semaphore_b,
  nvc6c0_set_report_semaphore_c, nvc6c0_set_report_semaphore_d,
}

unfoldable pub compute_class_for_family : GpuFamily → ℕ
compute_class_for_family kepler = kepler_compute_a
compute_class_for_family maxwell = maxwell_compute_a
compute_class_for_family pascal = pascal_compute_a
compute_class_for_family volta = volta_compute_a
compute_class_for_family turing = turing_compute_a
compute_class_for_family ampere = ampere_compute_a
compute_class_for_family ada = ada_compute_a
compute_class_for_family unknown = ampere_compute_a

pub record ShaderProgram : Type 0 where
  pub allocation : GpuAllocation
  pub size : ℕ
  pub entry_offset : ℕ
  pub shared_mem_size : ℕ
  pub num_registers : ℕ
  pub num_const_buffers : ℕ

pub record GridDim : Type 0 where
  pub x : ℕ
  pub y : ℕ
  pub z : ℕ

pub record BlockDim : Type 0 where
  pub x : ℕ
  pub y : ℕ
  pub z : ℕ

-- `BlockDim::total_threads`
unfoldable pub total_threads : BlockDim → ℕ
total_threads b = u32 (u32 (b.x * b.y) * b.z)

pub record ConstantBufferBinding : Type 0 where
  pub slot : ℕ
  pub gpu_va : ℕ
  pub size : ℕ

pub record GpuFence : Type 0 where
  pub allocation : GpuAllocation
  pub signal_value : ℕ

-- `GpuFence::new`
unfoldable pub new_fence : VramAllocator → ℕ → Option GpuFence × VramAllocator
new_fence allocator signal_value =
    let (r, allocator') = allocate allocator 64 in
    elim r [
      | none ↦ (none, allocator')
      | some a ↦ (some (record { allocation = a; signal_value = signal_value }), allocator')
    ]

-- The code reads no semaphore yet.
unfoldable pub is_signaled : GpuFence → Bool
is_signaled fence = false

unfoldable pub wait : GpuFence → ℕ → Bool
wait fence zero = false
wait fence (suc iters) = elim (is_signaled fence) [ true ↦ true | false ↦ wait fence iters ]

pub record ComputeEngine : Type 0 where
  pub class_id : ℕ
  pub family : GpuFamily
  pub subchannel : ℕ
  pub next_fence_value : ℕ

-- `ComputeEngine::new`
unfoldable pub new_engine : GpuFamily → ComputeEngine
unfolding compute_class_for_family
new_engine family = record {
  class_id = compute_class_for_family family;
  family = family;
  subchannel = 0;
  next_fence_value = 1;
}

unfoldable pub bind_to_channel : ComputeEngine → Channel → GpuRegs → Io Channel
bind_to_channel e channel regs = do
  t ← submit channel regs (gpu_method_1 e.subchannel 0x0000 ∷ e.class_id ∷ [])
  pure t.1

unfoldable pub load_shader :
    VramAllocator → List ℕ → ℕ → ℕ → ℕ → Option ShaderProgram × VramAllocator
load_shader allocator binary entry_offset shared_mem_size num_registers =
    let size = length binary in
    let (r, allocator') = allocate allocator size in
    elim r [
      | none ↦ (none, allocator')
      | some a ↦ (
        some (record {
          allocation = (map_to_cpu allocator' a).1;
          size = size;
          entry_offset = entry_offset;
          shared_mem_size = shared_mem_size;
          num_registers = num_registers;
          num_const_buffers = 0;
        }),
        allocator',
      )
    ]

-- the commands of the loop over the constant buffers
unfoldable pub const_buffer_commands : ℕ → List ConstantBufferBinding → List ℕ
const_buffer_commands sc [] = []
const_buffer_commands sc (cb ∷ cbs) =
    gpu_method_1 sc nvc6c0_cb_selector
    ∷ cb.slot
    ∷ gpu_method_1 sc nvc6c0_set_constant_buffer_bind
    ∷ bit_or 1 (u32 (bit_and cb.size 0x1FFFF << 4))
    ∷ const_buffer_commands sc cbs

-- the commands of the optional fence
unfoldable pub fence_commands : ℕ → Option GpuFence → List ℕ
fence_commands sc none = []
fence_commands sc (some fence) =
    gpu_method_1 sc nvc6c0_set_report_semaphore_a
    ∷ u32 (fence.allocation.gpu_va >>> 32)
    ∷ gpu_method_1 sc nvc6c0_set_report_semaphore_b
    ∷ u32 fence.allocation.gpu_va
    ∷ gpu_method_1 sc nvc6c0_set_report_semaphore_c
    ∷ fence.signal_value
    ∷ gpu_method_1 sc nvc6c0_set_report_semaphore_d
    ∷ 0x10004
    ∷ []

unfoldable pub build_dispatch_commands :
    ComputeEngine
    → ShaderProgram
    → GridDim
    → BlockDim
    → List ConstantBufferBinding
    → Option GpuFence
    → List ℕ
unfolding const_buffer_commands fence_commands
build_dispatch_commands e shader grid block const_buffers fence =
    let sc = e.subchannel in
    (gpu_method_1 sc nvc6c0_set_program_region_a
      ∷ u32 (shader.allocation.gpu_va >>> 32)
      ∷ gpu_method_1 sc nvc6c0_set_program_region_b
      ∷ u32 shader.allocation.gpu_va
      ∷ gpu_method_1 sc nvc6c0_set_shader_program
      ∷ shader.entry_offset
      ∷ gpu_method_1 sc nvc6c0_set_shared_memory_size
      ∷ shader.shared_mem_size
      ∷ [])
    ++ (const_buffer_commands sc const_buffers
        ++ ((gpu_method_1 sc nvc6c0_set_block_dim_x
              ∷ block.x
              ∷ gpu_method_1 sc nvc6c0_set_block_dim_y
              ∷ block.y
              ∷ gpu_method_1 sc nvc6c0_set_block_dim_z
              ∷ block.z
              ∷ gpu_method_1 sc nvc6c0_launch_dim_x
              ∷ grid.x
              ∷ gpu_method_1 sc nvc6c0_launch_dim_y
              ∷ grid.y
              ∷ gpu_method_1 sc nvc6c0_launch_dim_z
              ∷ grid.z
              ∷ gpu_method_1 sc nvc6c0_launch
              ∷ 0
              ∷ [])
            ++ fence_commands sc fence))

-- what `dispatch` changes: the engine's counter, the channel and the allocator
pub record Dispatched : Type 0 where
  pub result : Bool
  pub engine : ComputeEngine
  pub channel : Channel
  pub allocator : VramAllocator

abbrev pub fence_iters : ℕ
fence_iters = 10_000_000

-- the fence of a dispatch, with the engine and the allocator after it
unfoldable pub fence_if :
    ComputeEngine → VramAllocator → Bool → Option GpuFence × ComputeEngine × VramAllocator
fence_if e allocator true =
    let val = e.next_fence_value in
    let (fence, allocator') = new_fence allocator val in
    (fence, record e { next_fence_value = u32 (val + 1) }, allocator')
fence_if e allocator false = (none, e, allocator)

-- the answer of a dispatch whose commands were submitted
unfoldable pub finish_wait : Bool → Option GpuFence → Bool
finish_wait true (some fence) = wait fence fence_iters
finish_wait true none = true
finish_wait false fence = true

unfoldable pub dispatch :
    ComputeEngine
    → GpuRegs
    → Channel
    → ShaderProgram
    → GridDim
    → BlockDim
    → List ConstantBufferBinding
    → VramAllocator
    → Bool
    → Io Dispatched
unfolding fence_if
dispatch e regs channel shader grid block const_buffers allocator waits =
    let (fence, e', allocator') = fence_if e allocator waits in
    (do
      t ← submit channel regs (build_dispatch_commands e' shader grid block const_buffers fence)
      pure (record {
        result = elim t.0 [ some va ↦ finish_wait waits fence | none ↦ false ];
        engine = e';
        channel = t.1;
        allocator = allocator';
      }))
