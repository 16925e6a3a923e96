-- ===== src/Compute/Checked/Exact.antt =====
-- Calls of src/compute.rs that do not panic in a build with overflow checks.
use gpu_compute_nostd.Base.{
  ℕ, ◌+◌, ◌*◌, ◌^◌, ◌<◌, ◌≡◌, ◌⊎◌, ◌↔◌, inl, inr, refl, Bool, true, false, Option, none, some, List,
  arith, length, Option-cases,
}
use gpu_compute_nostd.Base.Checked.{done, exact32, exact32_lem, >>=_after, >>=-done}
use gpu_compute_nostd.Hardware.{Device, History}
use gpu_compute_nostd.Mmio.{GpuRegs}
use gpu_compute_nostd.Memory.{GpuAllocation, VramAllocator, allocate}
use gpu_compute_nostd.Memory.Regions.{Within}
use gpu_compute_nostd.Memory.Bar1.{FitsBar1}
use gpu_compute_nostd.Memory.Laws
use gpu_compute_nostd.Compute.Room.{short_commands}
use gpu_compute_nostd.Memory.Laws.{allocate_cases}
use gpu_compute_nostd.Memory.Sequence.{kept, alloc-IsValid}
use gpu_compute_nostd.Memory.Checked.{allocate_checked, map_to_cpu_checked}
use gpu_compute_nostd.Memory.Checked.Laws.{allocate_exact, map_to_cpu_exact}
use gpu_compute_nostd.Fifo.Channel.{Channel}
use gpu_compute_nostd.Fifo.Submit.{IsValid}
use gpu_compute_nostd.Fifo.Checked.{submit_checked}
use gpu_compute_nostd.Fifo.Checked.Laws.{submit_exact}
use gpu_compute_nostd.Compute.{
  ShaderProgram, GridDim, BlockDim, ConstantBufferBinding, GpuFence, ComputeEngine, new_fence,
  load_shader, build_dispatch_commands, fence_if, dispatch,
}
use gpu_compute_nostd.Compute.Checked.{
  total_threads_checked, new_fence_checked, map_shader, load_shader_checked, log_launch,
  build_checked, fence_if_checked, dispatch_checked,
}
use gpu_compute_nostd.Compute.Checked.Laws.{mapped_if, load_shader_lem}

-- The three factors and their product, from the left, fit 32 bits.
abbrev pub IsCountable : ℕ → ℕ → ℕ → Type 0
IsCountable x y z = (x * y < 2 ^ 32) × (x * y * z < 2 ^ 32)

-- The line that a launch logs is not computed, or its numbers fit.
abbrev pub IsLoggable : Bool → GridDim → BlockDim → Type 0
IsLoggable info grid block =
    (info ≡ false) ⊎ (IsCountable grid.x grid.y grid.z × IsCountable block.x block.y block.z)

log_launch_iff :
    (info : Bool) (grid : GridDim) (block : BlockDim)
    → (log_launch info grid block ≡ done tt) ↔ IsLoggable info grid block
unfolding log_launch total_threads_checked
log_launch_iff false grid block = (λ e. inl refl, λ h. refl)
log_launch_iff true grid block = ground arith

-- With overflow checks, the commands of a dispatch are built exactly if info lines are not logged, or
-- the number of blocks of the grid and that of threads of a block fit 32 bits, with x * y on the way.
pub build_checked_iff :
    (info : Bool) (e : ComputeEngine) (shader : ShaderProgram) (grid : GridDim) (block : BlockDim)
    (cbs : List ConstantBufferBinding) (fence : Option GpuFence)
    → (build_checked info e shader grid block cbs fence
        ≡ done (build_dispatch_commands e shader grid block cbs fence))
      ↔ IsLoggable info grid block
unfolding build_checked
build_checked_iff info e shader grid block cbs fence =
    let (to, from) = log_launch_iff info grid block in
    (
      λ built. to (>>=-done (log_launch info grid block) built).1,
      λ small. >>=_after (log_launch info grid block) tt _ _ (from small) refl,
    )

-- the end of a block, if there is one, fits 64 bits
abbrev FitsEnd : Option GpuAllocation → Type 0
FitsEnd none = Unit
FitsEnd (some a) = a.phys_addr + a.size < 2 ^ 64

IsValid-FitsEnd :
    (lo hi : ℕ) (v : VramAllocator) (blocks : List GpuAllocation) (r : Option GpuAllocation)
    → Laws.IsValid lo hi v (kept r blocks)
    → FitsEnd r
IsValid-FitsEnd lo hi v blocks none valid = tt
IsValid-FitsEnd lo hi v blocks (some a) valid = omega (arith, valid.held.0.below, valid.word)

pub allocate-FitsBar1 : (v : VramAllocator) (n : ℕ) → FitsBar1 v → FitsBar1 (allocate v n).1
allocate-FitsBar1 v n fits = elim (allocate_cases v n) [
  | inl (fails, small) ↦ rw fails fits
  | inr (p, regions, fit, made) ↦ rw made fits
]

fence_if_exact :
    (lo hi : ℕ) (e : ComputeEngine) (v : VramAllocator) (waits : Bool)
    → hi < 2 ^ 64
    → Within lo hi v.free_list
    → e.next_fence_value + 1 < 2 ^ 32
    → v.next_gpu_va + 64 + 0xFFF < 2 ^ 64
    → fence_if_checked e v waits ≡ done (fence_if e v waits)
unfolding fence_if_checked fence_if new_fence_checked new_fence
fence_if_exact lo hi e v true word within count room =
    >>=_after (exact32 (e.next_fence_value + 1)) _ _ _ (exact32_lem (e.next_fence_value + 1) count)
      (>>=_after (new_fence_checked v e.next_fence_value) _ _ _
        (>>=_after (allocate_checked v 64) _ _ _ (allocate_exact lo hi v 64 word within room)
          (ground (arith, Option-cases (allocate v 64).0)))
        refl)
fence_if_exact lo hi e v false word within count room = refl

-- A dispatch by an engine whose fence counter has a next value, on a valid channel, while GPU addresses
-- last.
pub dispatch_exact :
    (lo hi : ℕ) (info : Bool) (e : ComputeEngine) (regs : GpuRegs) (ch : Channel)
    (shader : ShaderProgram) (grid : GridDim) (block : BlockDim) (cbs : List ConstantBufferBinding)
    (v : VramAllocator) (waits : Bool) (d : Device) (h : History)
    → hi < 2 ^ 64
    → Within lo hi v.free_list
    → e.next_fence_value + 1 < 2 ^ 32
    → v.next_gpu_va + 64 + 0xFFF < 2 ^ 64
    → IsLoggable info grid block
    → IsValid ch
    → length cbs < 2 ^ 24
    → dispatch_checked info e regs ch shader grid block cbs v waits d h
      ≡ done (dispatch e regs ch shader grid block cbs v waits d h)
unfolding dispatch_checked dispatch
dispatch_exact lo hi info e regs ch shader grid block cbs v waits d h word within count room small
      valid few =
    let f = fence_if e v waits in
    let commands : List ℕ = build_dispatch_commands f.1 shader grid block cbs f.0 in
    let short = short_commands f.1 shader grid block cbs f.0 few in
    >>=_after (fence_if_checked e v waits) _ _ _
      (fence_if_exact lo hi e v waits word within count room)
      (>>=_after (build_checked info f.1 shader grid block cbs f.0) _ _ _
        ((build_checked_iff info f.1 shader grid block cbs f.0).1 small)
        (>>=_after (submit_checked ch regs commands d h) _ _ _
          (submit_exact ch regs commands d h valid (omega (arith, short))) refl))

map_shader_exact :
    (binary : List ℕ) (entry shared registers : ℕ) (r : Option GpuAllocation) (v : VramAllocator)
    → FitsBar1 v
    → FitsEnd r
    → map_shader binary entry shared registers r v
      ≡ done (mapped_if binary entry shared registers r v)
unfolding map_shader
map_shader_exact binary entry shared registers none v fits end = refl
map_shader_exact binary entry shared registers (some a) v fits end =
    >>=_after (map_to_cpu_checked v a) _ _ _ (map_to_cpu_exact v a fits end) refl

-- A block behind a BAR1 that fits the CPU's addresses.
pub load_shader_exact :
    (lo hi : ℕ) (v : VramAllocator) (blocks : List GpuAllocation) (binary : List ℕ)
    (entry shared registers : ℕ)
    → Laws.IsValid lo hi v blocks
    → FitsBar1 v
    → v.next_gpu_va + length binary + 0xFFF < 2 ^ 64
    → load_shader_checked v binary entry shared registers
      ≡ done (load_shader v binary entry shared registers)
unfolding load_shader_checked
load_shader_exact lo hi v blocks binary entry shared registers valid fits room =
    let n : ℕ = length binary in
    let r = allocate v n in
    let step = (alloc-IsValid lo hi v blocks n valid room).0 in
    rw (load_shader_lem v binary entry shared registers) (
      >>=_after (allocate_checked v n) _ _ _ (allocate_exact lo hi v n valid.word valid.within room)
        (map_shader_exact binary entry shared registers r.0 r.1 (allocate-FitsBar1 v n fits)
          (IsValid-FitsEnd lo hi r.1 blocks r.0 step)))
