-- ===== src/Compute/Dispatch.antt =====
-- `ComputeEngine::dispatch` of src/compute.rs: its answer and its effects, waiting or not.
use gpu_compute_nostd.Base.{
  ℕ, subst, sym, zero, suc, ◌+◌, ◌≡◌, ◌≢◌, ◌↔◌, refl, ap, Bool, true, false, Option, none, some,
  List, u32, arith,
}
use gpu_compute_nostd.Hardware.{Device, History}
use gpu_compute_nostd.Mmio.{GpuRegs}
use gpu_compute_nostd.Memory.{VramAllocator}
use gpu_compute_nostd.Fifo.Channel.{Channel, submit}
use gpu_compute_nostd.Compute.Engine.{
  ShaderProgram, GridDim, BlockDim, ConstantBufferBinding, GpuFence, ComputeEngine, new_fence,
  is_signaled, wait, fence_iters, fence_if, finish_wait, build_dispatch_commands, dispatch,
}

-- No wait for a fence ends with a signal, whatever its limit.
wait_never : (fence : GpuFence) (iters : ℕ) → wait fence iters ≡ false
unfolding wait is_signaled
wait_never fence zero = refl
wait_never fence (suc iters) = wait_never fence iters

finish_wait-some : (fence : GpuFence) → finish_wait true (some fence) ≡ false
unfolding finish_wait
finish_wait-some fence = wait_never fence fence_iters

-- the answer from the submission's
abbrev answer : Bool → Option GpuFence → Option ℕ → Bool
answer waits fence s = elim s [ some va ↦ finish_wait waits fence | none ↦ false ]

answer_async : (s : Option ℕ) → (answer false none s ≡ true) ↔ (s ≢ none)
unfolding finish_wait
answer_async none = (λ e. cc, λ n. absurd (n refl))
answer_async (some va) = (λ e. λ eq. cc, λ n. refl)

answer_unfenced : (s : Option ℕ) → (answer true none s ≡ true) ↔ (s ≢ none)
unfolding finish_wait
answer_unfenced none = (λ e. cc, λ n. absurd (n refl))
answer_unfenced (some va) = (λ e. λ eq. cc, λ n. refl)

answer_fenced : (fence : GpuFence) (s : Option ℕ) → answer true (some fence) s ≡ false
answer_fenced fence none = refl
answer_fenced fence (some va) = finish_wait-some fence

answer_either :
    (fence : Option GpuFence) (s : Option GpuFence → Option ℕ)
    → (answer true fence (s fence) ≡ true) ↔ ((fence ≡ none) × (s none ≢ none))
answer_either none s =
    (λ e. (refl, (answer_unfenced (s none)).0 e), λ r. (answer_unfenced (s none)).1 r.1)
answer_either (some fence) s =
    (λ e. absurd (ground (arith, answer_fenced fence (s (some fence)))), λ r. cc)

-- The commands do not depend on the engine's counter.
build_counter :
    (e : ComputeEngine) (n : ℕ) (shader : ShaderProgram) (grid : GridDim) (block : BlockDim)
    (cbs : List ConstantBufferBinding) (fence : Option GpuFence)
    → build_dispatch_commands (record e { next_fence_value = n }) shader grid block cbs fence
      ≡ build_dispatch_commands e shader grid block cbs fence
unfolding build_dispatch_commands
build_counter e n shader grid block cbs fence = refl

module _ (e : ComputeEngine) (regs : GpuRegs) (ch : Channel) (shader : ShaderProgram)
    (grid : GridDim) (block : BlockDim) (cbs : List ConstantBufferBinding) (v : VramAllocator)
    (d : Device) (h : History) where
  -- A dispatch that does not wait submits the commands without a fence; its answer is whether they
  -- were accepted, the channel and the device are as that submission leaves them, and the engine and
  -- the allocator are as before.
  pub dispatch_async :
      let (r, h') = dispatch e regs ch shader grid block cbs v false d h in
      let ((s, ch'), h'') =
        submit ch regs (build_dispatch_commands e shader grid block cbs none) d h in
      ((r.result ≡ true) ↔ (s ≢ none))
      × (r.channel ≡ ch')
      × (h' ≡ h'')
      × (r.engine ≡ e)
      × (r.allocator ≡ v)
  unfolding dispatch fence_if finish_wait
  dispatch_async = (
    answer_async (submit ch regs (build_dispatch_commands e shader grid block cbs none) d h).0.0,
    refl,
    refl,
    refl,
    refl,
  )

  dispatch_result :
      let fence = (new_fence v e.next_fence_value).0 in
      (dispatch e regs ch shader grid block cbs v true d h).0.result
      ≡ answer true fence
          (submit ch regs (build_dispatch_commands e shader grid block cbs fence) d h).0.0
  unfolding dispatch fence_if
  dispatch_result =
      let fence : Option GpuFence = (new_fence v e.next_fence_value).0 in
      ap (λ commands. answer true fence (submit ch regs commands d h).0.0)
        (build_counter e (u32 (e.next_fence_value + 1)) shader grid block cbs fence)

  -- A dispatch that waits answers `true` exactly if no fence could be allocated and the commands
  -- were accepted without one: with a fence it never does.
  pub dispatch_wait : ((dispatch e regs ch shader grid block cbs v true d h).0.result ≡ true) ↔ (
      ((new_fence v e.next_fence_value).0 ≡ none)
      × ((submit ch regs (build_dispatch_commands e shader grid block cbs none) d h).0.0 ≢ none))
  dispatch_wait =
      subst
        (λ b. (b ≡ true) ↔ (
          ((new_fence v e.next_fence_value).0 ≡ none)
          × ((submit ch regs (build_dispatch_commands e shader grid block cbs none) d h).0.0
              ≢ none)))
        (sym dispatch_result)
        (answer_either (new_fence v e.next_fence_value).0
          (λ f. (submit ch regs (build_dispatch_commands e shader grid block cbs f) d h).0.0))
