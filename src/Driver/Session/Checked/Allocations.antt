-- ===== src/Driver/Session/Checked/Allocations.antt =====
-- The allocations of a call of a session on a `GpuDevice` (src/driver.rs) that has returned in a build
-- with overflow checks.
use Prim.Native.String.{String}
use gpu_compute_nostd.Base.{
  ℕ, ◌+◌, ◌*◌, ◌≡◌, subst, Bool, true, false, Option, some, List, ◌∷◌, length, u64, ltb,
}
use gpu_compute_nostd.Base.Checked.{done, exact64, exact32, Agrees-exact64, >>=-agreed, >>=-done}
use gpu_compute_nostd.Hardware.{Device, History}
use gpu_compute_nostd.Mmio.{GpuRegs}
use gpu_compute_nostd.Memory.{GpuAllocation, VramAllocator, allocate, map_system_memory}
use gpu_compute_nostd.Memory.Laws.{IsValid}
use gpu_compute_nostd.Memory.Invariant.{IsValid-IsInvariant}
use gpu_compute_nostd.Memory.Sequence.{kept}
use gpu_compute_nostd.Memory.Checked.{allocate_checked, map_system_memory_checked}
use gpu_compute_nostd.Memory.Checked.Laws.{allocate-Agrees, map_system_memory-Agrees}
use gpu_compute_nostd.Memory.Checked.Sequence.{
  allocate_checked-IsValid, map_system_memory_checked-IsValid,
}
use gpu_compute_nostd.Fifo.Channel.{Channel, default_gpfifo_entries, default_push_buffer_size}
use gpu_compute_nostd.Fifo.Runlist.{Runlist}
use gpu_compute_nostd.Fifo.Checked.{allocate_channel_checked, push_buffer_checked, commit_checked}
use gpu_compute_nostd.Compute.{ComputeEngine, ShaderProgram, fence_if}
use gpu_compute_nostd.Compute.Checked.{
  fence_if_checked, new_fence_checked, load_shader_checked, dispatch_checked,
}
use gpu_compute_nostd.Compute.Checked.Laws.{fence_if-Agrees}
use gpu_compute_nostd.Tensor.Shape.{DType, total_elements, size_bytes}
use gpu_compute_nostd.Tensor.Descriptor
use gpu_compute_nostd.Tensor.Descriptor.{TensorEngine}
use gpu_compute_nostd.Tensor.Checked.{
  total_elements_checked, size_bytes_checked, allocate_tensor_checked,
}
use gpu_compute_nostd.Tensor.Checked.Laws.{total_elements-Agrees, size_bytes-Agrees}
use gpu_compute_nostd.Driver.Session.{
  Call, Session, make_tensor, drop_tensor, load, launch, send, reset, map_system, open_channel,
  list_channel, unlist_channel, commit_runlist,
}
use gpu_compute_nostd.Driver.Session.Allocations.{Allocated, AllocatedTwo}
use gpu_compute_nostd.Driver.Session.Demand.{Allocates, owned}
use gpu_compute_nostd.Driver.Session.Checked.{perform_checked}

module _ (lo hi : ℕ) where
  abbrev Valid : VramAllocator → List GpuAllocation → Type 0
  Valid = IsValid lo hi

  -- An allocation that has returned.
  allocate-Allocated :
      (v : VramAllocator) (n : ℕ) (blocks : List GpuAllocation)
      → Valid v blocks
      → allocate_checked v n ≡ done (allocate v n)
      → Allocated Valid v n blocks
  allocate-Allocated v n blocks valid e =
      allocate_checked-IsValid lo hi v blocks n (allocate v n) valid e

  tensor-Allocated :
      (e : TensorEngine) (v : VramAllocator) (name : String) (shape : List ℕ) (dtype : DType)
      (blocks : List GpuAllocation) {r : Descriptor.Allocated}
      → Valid v blocks
      → allocate_tensor_checked e v name shape dtype ≡ done r
      → Allocated Valid v (size_bytes dtype (total_elements shape)) blocks
  unfolding allocate_tensor_checked
  tensor-Allocated e v name shape dtype blocks {r} valid returned =
      let n : ℕ = total_elements shape in
      let bytes : ℕ = size_bytes dtype n in
      let counted =
        >>=-agreed (total_elements_checked shape) n _ _ (total_elements-Agrees shape) returned in
      let sized =
        >>=-agreed (size_bytes_checked dtype n) bytes _ _ (size_bytes-Agrees dtype n) counted.1 in
      let made =
        >>=-agreed (allocate_checked v bytes) (allocate v bytes) _ _ (allocate-Agrees v bytes)
          sized.1 in
      allocate-Allocated v bytes blocks valid made.0

  shader-Allocated :
      (v : VramAllocator) (binary : List ℕ) (entry shared registers : ℕ)
      (blocks : List GpuAllocation) {r : Option ShaderProgram × VramAllocator}
      → Valid v blocks
      → load_shader_checked v binary entry shared registers ≡ done r
      → Allocated Valid v (length binary) blocks
  unfolding load_shader_checked
  shader-Allocated v binary entry shared registers blocks {r} valid returned =
      let n : ℕ = length binary in
      allocate-Allocated v n blocks valid
        (>>=-agreed (allocate_checked v n) (allocate v n) _ _ (allocate-Agrees v n) returned).0

  fence-Allocated :
      (e : ComputeEngine) (v : VramAllocator) (waits : Bool) (blocks : List GpuAllocation)
      → Valid v blocks
      → fence_if_checked e v waits ≡ done (fence_if e v waits)
      → waits ≡ true
      → Allocated Valid v 64 blocks
  unfolding fence_if_checked new_fence_checked
  fence-Allocated e v false blocks valid returned w = absurd cc
  fence-Allocated e v true blocks valid returned w =
      let (next, counted, rest) = >>=-done (exact32 (e.next_fence_value + 1)) returned in
      let (r, fenced, last) = >>=-done (new_fence_checked v e.next_fence_value) rest in
      allocate-Allocated v 64 blocks valid
        (>>=-agreed (allocate_checked v 64) (allocate v 64) _ _ (allocate-Agrees v 64) fenced).0

  push_buffer-Allocated :
      (id engine : ℕ) (g : GpuAllocation) (v : VramAllocator) (blocks : List GpuAllocation)
      {r : Option Channel × VramAllocator}
      → Valid v blocks
      → push_buffer_checked id engine (some g) v ≡ done r
      → Allocated Valid v default_push_buffer_size blocks
  unfolding push_buffer_checked
  push_buffer-Allocated id engine g v blocks {r} valid returned =
      let m : ℕ = default_push_buffer_size in
      allocate-Allocated v m blocks valid
        (>>=-agreed (allocate_checked v m) (allocate v m) _ _ (allocate-Agrees v m) returned).0

  channel-AllocatedTwo :
      (v : VramAllocator) (id engine : ℕ) (blocks : List GpuAllocation)
      {r : Option Channel × VramAllocator}
      → Valid v blocks
      → allocate_channel_checked v id engine ≡ done r
      → AllocatedTwo Valid v blocks
  unfolding allocate_channel_checked
  channel-AllocatedTwo v id engine blocks {r} valid returned =
      let n : ℕ = default_gpfifo_entries * 8 in
      let t = allocate v n in
      let (made, rest) = >>=-agreed (allocate_checked v n) t _ _ (allocate-Agrees v n) returned in
      let one = allocate-Allocated v n blocks valid made in
      (
        one,
        λ g e.
            push_buffer-Allocated id engine g t.1 (g ∷ blocks)
              (subst (λ x. Valid t.1 (kept x blocks)) e one)
              (subst (λ x. push_buffer_checked id engine x t.1 ≡ done r) e rest),
      )

  commit-Allocated :
      (r : Runlist) (v : VramAllocator) (blocks : List GpuAllocation) {t : Runlist × VramAllocator}
      → Valid v blocks
      → commit_checked r v ≡ done t
      → ltb 0 (u64 (length r.channels * 8)) ≡ true
      → Allocated Valid v (u64 (length r.channels * 8)) blocks
  unfolding commit_checked
  commit-Allocated r v blocks {t} valid returned entries =
      let n : ℕ = u64 (length r.channels * 8) in
      let (fits, rest) =
        >>=-agreed (exact64 (length r.channels * 8)) n _ _ (Agrees-exact64 (length r.channels * 8))
          returned in
      let made = rw entries at rest in
      allocate-Allocated v n blocks valid
        (>>=-agreed (allocate_checked v n) (allocate v n) _ _ (allocate-Agrees v n) made).0

  -- A call that has returned has made its allocations, and each of them keeps the invariant.
  pub perform_checked-Allocates :
      (info : Bool) (regs : GpuRegs) (c : Call) (s : Session) (d : Device) (h : History)
      {t : Session × History}
      → Valid s.vram (owned s)
      → perform_checked info regs c s d h ≡ done t
      → Allocates Valid (IsValid-IsInvariant lo hi) s c
  unfolding perform_checked dispatch_checked
  perform_checked-Allocates info regs (make_tensor name shape dtype) s d h {t} valid e =
      let (r, made, rest) =
        >>=-done (allocate_tensor_checked s.tensors s.vram name shape dtype) e in
      tensor-Allocated s.tensors s.vram name shape dtype (owned s) valid made
  perform_checked-Allocates info regs (drop_tensor t') s d h {t} valid e = tt
  perform_checked-Allocates info regs (load binary entry shared registers) s d h {t} valid e =
      let (r, made, rest) = >>=-done (load_shader_checked s.vram binary entry shared registers) e in
      shader-Allocated s.vram binary entry shared registers (owned s) valid made
  perform_checked-Allocates info regs (launch shader grid block cbs waits) s d h {t} valid e =
      let (r, dispatched, rest) =
        >>=-done
          (dispatch_checked info s.compute regs s.channel shader grid block cbs s.vram waits d h)
          e in
      fence-Allocated s.compute s.vram waits (owned s) valid
        (>>=-agreed (fence_if_checked s.compute s.vram waits) (fence_if s.compute s.vram waits) _ _
          (fence_if-Agrees s.compute s.vram waits) dispatched).0
  perform_checked-Allocates info regs (send commands) s d h {t} valid e = tt
  perform_checked-Allocates info regs reset s d h {t} valid e = tt
  perform_checked-Allocates info regs (map_system p n) s d h {t} valid e =
      map_system_memory_checked-IsValid lo hi s.vram (owned s) p n (map_system_memory s.vram p n)
        valid
        (>>=-agreed (map_system_memory_checked s.vram p n) (map_system_memory s.vram p n) _ _
          (map_system_memory-Agrees s.vram p n) e).0
  perform_checked-Allocates info regs (open_channel id engine) s d h {t} valid e =
      let (r, made, rest) = >>=-done (allocate_channel_checked s.vram id engine) e in
      channel-AllocatedTwo s.vram id engine (owned s) valid made
  perform_checked-Allocates info regs (list_channel id) s d h {t} valid e = tt
  perform_checked-Allocates info regs (unlist_channel id) s d h {t} valid e = tt
  perform_checked-Allocates info regs commit_runlist s d h {t} valid e =
      let (r, made, rest) = >>=-done (commit_checked s.runlist s.vram) e in
      commit-Allocated s.runlist s.vram (owned s) valid made
