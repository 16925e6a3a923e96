-- ===== src/Driver/Session/Allocations.antt =====
-- What the calls of src/tensor.rs, src/compute.rs and src/fifo.rs that allocate do with the allocator.
use gpu_compute_nostd.Base.{
  refl, ℕ, ◌+◌, ◌*◌, ◌^◌, ◌<◌, ◌≡◌, subst, Bool, true, false, Option, none, some, List, ◌∷◌, ◌++◌,
  arith, length, inl, inr, u64, ltb, Option-cases, Bool-cases,
}
use gpu_compute_nostd.Memory.{GpuAllocation, VramAllocator, allocate}
use gpu_compute_nostd.Memory.Invariant.{IsInvariant, allocate_va}
use gpu_compute_nostd.Memory.Sequence.{kept}
use gpu_compute_nostd.Fifo.Channel.{
  Channel, default_gpfifo_entries, default_push_buffer_size, allocate_channel,
}
use gpu_compute_nostd.Fifo.Runlist.{Runlist, commit}
use gpu_compute_nostd.Compute.{ComputeEngine, new_fence, fence_if, load_shader}
use gpu_compute_nostd.Tensor.Shape.{DType, total_elements, size_bytes}
use gpu_compute_nostd.Tensor.Descriptor.{TensorEngine, allocate_tensor}
use gpu_compute_nostd.Tensor.Allocation.{allocate_tensor_cases}
use gpu_compute_nostd.Driver.Session.{
  channel_blocks, runlist_block, tensor_block, shader_block, fence_block,
}
use Prim.Native.String.{String}

module _ (P : VramAllocator → List GpuAllocation → Type 0) where
  -- the invariant after an allocation of `n` bytes
  abbrev pub Allocated : VramAllocator → ℕ → List GpuAllocation → Type 0
  Allocated v n blocks = P (allocate v n).1 (kept (allocate v n).0 blocks)

  -- the invariant after both allocations of a channel
  abbrev pub AllocatedTwo : VramAllocator → List GpuAllocation → Type 0
  AllocatedTwo v blocks =
      let n = default_gpfifo_entries * 8 in
      Allocated v n blocks
      × ((g : GpuAllocation)
          → (allocate v n).0 ≡ some g
          → Allocated (allocate v n).1 default_push_buffer_size (g ∷ blocks))

-- Each call hands on what its allocations leave of an invariant of the allocator and its blocks.
module _ (P : VramAllocator → List GpuAllocation → Type 0) (laws : IsInvariant P) where
  allocate_kept :
      (v : VramAllocator) (n : ℕ) (r : Option GpuAllocation) (blocks : List GpuAllocation)
      → Allocated P v n blocks
      → (allocate v n).0 ≡ r
      → P (allocate v n).1 (kept r blocks)
  allocate_kept v n r blocks one e = subst (λ t. P (allocate v n).1 (kept t blocks)) e one

  -- A tensor's block.
  pub tensor_kept :
      (e : TensorEngine) (v : VramAllocator) (name : String) (shape : List ℕ) (dtype : DType)
      (blocks : List GpuAllocation)
      → P v blocks
      → Allocated P v (size_bytes dtype (total_elements shape)) blocks
      → let r = allocate_tensor e v name shape dtype in
        P r.allocator (kept (tensor_block r.result) blocks)
  tensor_kept e v name shape dtype blocks valid one =
      elim (allocate_tensor_cases e v name shape dtype) [
        | inl (fails, done) ↦ rw done valid
        | inr (a, v', fits, done) ↦ rw done (subst (λ t. P t.1 (kept t.0 blocks)) fits one)
      ]

  pub fence_if_kept :
      (e : ComputeEngine) (v : VramAllocator) (waits : Bool) (blocks : List GpuAllocation)
      → P v blocks
      → (waits ≡ true → Allocated P v 64 blocks)
      → let (fence, e', v') = fence_if e v waits in P v' (kept (fence_block fence) blocks)
  unfolding fence_if new_fence
  fence_if_kept e v false blocks valid one = valid
  fence_if_kept e v true blocks valid one = elim (Option-cases (allocate v 64).0) [
    | inl fails ↦ rw (fails, fence_if, new_fence) (allocate_kept v 64 none blocks (one refl) fails)
    | inr (a, fits) ↦
        rw (fits, fence_if, new_fence) (allocate_kept v 64 (some a) blocks (one refl) fits)
  ]

  pub load_shader_kept :
      (v : VramAllocator) (binary : List ℕ) (entry shared registers : ℕ)
      (blocks : List GpuAllocation)
      → Allocated P v (length binary) blocks
      → let (p, v') = load_shader v binary entry shared registers in
        P v' (kept (shader_block p) blocks)
  unfolding load_shader
  load_shader_kept v binary entry shared registers blocks one =
      let n : ℕ = length binary in
      elim (Option-cases (allocate v n).0) [
        | inl fails ↦ rw (fails, load_shader) (allocate_kept v n none blocks one fails)
        | inr (a, fits) ↦
            rw (fits, load_shader)
              (laws.mapped (allocate v n).1 a blocks (allocate_kept v n (some a) blocks one fits))
      ]

  -- A channel that does not get its push buffer leaves the allocator valid all the same.
  pub allocate_channel_kept :
      (v : VramAllocator) (id engine : ℕ) (blocks : List GpuAllocation)
      → AllocatedTwo P v blocks
      → P (allocate_channel v id engine).1 (channel_blocks (allocate_channel v id engine).0 blocks)
  unfolding allocate_channel
  allocate_channel_kept v id engine blocks both =
      let n : ℕ = default_gpfifo_entries * 8 in
      elim (Option-cases (allocate v n).0) [
        | inl fails ↦ rw (fails, allocate_channel) (allocate_kept v n none blocks both.0 fails)
        | inr (g, one) ↦
            let v1 : VramAllocator = (allocate v n).1 in
            let m : ℕ = default_push_buffer_size in
            elim (Option-cases (allocate v1 m).0) [
              | inl fails ↦
                  rw (one, fails, allocate_channel)
                    (laws.dropped (allocate v1 m).1 g blocks
                      (allocate_kept v1 m none (g ∷ blocks) (both.1 g one) fails))
              | inr (p, two) ↦
                  rw (one, two, allocate_channel)
                    (allocate_kept v1 m (some p) (g ∷ blocks) (both.1 g one) two)
            ]
      ]

  -- While GPU addresses last.
  pub room-AllocatedTwo :
      (v : VramAllocator) (blocks : List GpuAllocation)
      → P v blocks
      → v.next_gpu_va + 2 ^ 19 + 0xFFF < 2 ^ 64
      → AllocatedTwo P v blocks
  room-AllocatedTwo v blocks valid room =
      let n : ℕ = default_gpfifo_entries * 8 in
      let one = laws.allocated v blocks n valid (omega arith) in
      (
        one,
        λ g e.
            laws.allocated (allocate v n).1 (g ∷ blocks) default_push_buffer_size
              (allocate_kept v n (some g) blocks one e)
              (omega (arith, allocate_va v n (omega arith))),
      )

  pub commit_kept :
      (r : Runlist) (v : VramAllocator) (blocks : List GpuAllocation)
      → P v blocks
      → (ltb 0 (u64 (length r.channels * 8)) ≡ true
          → Allocated P v (u64 (length r.channels * 8)) blocks)
      → P (commit r v).1 (kept (runlist_block r v) blocks)
  unfolding commit
  commit_kept r v blocks valid one =
      let n : ℕ = u64 (length r.channels * 8) in
      elim (Bool-cases (ltb 0 n)) [
        | inl some_entry ↦ elim (Option-cases (allocate v n).0) [
          | inl fails ↦
              rw (some_entry, fails, commit) (allocate_kept v n none blocks (one some_entry) fails)
          | inr (a, fits) ↦
              rw (some_entry, fits, commit)
                (allocate_kept v n (some a) blocks (one some_entry) fits)
        ]
        | inr empty ↦ rw (empty, commit) valid
      ]

  -- A call that opens a channel keeps its blocks in front.
  pub channel_blocks-++ :
      (v : VramAllocator) (r : Option Channel) (xs ys : List GpuAllocation)
      → P v (channel_blocks r (xs ++ ys))
      → P v (channel_blocks r xs ++ ys)
  channel_blocks-++ v none xs ys valid = valid
  channel_blocks-++ v (some ch) xs ys valid = valid
