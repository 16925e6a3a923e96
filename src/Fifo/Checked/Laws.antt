-- ===== src/Fifo/Checked/Laws.antt =====
-- When the operations of `Channel` and `Runlist` (src/fifo.rs) panic in a build with overflow checks,
-- and what they do when they do not.
use gpu_compute_nostd.Base.{
  ℕ, ◌+◌, ◌*◌, ◌^◌, ◌<◌, ◌≡◌, inl, inr, refl, Option, none, some, List, arith, length, u64,
  Option-cases, Bool-cases, ltb, if◌then◌else◌,
}
use gpu_compute_nostd.Base.Checked.{done, exact64, Agrees, Agrees->>=, Agrees-exact64}
use gpu_compute_nostd.Hardware.{Device, History}
use gpu_compute_nostd.Mmio.{GpuRegs}
use gpu_compute_nostd.Memory.{GpuAllocation, VramAllocator, allocate}
use gpu_compute_nostd.Memory
use gpu_compute_nostd.Memory.Sequence.{alloc-IsValid}
use gpu_compute_nostd.Memory.Regions.{Within}
use gpu_compute_nostd.Memory.Laws.{allocate_outcome}
use gpu_compute_nostd.Memory.Checked.{allocate_checked}
use gpu_compute_nostd.Memory.Checked.Laws.{allocate-Agrees, allocate_exact}
use gpu_compute_nostd.Fifo.Channel.{
  Channel, opened, default_gpfifo_entries, default_push_buffer_size, allocate_channel, submit,
}
use gpu_compute_nostd.Fifo.Runlist.{Runlist, commit}
use gpu_compute_nostd.Fifo.Submit.{IsValid}
use gpu_compute_nostd.Fifo.Checked.{
  open_checked, push_buffer_checked, allocate_channel_checked, remainder, submit_plan, kick,
  submit_checked, commit_block, commit_checked,
}

-- In any state, a submission with overflow checks panics, or does what it does without.
pub submit-Agrees :
    (ch : Channel) (regs : GpuRegs) (commands : List ℕ) (d : Device) (h : History)
    → Agrees (submit_checked ch regs commands d h) (submit ch regs commands d h)
unfolding submit_checked submit_plan kick submit remainder
submit-Agrees ch regs commands d h = ground arith

-- A valid channel.
pub submit_exact :
    (ch : Channel) (regs : GpuRegs) (commands : List ℕ) (d : Device) (h : History)
    → IsValid ch
    → length commands * 4 < 2 ^ 31
    → submit_checked ch regs commands d h ≡ done (submit ch regs commands d h)
unfolding submit_checked submit_plan kick submit remainder
submit_exact ch regs commands d h v short = ground arith

-- the two halves of `allocate_channel` without the checks
abbrev opened_if :
    ℕ → ℕ → GpuAllocation → Option GpuAllocation → VramAllocator → Option Channel × VramAllocator
opened_if id engine g none v = (none, v)
opened_if id engine g (some p) v = (some (opened id engine g p), v)

abbrev pushed_if : ℕ → ℕ → Option GpuAllocation → VramAllocator → Option Channel × VramAllocator
pushed_if id engine none v = (none, v)
pushed_if id engine (some g) v =
    let r = allocate v default_push_buffer_size in opened_if id engine g r.0 r.1

allocate_channel_lem :
    (v : VramAllocator) (id engine : ℕ)
    → let r = allocate v (default_gpfifo_entries * 8) in
      allocate_channel v id engine ≡ pushed_if id engine r.0 r.1
unfolding allocate_channel
allocate_channel_lem v id engine =
    let r = allocate v (default_gpfifo_entries * 8) in
    ground (arith, Option-cases r.0, Option-cases (allocate r.1 default_push_buffer_size).0)

open-Agrees :
    (id engine : ℕ) (g : GpuAllocation) (p : Option GpuAllocation) (v : VramAllocator)
    → Agrees (open_checked id engine g p v) (opened_if id engine g p v)
unfolding open_checked
open-Agrees id engine g none v = refl
open-Agrees id engine g (some p) v = ground arith

push_buffer-Agrees :
    (id engine : ℕ) (g : Option GpuAllocation) (v : VramAllocator)
    → Agrees (push_buffer_checked id engine g v) (pushed_if id engine g v)
unfolding push_buffer_checked
push_buffer-Agrees id engine none v = refl
push_buffer-Agrees id engine (some g) v =
    let r = allocate v default_push_buffer_size in
    Agrees->>= (allocate_checked v default_push_buffer_size) _ _ _
      (allocate-Agrees v default_push_buffer_size) (open-Agrees id engine g r.0 r.1)

pub allocate_channel-Agrees :
    (v : VramAllocator) (id engine : ℕ)
    → Agrees (allocate_channel_checked v id engine) (allocate_channel v id engine)
unfolding allocate_channel_checked
allocate_channel-Agrees v id engine =
    let n : ℕ = default_gpfifo_entries * 8 in
    rw (allocate_channel_lem v id engine) (
      Agrees->>= (allocate_checked v n) _ _ _ (allocate-Agrees v n)
        (push_buffer-Agrees id engine (allocate v n).0 (allocate v n).1))

abbrev committed_if : Runlist → Option GpuAllocation → VramAllocator → Runlist × VramAllocator
committed_if r none v = (r, v)
committed_if r (some a) v = (record r { allocation = some a }, v)

commit_block-Agrees :
    (r : Runlist) (a : Option GpuAllocation) (v : VramAllocator)
    → Agrees (commit_block r a v) (committed_if r a v)
unfolding commit_block
commit_block-Agrees r none v = refl
commit_block-Agrees r (some a) v = ground arith

commit_lem :
    (r : Runlist) (v : VramAllocator)
    → let n = u64 (length r.channels * 8) in
      commit r v ≡ (if ltb 0 n then committed_if r (allocate v n).0 (allocate v n).1 else (r, v))
unfolding commit
commit_lem r v =
    let n : ℕ = u64 (length r.channels * 8) in ground (arith, Option-cases (allocate v n).0)

pub commit-Agrees : (r : Runlist) (v : VramAllocator) → Agrees (commit_checked r v) (commit r v)
unfolding commit_checked
commit-Agrees r v =
    let n : ℕ = u64 (length r.channels * 8) in
    rw (commit_lem r v) (
      Agrees->>= (exact64 (length r.channels * 8)) _ _ _ (Agrees-exact64 (length r.channels * 8))
        (elim (Bool-cases (ltb 0 n)) [
          | inl entries ↦ rw entries (
              Agrees->>= (allocate_checked v n) _ _ _ (allocate-Agrees v n)
                (commit_block-Agrees r (allocate v n).0 (allocate v n).1))
          | inr empty ↦ rw empty refl
        ]))

-- the sums of a runlist's number and of its length
abbrev pub IsNumbered : Runlist → Type 0
IsNumbered r = (r.id < 2 ^ 27) × (length r.channels * 8 < 2 ^ 64)

module _ (lo hi : ℕ) (v : VramAllocator) (word : hi < 2 ^ 64)
    (within : Within lo hi v.free_list) where
  pub commit_exact :
      (r : Runlist)
      → IsNumbered r
      → v.next_gpu_va + length r.channels * 8 + 0xFFF < 2 ^ 64
      → commit_checked r v ≡ done (commit r v)
  unfolding commit_checked commit commit_block
  commit_exact r small room =
      let n : ℕ = length r.channels * 8 in
      let made = allocate_exact lo hi v n word within room in
      elim (allocate_outcome v n) [
        | inl full ↦ ground (arith, made, full)
        | inr (a, v1, one) ↦ ground (arith, made, one)
      ]

open_exact :
    (id engine : ℕ) (g : GpuAllocation) (p : Option GpuAllocation) (v : VramAllocator)
    → id < 2 ^ 16
    → open_checked id engine g p v ≡ done (opened_if id engine g p v)
unfolding open_checked
open_exact id engine g none v small = refl
open_exact id engine g (some p) v small = ground arith

push_buffer_exact :
    (lo hi id engine : ℕ) (g : Option GpuAllocation) (v : VramAllocator)
    → id < 2 ^ 16
    → hi < 2 ^ 64
    → Within lo hi v.free_list
    → v.next_gpu_va + 2 ^ 18 + 0xFFF < 2 ^ 64
    → push_buffer_checked id engine g v ≡ done (pushed_if id engine g v)
unfolding push_buffer_checked
push_buffer_exact lo hi id engine none v small word within room = refl
push_buffer_exact lo hi id engine (some g) v small word within room =
    let r = allocate v default_push_buffer_size in
    rw (allocate_exact lo hi v default_push_buffer_size word within room)
      (open_exact id engine g r.0 r.1 small)

-- An allocator that is valid, and a channel number of a doorbell.
pub allocate_channel_exact :
    (lo hi : ℕ) (v : VramAllocator) (blocks : List GpuAllocation) (id engine : ℕ)
    → Memory.Laws.IsValid lo hi v blocks
    → id < 2 ^ 16
    → v.next_gpu_va + 2 ^ 19 < 2 ^ 64
    → allocate_channel_checked v id engine ≡ done (allocate_channel v id engine)
unfolding allocate_channel_checked
allocate_channel_exact lo hi v blocks id engine valid small room =
    let n : ℕ = default_gpfifo_entries * 8 in
    let step = alloc-IsValid lo hi v blocks n valid (omega arith) in
    let r = allocate v n in
    rw
      (
        allocate_channel_lem v id engine,
        allocate_exact lo hi v n valid.word valid.within (omega arith),
      )
      (push_buffer_exact lo hi id engine r.0 r.1 small step.0.word step.0.within
        (omega (arith, step.1)))
