-- ===== src/Fifo/Checked.antt =====
-- `Channel` and `Runlist` (src/fifo.rs) in a build with overflow checks. A panic ends the program, so
-- what it has done before is not kept. A remainder by zero panics in either build.
pub mod Laws
use gpu_compute_nostd.Base.{
  ℕ, ◌+◌, ◌*◌, ◌%◌, Option, none, some, List, length, u32, ltb, ◌==◌, if◌then◌else◌,
}
use gpu_compute_nostd.Base.Checked.{◌>>=◌, Run, done, panicked, exact32, exact64}
use gpu_compute_nostd.Hardware.{Device, History}
use gpu_compute_nostd.Mmio.{GpuRegs, write32}
use gpu_compute_nostd.Memory.{GpuAllocation, VramAllocator}
use gpu_compute_nostd.Memory.Checked.{allocate_checked}
use gpu_compute_nostd.Fifo.Channel.{
  Channel, opened, default_gpfifo_entries, default_push_buffer_size,
}
use gpu_compute_nostd.Fifo.Runlist.{Runlist}

-- the end of `Channel::allocate`, with both buffers there or the second one missing
unfoldable pub open_checked :
    ℕ
    → ℕ
    → GpuAllocation
    → Option GpuAllocation
    → VramAllocator
    → Run (Option Channel × VramAllocator)
open_checked channel_id engine_id gpfifo none allocator = done (none, allocator)
open_checked channel_id engine_id gpfifo (some push_buffer) allocator = do
  scaled ← exact32 (channel_id * 8)
  offset ← exact32 (0x90000 + scaled)
  done (
    some (record (opened channel_id engine_id gpfifo push_buffer) { doorbell_offset = offset }),
    allocator,
  )

-- `Channel::allocate` from its first `?` on
unfoldable pub push_buffer_checked :
    ℕ → ℕ → Option GpuAllocation → VramAllocator → Run (Option Channel × VramAllocator)
unfolding open_checked
push_buffer_checked channel_id engine_id none allocator = done (none, allocator)
push_buffer_checked channel_id engine_id (some gpfifo) allocator = do
  r ← allocate_checked allocator default_push_buffer_size
  open_checked channel_id engine_id gpfifo r.0 r.1

unfoldable pub allocate_channel_checked :
    VramAllocator → ℕ → ℕ → Run (Option Channel × VramAllocator)
unfolding push_buffer_checked
allocate_channel_checked allocator channel_id engine_id = do
  r ← allocate_checked allocator (default_gpfifo_entries * 8)
  push_buffer_checked channel_id engine_id r.0 r.1

-- `a % b` on `u32`
unfoldable pub remainder : ℕ → ℕ → Run ℕ
remainder a b = if b == 0 then panicked else done (a % b)

-- `Channel::submit` up to the doorbell: the segment, and the channel then; `fetch_add` wraps in any
-- build.
unfoldable pub submit_plan : Channel → List ℕ → Run (Option (ℕ × Channel))
unfolding remainder
submit_plan ch commands = do
  bytes ← exact64 (length commands * 4)
  end ← exact32 (ch.push_offset + u32 bytes)
  (if ltb ch.push_size end then done none else (do
    segment_gpu_va ← exact64 (ch.push_buffer.gpu_va + ch.push_offset)
    next ← exact32 (ch.gpfifo_put + 1)
    new_idx ← remainder next ch.gpfifo_entries
    done (
        some (
          segment_gpu_va,
          record ch { push_offset = u32 (ch.push_offset + u32 bytes); gpfifo_put = new_idx },
        ))))

-- the doorbell, if there was room
unfoldable pub kick :
    Channel → GpuRegs → Option (ℕ × Channel) → Device → History → (Option ℕ × Channel) × History
kick ch regs none d h = ((none, ch), h)
kick ch regs (some (va, ch')) d h =
    ((some va, ch'), (write32 regs ch.doorbell_offset ch'.gpfifo_put d h).1)

unfoldable pub submit_checked :
    Channel → GpuRegs → List ℕ → Device → History → Run ((Option ℕ × Channel) × History)
unfolding submit_plan kick
submit_checked ch regs commands d h = do
  plan ← submit_plan ch commands
  done (kick ch regs plan d h)

-- the end of `commit`, with the number of a register that is computed and not used
unfoldable pub commit_block :
    Runlist → Option GpuAllocation → VramAllocator → Run (Runlist × VramAllocator)
commit_block r none allocator = done (r, allocator)
commit_block r (some alloc) allocator = do
  scaled ← exact32 (r.id * 0x10)
  runlist_base_reg ← exact32 (0x002270 + scaled)
  done (record r { allocation = some alloc }, allocator)

unfoldable pub commit_checked : Runlist → VramAllocator → Run (Runlist × VramAllocator)
unfolding commit_block
commit_checked r allocator = do
  alloc_size ← exact64 (length r.channels * 8)
  (if ltb 0 alloc_size
      then (do a ← allocate_checked allocator alloc_size; commit_block r a.0 a.1)
      else done (r, allocator))
