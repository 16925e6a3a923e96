-- ===== src/Fifo/Channel.antt =====
-- `Channel` of src/fifo.rs. The two atomic counters are plain fields here: these are calls that do
-- not overlap. `Fifo.Race` has the overlapping ones.
use gpu_compute_nostd.Base.{
  ℕ, ◌+◌, ◌*◌, ◌%◌, Option, none, some, List, length, u32, u64, ltb, if◌then◌else◌,
}
use gpu_compute_nostd.Hardware.{Io, pure, ◌>>◌}
use gpu_compute_nostd.Mmio.{GpuRegs, write32}
use gpu_compute_nostd.Memory.{GpuAllocation, VramAllocator, allocate}

pub record Channel : Type 0 where
  pub id : ℕ
  pub gpfifo : GpuAllocation
  pub push_buffer : GpuAllocation
  pub gpfifo_entries : ℕ
  pub gpfifo_put : ℕ
  pub push_offset : ℕ
  pub push_size : ℕ
  pub engine_id : ℕ
  pub doorbell_offset : ℕ

abbrev pub default_gpfifo_entries : ℕ
default_gpfifo_entries = 1024

abbrev pub default_push_buffer_size : ℕ
default_push_buffer_size = 256 * 1024

-- the channel that `Channel::allocate` returns over its two buffers
abbrev pub opened : ℕ → ℕ → GpuAllocation → GpuAllocation → Channel
opened channel_id engine_id gpfifo push_buffer = record {
  id = channel_id;
  gpfifo = gpfifo;
  push_buffer = push_buffer;
  gpfifo_entries = default_gpfifo_entries;
  gpfifo_put = 0;
  push_offset = 0;
  push_size = u32 default_push_buffer_size;
  engine_id = engine_id;
  doorbell_offset = u32 (0x90000 + u32 (channel_id * 8));
}

-- `Channel::allocate`; the GPFIFO stays allocated when the push buffer does not fit.
unfoldable pub allocate_channel : VramAllocator → ℕ → ℕ → Option Channel × VramAllocator
allocate_channel allocator channel_id engine_id =
    let (r1, allocator1) = allocate allocator (default_gpfifo_entries * 8) in
    elim r1 [
      | none ↦ (none, allocator1)
      | some gpfifo ↦
          let (r2, allocator2) = allocate allocator1 default_push_buffer_size in
          elim r2 [
            | none ↦ (none, allocator2)
            | some push_buffer ↦ (some (opened channel_id engine_id gpfifo push_buffer), allocator2)
          ]
    ]

-- `Channel::submit`: the address of the segment, and the channel afterwards. The words themselves
-- and the GPFIFO entry are not written anywhere by the code.
unfoldable pub submit : Channel → GpuRegs → List ℕ → Io (Option ℕ × Channel)
submit ch regs commands =
    let byte_len = u32 (length commands * 4) in
    let current_offset = ch.push_offset in
    if ltb ch.push_size (u32 (current_offset + byte_len))
    then pure (none, ch)
    else (let segment_gpu_va = u64 (ch.push_buffer.gpu_va + current_offset) in
        let new_idx = u32 (ch.gpfifo_put + 1) % ch.gpfifo_entries in
        let ch' = record ch {
          push_offset = u32 (current_offset + byte_len);
          gpfifo_put = new_idx;
        } in
        write32 regs ch.doorbell_offset new_idx >> pure (some segment_gpu_va, ch'))

-- `Channel::reset_push_buffer`
unfoldable pub reset_push_buffer : Channel → Channel
reset_push_buffer ch = record ch { push_offset = 0 }
