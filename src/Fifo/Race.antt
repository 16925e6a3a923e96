-- ===== src/Fifo/Race.antt =====
-- Overlapping calls of `Channel::submit` (src/fifo.rs), which takes `&self`: the load of the offset
-- with its test, the `fetch_add`, the load of the put index, and its store with the doorbell are
-- four atomic steps, between which another thread may take its own.
pub mod Overlap
use gpu_compute_nostd.Base.{
  ℕ, ◌+◌, ◌*◌, ◌%◌, ◌≡◌, Bool, true, false, none, some, Option, List, [], ◌∷◌, arith, length, u32,
  u64, ltb, if◌then◌else◌,
}
use gpu_compute_nostd.Hardware.{Device, History}
use gpu_compute_nostd.Mmio.{GpuRegs}
use gpu_compute_nostd.Fifo.Channel.{Channel, submit}

-- where a thread stands in its call
pub data Stage : Type 0 where
  idle : Stage
  loaded : ℕ → Stage
  added : ℕ → Stage
  counted : ℕ → ℕ → Stage
  returned : Option ℕ → Stage

-- The next step of a thread that submits `byte_len` bytes.
unfoldable pub advance : ℕ → Channel → Stage → Channel × Stage
advance byte_len ch idle =
    if ltb ch.push_size (u32 (ch.push_offset + byte_len))
    then (ch, returned none)
    else (ch, loaded ch.push_offset)
advance byte_len ch (loaded current_offset) = (
  record ch { push_offset = u32 (ch.push_offset + byte_len) },
  added (u64 (ch.push_buffer.gpu_va + current_offset)),
)
advance byte_len ch (added segment_gpu_va) = (ch, counted segment_gpu_va ch.gpfifo_put)
advance byte_len ch (counted segment_gpu_va gpfifo_idx) = (
  record ch { gpfifo_put = u32 (gpfifo_idx + 1) % ch.gpfifo_entries },
  returned (some segment_gpu_va),
)
advance byte_len ch (returned r) = (ch, returned r)

-- two threads on one channel
pub record World : Type 0 where
  pub channel : Channel
  pub left : Stage
  pub right : Stage

-- the left thread takes a step at `true`, the right one at `false`
unfoldable pub interleave : ℕ → ℕ → List Bool → World → World
unfolding advance
interleave m n [] w = w
interleave m n (true ∷ turns) w =
    let (ch, s) = advance m w.channel w.left in
    interleave m n turns (record w { channel = ch; left = s })
interleave m n (false ∷ turns) w =
    let (ch, s) = advance n w.channel w.right in
    interleave m n turns (record w { channel = ch; right = s })

abbrev pub start : Channel → World
start ch = record { channel = ch; left = idle; right = idle }

-- Four steps in a row of one thread are a call of `submit`: it returns the same and leaves the
-- same channel.
pub interleave_alone :
    (ch : Channel) (regs : GpuRegs) (commands : List ℕ) (n : ℕ) (d : Device) (h : History)
    → let ((r, ch'), h') = submit ch regs commands d h in
      interleave (u32 (length commands * 4)) n (true ∷ true ∷ true ∷ true ∷ []) (start ch)
      ≡ record { channel = ch'; left = returned r; right = idle }
unfolding interleave submit
interleave_alone ch regs commands n d h = ground arith
