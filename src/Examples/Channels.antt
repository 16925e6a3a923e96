-- ===== src/Examples/Channels.antt =====
-- The theorems on src/fifo.rs at a channel of 64 bytes, and runs of its operations.
use gpu_compute_nostd.Base.{
  ◌≢◌, ◌↔◌, ℕ, ◌+◌, ◌*◌, ◌%◌, ◌≤◌, ◌<◌, ◌≡◌, ◌⊎◌, refl, Bool, true, false, some, none, List, [],
  ◌∷◌, ◌++◌, arith, All, length,
}
use gpu_compute_nostd.Hardware.{store}
use gpu_compute_nostd.Mmio.{write32}
use gpu_compute_nostd.Memory
use gpu_compute_nostd.Memory.{
  GpuAllocation, VramAllocator, unknown, allocate, first_fit, align_page,
}
use gpu_compute_nostd.Memory.Detect.{init_from, reserved, decode_vram_size}
use gpu_compute_nostd.Memory.Sequence.{init_from-IsValid}
use gpu_compute_nostd.Fifo.Method.{gpu_method_incr, gpu_method_nonincr}
use gpu_compute_nostd.Fifo.Channel.{Channel, submit}
use gpu_compute_nostd.Fifo.Submit.{
  IsValid, submit_all, IsLaidOut, submit_cases, submit_all-IsLaidOut,
}
use gpu_compute_nostd.Fifo.Headers.{gpu_method_iff}
use gpu_compute_nostd.Fifo.Race.{returned, interleave, start}
use gpu_compute_nostd.Fifo.Race.Overlap.{interleave_overlaps}
use gpu_compute_nostd.Fifo.Crowd.{turns, fresh, moved, Inside}
use gpu_compute_nostd.Fifo.Crowd.Laws.{turns-Inside}
use gpu_compute_nostd.Fifo.Runlist.{Runlist, add_channel, remove_channel, commit}
use gpu_compute_nostd.Fifo.Runlist.Order.{
  Edit, add, remove, edit_all, retained, survivors, edit_all-survivors,
}
use gpu_compute_nostd.Fifo.Runlist.Commit.{commit_lem}
use gpu_compute_nostd.Examples.Machines.{ram, board}

abbrev block_at : ℕ → ℕ → GpuAllocation
block_at va size = record {
  gpu_va = va;
  phys_addr = va;
  size = size;
  cpu_mapped = false;
  cpu_va = 0;
}

abbrev narrow : Channel
narrow = record {
  id = 3;
  gpfifo = block_at 0x1000 0x1000;
  push_buffer = block_at 0x2000 0x1000;
  gpfifo_entries = 4;
  gpfifo_put = 3;
  push_offset = 16;
  push_size = 64;
  engine_id = 0;
  doorbell_offset = 0x90018;
}

narrow-IsValid : IsValid narrow
narrow-IsValid = record {
  offset_le = omega arith;
  size_le = omega arith;
  size_word = omega arith;
  va_word = omega arith;
  put_lt = omega arith;
  entries_word = omega arith;
}

abbrev three_words : List ℕ
three_words = 1 ∷ 2 ∷ 3 ∷ []

submit_cases_example :
    let n = length three_words * 4 in
    let ((r, ch'), h') = submit narrow board three_words ram [] in
    ((narrow.push_size < narrow.push_offset + n) × (r ≡ none) × (ch' ≡ narrow) × (h' ≡ []))
    ⊎ ((narrow.push_offset + n ≤ narrow.push_size)
        × (r ≡ some (narrow.push_buffer.gpu_va + narrow.push_offset))
        × (ch' ≡ record narrow {
          push_offset = narrow.push_offset + n;
          gpfifo_put = (narrow.gpfifo_put + 1) % narrow.gpfifo_entries;
        })
        × (h' ≡ store (board.bar0 + narrow.doorbell_offset) ch'.gpfifo_put ∷ []))
submit_cases_example = submit_cases narrow board three_words ram [] narrow-IsValid (omega arith)

-- The put index wraps at the ring's four entries.
ring_wraps : (submit narrow board three_words ram []).1 ≡ store 0x90018 0 ∷ []
unfolding submit write32
ring_wraps = refl

submit_all-IsLaidOut_example :
    let ((segments, ch'), h') =
      submit_all narrow board (three_words ∷ three_words ∷ three_words ∷ []) ram [] in
    IsLaidOut
      (narrow.push_buffer.gpu_va + narrow.push_offset)
      (narrow.push_buffer.gpu_va + narrow.push_size)
      segments
    × IsValid ch'
submit_all-IsLaidOut_example =
    submit_all-IsLaidOut narrow board (three_words ∷ three_words ∷ three_words ∷ []) ram []
      narrow-IsValid (omega arith)

-- an allocator over 8 MiB, the channel that it gives, and what it is then
abbrev eight_mib : VramAllocator
eight_mib = init_from 0 8 0 0 0

-- counts of 1 and 4097
gpu_method_iff_example :
    ((gpu_method_incr 5 0x2B8 1 ≡ gpu_method_incr 5 0x2B8 4097)
      ↔ ((◌≡◌ {A = ℕ} 5 5) × (◌≡◌ {A = ℕ} 0x2B8 0x2B8) × (1 % 4096 ≡ 4097 % 4096)))
    × ((gpu_method_nonincr 5 0x2B8 1 ≡ gpu_method_nonincr 5 0x2B8 4097)
        ↔ ((◌≡◌ {A = ℕ} 5 5) × (◌≡◌ {A = ℕ} 0x2B8 0x2B8) × (1 % 8192 ≡ 4097 % 8192)))
    × (gpu_method_incr 5 0x2B8 1 ≢ gpu_method_nonincr 5 0x2B8 4097)
gpu_method_iff_example = gpu_method_iff 5 0x2B8 1 5 0x2B8 4097 (omega arith) (omega arith)

-- the right thread loads first, and the left one is done before the right one goes on
abbrev order : List Bool
order = true ∷ true ∷ true ∷ true ∷ false ∷ false ∷ false ∷ false ∷ []

interleave_overlaps_example :
    let w = interleave 48 16 (false ∷ true ∷ order) (start narrow) in
    (w.left ≡ returned (some (narrow.push_buffer.gpu_va + narrow.push_offset)))
    × (w.right ≡ w.left)
    × (w.channel.push_offset ≡ narrow.push_offset + 48 + 16)
interleave_overlaps_example =
    interleave_overlaps narrow 48 16 false order narrow-IsValid (omega arith) (omega arith)
      (omega arith) (omega arith)

-- three calls at once, of which the first two load before either adds
turns-Inside_example :
    let (ch, calls) =
      turns
        (0 ∷ 1 ∷ 0 ∷ 1 ∷ 2 ∷ 0 ∷ 1 ∷ 2 ∷ 2 ∷ 0 ∷ 1 ∷ 2 ∷ [])
        narrow
        (fresh (16 ∷ 16 ∷ 12 ∷ [])) in
    (ch.push_offset ≡ narrow.push_offset + moved calls)
    × (ch.gpfifo_put < narrow.gpfifo_entries)
    × All (Inside narrow) calls
turns-Inside_example =
    turns-Inside narrow (16 ∷ 16 ∷ 12 ∷ []) (0 ∷ 1 ∷ 0 ∷ 1 ∷ 2 ∷ 0 ∷ 1 ∷ 2 ∷ 2 ∷ 0 ∷ 1 ∷ 2 ∷ [])
      narrow-IsValid (omega arith)

abbrev roster : Runlist
roster = record { id = 0; channels = 1 ∷ 2 ∷ 1 ∷ []; allocation = none }

abbrev edits : List Edit
edits = add 3 ∷ remove 1 ∷ add 1 ∷ remove 2 ∷ []

edit_all-survivors_example :
    ((edit_all edits roster).channels ≡ retained edits roster.channels ++ survivors edits)
    × ((edit_all edits roster).id ≡ roster.id)
    × ((edit_all edits roster).allocation ≡ roster.allocation)
edit_all-survivors_example = edit_all-survivors edits roster

edited : (edit_all edits roster).channels ≡ 3 ∷ 1 ∷ []
unfolding edit_all add_channel remove_channel
edited = refl

commit_lem_example :
    ((roster.channels ≡ []) × (commit roster eight_mib ≡ (roster, eight_mib)))
    ⊎ ((0 < length roster.channels * 8)
        × All (λ region. region.size < align_page (length roster.channels * 8)) eight_mib.free_list
        × (commit roster eight_mib ≡ (roster, eight_mib)))
    ⊎ ((0 < length roster.channels * 8)
        × ((a : GpuAllocation) × (v' : VramAllocator) × (commit roster eight_mib
              ≡ (record roster { allocation = some a }, v'))
            × (length roster.channels * 8 ≤ a.size)
            × Memory.Laws.IsValid reserved 0x800000 v' (a ∷ [])))
unfolding init_from decode_vram_size
commit_lem_example =
    commit_lem {lo = reserved} {hi = 0x800000} {blocks = []} roster eight_mib
      (init_from-IsValid 0 8 0 0 0) (omega arith) (omega arith)
