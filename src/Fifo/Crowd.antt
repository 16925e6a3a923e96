-- ===== src/Fifo/Crowd.antt =====
-- Any number of overlapping calls of `Channel::submit` (src/fifo.rs) on one channel, each in its four
-- atomic steps.
pub mod Laws
use gpu_compute_nostd.Base.{ℕ, zero, suc, ◌+◌, ◌≤◌, none, some, List, [], ◌∷◌, arith}
use gpu_compute_nostd.Fifo.Channel.{Channel}
use gpu_compute_nostd.Fifo.Race.{Stage, idle, loaded, added, counted, returned, advance}

-- a call: the bytes that it submits, and where it stands
abbrev pub Call : Type 0
Call = ℕ × Stage

-- the call with this number takes its next step
unfoldable pub turn : ℕ → Channel → List Call → Channel × List Call
unfolding advance
turn i ch [] = (ch, [])
turn zero ch ((n, s) ∷ calls) = let (ch', s') = advance n ch s in (ch', (n, s') ∷ calls)
turn (suc i) ch (t ∷ calls) = let (ch', calls') = turn i ch calls in (ch', t ∷ calls')

unfoldable pub turns : List ℕ → Channel → List Call → Channel × List Call
unfolding turn
turns [] ch calls = (ch, calls)
turns (i ∷ order) ch calls = let (ch', calls') = turn i ch calls in turns order ch' calls'

-- the bytes that a call has added to the offset
abbrev pub moved_by : Call → ℕ
moved_by (n, idle) = 0
moved_by (n, loaded offset) = 0
moved_by (n, added a) = n
moved_by (n, counted a idx) = n
moved_by (n, returned none) = 0
moved_by (n, returned (some a)) = n

abbrev pub moved : List Call → ℕ
moved [] = 0
moved (t ∷ calls) = moved_by t + moved calls

-- the bytes that the calls submit
abbrev pub total : List Call → ℕ
total [] = 0
total ((n, s) ∷ calls) = n + total calls

-- The segment that a call is about to take, or has, lies in what the channel `c` had left.
abbrev pub Inside : Channel → Call → Type 0
Inside c (n, idle) = Unit
Inside c (n, loaded offset) = (c.push_offset ≤ offset) × (offset + n ≤ c.push_size)
Inside c (n, added a) =
    (c.push_buffer.gpu_va + c.push_offset ≤ a) × (a + n ≤ c.push_buffer.gpu_va + c.push_size)
Inside c (n, counted a idx) =
    (c.push_buffer.gpu_va + c.push_offset ≤ a) × (a + n ≤ c.push_buffer.gpu_va + c.push_size)
Inside c (n, returned none) = Unit
Inside c (n, returned (some a)) =
    (c.push_buffer.gpu_va + c.push_offset ≤ a) × (a + n ≤ c.push_buffer.gpu_va + c.push_size)

-- calls that have not begun, of so many bytes each
abbrev pub fresh : List ℕ → List Call
fresh [] = []
fresh (n ∷ lens) = (n, idle) ∷ fresh lens
