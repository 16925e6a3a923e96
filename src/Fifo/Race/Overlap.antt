-- ===== src/Fifo/Race/Overlap.antt =====
-- Two calls of `Channel::submit` (src/fifo.rs) that load the same offset: what they return, and what
-- they leave of the offset.
use gpu_compute_nostd.Base.{
  ℕ, ◌+◌, ◌-◌, ◌^◌, ◌≤◌, ◌<◌, ◌≡◌, refl, ap, sym, ◌∙◌, Bool, true, false, not, some, List, [], ◌∷◌,
  arith,
}
use gpu_compute_nostd.Fifo.Channel.{Channel}
use gpu_compute_nostd.Fifo.Submit.{IsValid}
use gpu_compute_nostd.Fifo.Race.{
  Stage, idle, loaded, added, counted, returned, advance, World, interleave, start,
}

-- the turns that a thread gets
abbrev pub taken : Bool → List Bool → ℕ
taken thread [] = 0
taken true (true ∷ turns) = 1 + taken true turns
taken true (false ∷ turns) = taken true turns
taken false (true ∷ turns) = taken false turns
taken false (false ∷ turns) = 1 + taken false turns

-- the steps that a thread has left
to_go : Stage → ℕ
to_go idle = 4
to_go (loaded o) = 3
to_go (added va) = 2
to_go (counted va i) = 1
to_go (returned r) = 0

-- what a thread of `n` bytes has added to the offset
moved_by : Stage → ℕ → ℕ
moved_by idle n = 0
moved_by (loaded o) n = 0
moved_by (added va) n = n
moved_by (counted va i) n = n
moved_by (returned r) n = n

-- a thread that loaded the offset at which the channel stood at first
HasLoaded : Channel → Stage → Type 0
HasLoaded ch idle = ⊥
HasLoaded ch (loaded o) = o ≡ ch.push_offset
HasLoaded ch (added va) = va ≡ ch.push_buffer.gpu_va + ch.push_offset
HasLoaded ch (counted va i) = va ≡ ch.push_buffer.gpu_va + ch.push_offset
HasLoaded ch (returned r) = r ≡ some (ch.push_buffer.gpu_va + ch.push_offset)

moved_by_le : (s : Stage) (n : ℕ) → moved_by s n ≤ n
unfolding moved_by
moved_by_le idle n = omega arith
moved_by_le (loaded o) n = omega arith
moved_by_le (added va) n = omega arith
moved_by_le (counted va i) n = omega arith
moved_by_le (returned r) n = omega arith

-- a step of a thread that has loaded, on a channel that others moved to `base`
advance-HasLoaded :
    (ch c : Channel) (s : Stage) (base n : ℕ)
    → IsValid ch
    → HasLoaded ch s
    → c.push_buffer ≡ ch.push_buffer
    → c.push_offset ≡ base + moved_by s n
    → base + n < 2 ^ 32
    → let (c', s') = advance n c s in
      HasLoaded ch s'
      × (c'.push_buffer ≡ ch.push_buffer)
      × (c'.push_offset ≡ base + moved_by s' n)
      × (to_go s' ≤ to_go s - 1)
unfolding advance HasLoaded moved_by to_go
advance-HasLoaded ch c idle base n v past buffer offset room = absurd past
advance-HasLoaded ch c (loaded o) base n v past buffer offset room = (
  rw (past, buffer) omega (arith, v.va_word, v.offset_le, v.size_le),
  buffer,
  omega arith,
  omega arith,
)
advance-HasLoaded ch c (added va) base n v past buffer offset room =
    (past, buffer, offset, omega arith)
advance-HasLoaded ch c (counted va i) base n v past buffer offset room =
    (ap some past, buffer, offset, omega arith)
advance-HasLoaded ch c (returned r) base n v past buffer offset room =
    (past, buffer, offset, omega arith)

returned_once :
    (ch : Channel) (s : Stage) (n : ℕ)
    → HasLoaded ch s
    → to_go s ≤ 0
    → (s ≡ returned (some (ch.push_buffer.gpu_va + ch.push_offset))) × (moved_by s n ≡ n)
unfolding HasLoaded moved_by to_go
returned_once ch idle n past done = absurd past
returned_once ch (loaded o) n past done = absurd (omega arith)
returned_once ch (added va) n past done = absurd (omega arith)
returned_once ch (counted va i) n past done = absurd (omega arith)
returned_once ch (returned r) n past done = (ap returned past, refl)

-- two threads that both loaded at the start of the channel `ch`
record BothLoaded (ch : Channel) (m n : ℕ) (w : World) : Type 0 where
  left : HasLoaded ch w.left
  right : HasLoaded ch w.right
  buffer : w.channel.push_buffer ≡ ch.push_buffer
  offset : w.channel.push_offset ≡ ch.push_offset + moved_by w.left m + moved_by w.right n

interleave-BothLoaded :
    (ch : Channel) (m n : ℕ) (turns : List Bool) (w : World)
    → IsValid ch
    → ch.push_offset + m ≤ ch.push_size
    → ch.push_offset + n ≤ ch.push_size
    → BothLoaded ch m n w
    → to_go w.left ≤ taken true turns
    → to_go w.right ≤ taken false turns
    → let w' = interleave m n turns w in
      (w'.left ≡ returned (some (ch.push_buffer.gpu_va + ch.push_offset)))
      × (w'.right ≡ w'.left)
      × (w'.channel.push_offset ≡ ch.push_offset + m + n)
unfolding interleave
interleave-BothLoaded ch m n [] w v fits fits' both done done' =
    let (l, moved) = returned_once ch w.left m both.left done in
    let (r, moved') = returned_once ch w.right n both.right done' in
    (l, r ∙ sym l, omega (arith, both.offset, moved, moved'))
interleave-BothLoaded ch m n (true ∷ turns) w v fits fits' both done done' =
    let (c, s) = advance m w.channel w.left in
    let (past, buffer, offset, fewer) =
      advance-HasLoaded ch w.channel w.left (ch.push_offset + moved_by w.right n) m v both.left
        both.buffer (omega (arith, both.offset))
        (omega (arith, v.size_word, moved_by_le w.right n)) in
    interleave-BothLoaded ch m n turns (record w { channel = c; left = s }) v fits fits'
      (record { left = past; right = both.right; buffer = buffer; offset = omega (arith, offset) })
      (omega (arith, fewer)) done'
interleave-BothLoaded ch m n (false ∷ turns) w v fits fits' both done done' =
    let (c, s) = advance n w.channel w.right in
    let (past, buffer, offset, fewer) =
      advance-HasLoaded ch w.channel w.right (ch.push_offset + moved_by w.left m) n v both.right
        both.buffer (omega (arith, both.offset))
        (omega (arith, v.size_word, moved_by_le w.left m)) in
    interleave-BothLoaded ch m n turns (record w { channel = c; right = s }) v fits fits'
      (record { left = both.left; right = past; buffer = buffer; offset = omega (arith, offset) })
      done (omega (arith, fewer))

advance-idle :
    (ch : Channel) (n : ℕ)
    → IsValid ch
    → ch.push_offset + n ≤ ch.push_size
    → advance n ch idle ≡ (ch, loaded ch.push_offset)
unfolding advance
advance-idle ch n v fits = ground (arith, v.size_word)

abbrev both_loaded : Channel → World
both_loaded ch = record {
  channel = ch;
  left = loaded ch.push_offset;
  right = loaded ch.push_offset;
}

interleave-both_loaded :
    (ch : Channel) (m n : ℕ) (turns : List Bool)
    → IsValid ch
    → ch.push_offset + m ≤ ch.push_size
    → ch.push_offset + n ≤ ch.push_size
    → 3 ≤ taken true turns
    → 3 ≤ taken false turns
    → let w = interleave m n turns (both_loaded ch) in
      (w.left ≡ returned (some (ch.push_buffer.gpu_va + ch.push_offset)))
      × (w.right ≡ w.left)
      × (w.channel.push_offset ≡ ch.push_offset + m + n)
unfolding HasLoaded moved_by to_go
interleave-both_loaded ch m n turns v fits fits' =
    interleave-BothLoaded ch m n turns (both_loaded ch) v fits fits'
      (record { left = refl; right = refl; buffer = refl; offset = omega arith })

-- Two calls on a valid channel, of `m` and `n` bytes, that each find room and both load before either
-- adds: whichever loads first, and in whatever order they take the rest of their turns, three at
-- least for each, both are handed the segment at the offset that they loaded, while the offset moves
-- by both sizes, to behind the push buffer if these do not both fit.
pub interleave_overlaps :
    (ch : Channel) (m n : ℕ) (first : Bool) (turns : List Bool)
    → IsValid ch
    → ch.push_offset + m ≤ ch.push_size
    → ch.push_offset + n ≤ ch.push_size
    → 3 ≤ taken true turns
    → 3 ≤ taken false turns
    → let w = interleave m n (first ∷ not first ∷ turns) (start ch) in
      (w.left ≡ returned (some (ch.push_buffer.gpu_va + ch.push_offset)))
      × (w.right ≡ w.left)
      × (w.channel.push_offset ≡ ch.push_offset + m + n)
unfolding interleave
interleave_overlaps ch m n true turns v fits fits' enough enough' =
    rw (advance-idle ch m v fits, advance-idle ch n v fits')
      (interleave-both_loaded ch m n turns v fits fits' enough enough')
interleave_overlaps ch m n false turns v fits fits' enough enough' =
    rw (advance-idle ch n v fits', advance-idle ch m v fits)
      (interleave-both_loaded ch m n turns v fits fits' enough enough')
