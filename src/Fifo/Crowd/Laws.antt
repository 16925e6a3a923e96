-- ===== src/Fifo/Crowd/Laws.antt =====
-- What overlapping calls of `Channel::submit` (src/fifo.rs) keep to.
use gpu_compute_nostd.Base.{
  ℕ, zero, suc, ◌+◌, ◌%◌, ◌^◌, ◌≤◌, ◌<◌, ◌≡◌, refl, sym, subst, none, some, List, [], ◌∷◌, arith,
  All, u32, ltb, Bool-cases, inl, inr,
}
use native.Mathlib.Nat.{mod-lt}
use gpu_compute_nostd.Fifo.Channel.{Channel}
use gpu_compute_nostd.Fifo.Submit.{IsValid}
use gpu_compute_nostd.Fifo.Race.{Stage, idle, loaded, added, counted, returned, advance}
use gpu_compute_nostd.Fifo.Crowd.{Call, turn, turns, moved_by, moved, total, Inside, fresh}

-- What holds at every moment of calls on a channel that was `c`, with `k` bytes moved by calls that
-- are not in the list.
record Held (c : Channel) (k : ℕ) (ch : Channel) (calls : List Call) : Type 0 where
  size : ch.push_size ≡ c.push_size
  start : ch.push_buffer.gpu_va ≡ c.push_buffer.gpu_va
  ring : ch.gpfifo_entries ≡ c.gpfifo_entries
  put : ch.gpfifo_put < c.gpfifo_entries
  offset : ch.push_offset ≡ c.push_offset + k + moved calls
  inside : All (Inside c) calls

moved_by_le : (t : Call) → moved_by t ≤ t.0
moved_by_le (n, idle) = omega arith
moved_by_le (n, loaded offset) = omega arith
moved_by_le (n, added a) = omega arith
moved_by_le (n, counted a idx) = omega arith
moved_by_le (n, returned none) = omega arith
moved_by_le (n, returned (some a)) = omega arith

moved-total : (calls : List Call) → moved calls ≤ total calls
moved-total [] = omega arith
moved-total (t ∷ calls) = omega (arith, moved_by_le t, moved-total calls)

total-turn : (i : ℕ) (ch : Channel) (calls : List Call) → total (turn i ch calls).1 ≡ total calls
unfolding turn
total-turn i ch [] = refl
total-turn zero ch (t ∷ calls) = refl
total-turn (suc i) ch (t ∷ calls) = omega (arith, total-turn i ch calls)

module _ (c : Channel) (v : IsValid c) where
  advance-Held :
      (k n : ℕ) (s : Stage) (ch : Channel) (calls : List Call)
      → c.push_size + k + (n + total calls) < 2 ^ 32
      → Held c k ch ((n, s) ∷ calls)
      → let (ch', s') = advance n ch s in Held c k ch' ((n, s') ∷ calls)
  unfolding advance
  advance-Held k n idle ch calls room held =
      let rest : moved calls ≤ total calls = moved-total calls in
      elim (Bool-cases (ltb ch.push_size (u32 (ch.push_offset + n)))) [
        | inl full ↦ rw full (record {
          size = held.size;
          start = held.start;
          ring = held.ring;
          put = held.put;
          offset = held.offset;
          inside = held.inside;
        })
        | inr fits ↦ rw fits (record {
          size = held.size;
          start = held.start;
          ring = held.ring;
          put = held.put;
          offset = held.offset;
          inside = (
            ground (arith, fits, room, rest, held.offset, held.size, v.offset_le),
            held.inside.1,
          );
        })
      ]
  advance-Held k n (loaded offset) ch calls room held =
      let rest : moved calls ≤ total calls = moved-total calls in
      record {
        size = held.size;
        start = held.start;
        ring = held.ring;
        put = held.put;
        offset = omega (arith, held.offset, room, rest, v.offset_le);
        inside = (omega (arith, held.inside.0, held.start, v.size_le, v.va_word), held.inside.1);
      }
  advance-Held k n (added a) ch calls room held = record {
    size = held.size;
    start = held.start;
    ring = held.ring;
    put = held.put;
    offset = held.offset;
    inside = held.inside;
  }
  advance-Held k n (counted a idx) ch calls room held = record {
    size = held.size;
    start = held.start;
    ring = held.ring;
    put =
        subst (λ e. u32 (idx + 1) % e < c.gpfifo_entries) (sym held.ring)
          (mod-lt (u32 (idx + 1)) (omega (arith, v.put_lt)));
    offset = held.offset;
    inside = held.inside;
  }
  advance-Held k n (returned r) ch calls room held = held

  turn-Held :
      (i k : ℕ) (ch : Channel) (calls : List Call)
      → c.push_size + k + total calls < 2 ^ 32
      → Held c k ch calls
      → let (ch', calls') = turn i ch calls in Held c k ch' calls'
  unfolding turn
  turn-Held i k ch [] room held = held
  turn-Held zero k ch ((n, s) ∷ calls) room held = advance-Held k n s ch calls room held
  turn-Held (suc i) k ch (t ∷ calls) room held =
      let one : moved_by t ≤ t.0 = moved_by_le t in
      let before : Held c (k + moved_by t) ch calls = record {
        size = held.size;
        start = held.start;
        ring = held.ring;
        put = held.put;
        offset = omega (arith, held.offset);
        inside = held.inside.1;
      } in
      let after = turn-Held i (k + moved_by t) ch calls (omega (arith, room, one)) before in
      record {
        size = after.size;
        start = after.start;
        ring = after.ring;
        put = after.put;
        offset = omega (arith, after.offset);
        inside = (held.inside.0, after.inside);
      }

  turns-Held :
      (order : List ℕ) (ch : Channel) (calls : List Call)
      → c.push_size + total calls < 2 ^ 32
      → Held c 0 ch calls
      → let (ch', calls') = turns order ch calls in Held c 0 ch' calls'
  unfolding turns
  turns-Held [] ch calls room held = held
  turns-Held (i ∷ order) ch calls room held =
      let (ch', calls') = turn i ch calls in
      turns-Held order ch' calls' (omega (arith, room, total-turn i ch calls))
        (turn-Held i 0 ch calls (omega (arith, room)) held)

fresh-Inside : (c : Channel) (lens : List ℕ) → All (Inside c) (fresh lens)
fresh-Inside c [] = tt
fresh-Inside c (n ∷ lens) = (tt, fresh-Inside c lens)

moved-fresh : (lens : List ℕ) → moved (fresh lens) ≡ 0
moved-fresh [] = refl
moved-fresh (n ∷ lens) = omega (arith, moved-fresh lens)

-- Any number of calls on a valid channel, at every moment and in whatever order their steps come, as
-- long as the sizes submitted do not wrap the offset: the offset has moved by exactly what the calls
-- that are past their test have added, none of it lost; the put index is in the ring; and each
-- segment handed out or about to be is inside the push buffer, behind what was used before.
pub turns-Inside :
    (c : Channel) (lens order : List ℕ)
    → IsValid c
    → c.push_size + total (fresh lens) < 2 ^ 32
    → let (ch, calls) = turns order c (fresh lens) in
      (ch.push_offset ≡ c.push_offset + moved calls)
      × (ch.gpfifo_put < c.gpfifo_entries)
      × All (Inside c) calls
turns-Inside c lens order v room =
    let held = turns-Held c v order c (fresh lens) room (record {
      size = refl;
      start = refl;
      ring = refl;
      put = v.put_lt;
      offset = omega (arith, moved-fresh lens);
      inside = fresh-Inside c lens;
    }) in
    (omega (arith, held.offset), held.put, held.inside)
