-- ===== src/Fifo/Submit.antt =====
-- `Channel::allocate` and `Channel::submit` of src/fifo.rs, for calls that do not overlap.
use gpu_compute_nostd.Base.{
  ℕ, ◌+◌, ◌*◌, ◌%◌, ◌^◌, ◌≤◌, ◌<◌, ◌≡◌, ◌⊎◌, subst, inl, inr, refl, Option, none, some, List, [],
  ◌∷◌, arith, length, All,
}
use native.Mathlib.Nat.{mod-lt}
use gpu_compute_nostd.Hardware.{Io, pure, ◌>>=◌, store, Device, History}
use gpu_compute_nostd.Mmio.{GpuRegs, write32}
use gpu_compute_nostd.Memory.{GpuAllocation, VramAllocator, allocate}
use gpu_compute_nostd.Memory
use gpu_compute_nostd.Memory.Laws.{allocate-IsValid, allocate-size, allocate_outcome}
use gpu_compute_nostd.Fifo.Channel.{
  Channel, opened, default_gpfifo_entries, default_push_buffer_size, allocate_channel, submit,
}

pub record IsValid (ch : Channel) : Type 0 where
  pub offset_le : ch.push_offset ≤ ch.push_size
  pub size_le : ch.push_size ≤ ch.push_buffer.size
  pub size_word : ch.push_size < 2 ^ 31
  pub va_word : ch.push_buffer.gpu_va + ch.push_buffer.size < 2 ^ 64
  pub put_lt : ch.gpfifo_put < ch.gpfifo_entries
  pub entries_word : ch.gpfifo_entries < 2 ^ 32

-- On a valid channel a submission of `n` words, of less than 2 GiB, either finds too little room, and then touches nothing, or takes the
-- next `4 * n` bytes of the push buffer, moves the put index on by one modulo the ring, and rings
-- the doorbell with it, its only access to the device.
pub submit_cases :
    (ch : Channel) (regs : GpuRegs) (commands : List ℕ) (d : Device) (h : History)
    → IsValid ch
    → length commands * 4 < 2 ^ 31
    → let n = length commands * 4 in
      let ((r, ch'), h') = submit ch regs commands d h in
      ((ch.push_size < ch.push_offset + n) × (r ≡ none) × (ch' ≡ ch) × (h' ≡ h))
      ⊎ ((ch.push_offset + n ≤ ch.push_size)
          × (r ≡ some (ch.push_buffer.gpu_va + ch.push_offset))
          × (ch' ≡ record ch {
            push_offset = ch.push_offset + n;
            gpfifo_put = (ch.gpfifo_put + 1) % ch.gpfifo_entries;
          })
          × (h' ≡ store (regs.bar0 + ch.doorbell_offset) ch'.gpfifo_put ∷ h))
unfolding submit write32
submit_cases ch regs commands d h v short = ground arith

-- A submission keeps the channel valid.
pub submit-IsValid :
    (ch : Channel) (regs : GpuRegs) (commands : List ℕ) (d : Device) (h : History)
    → IsValid ch
    → length commands * 4 < 2 ^ 31
    → IsValid (submit ch regs commands d h).0.1
submit-IsValid ch regs commands d h v short = elim (submit_cases ch regs commands d h v short) [
  | inl (full, none_returned, same, quiet) ↦ rw same v
  | inr (room, returned, moved, kicked) ↦ rw moved (record {
    offset_le = room;
    size_le = v.size_le;
    size_word = v.size_word;
    va_word = v.va_word;
    put_lt = mod-lt (ch.gpfifo_put + 1) (omega (arith, v.put_lt));
    entries_word = v.entries_word;
  })
]

-- the address and size in bytes of each accepted submission, in order
abbrev pub noted : Option ℕ → List ℕ → List (ℕ × ℕ) → List (ℕ × ℕ)
noted none commands rest = rest
noted (some va) commands rest = (va, length commands * 4) ∷ rest

-- Several submissions in a row; one that finds no room is skipped.
unfoldable pub submit_all : Channel → GpuRegs → List (List ℕ) → Io (List (ℕ × ℕ) × Channel)
submit_all ch regs [] = pure ([], ch)
submit_all ch regs (commands ∷ more) = do
  t ← submit ch regs commands
  s ← submit_all t.1 regs more
  pure (noted t.0 commands s.0, s.1)

-- the segments follow one another in `[lo, hi)`
abbrev pub IsLaidOut : ℕ → ℕ → List (ℕ × ℕ) → Type 0
IsLaidOut lo hi [] = Unit
IsLaidOut lo hi ((va, n) ∷ rest) = (lo ≤ va) × (va + n ≤ hi) × IsLaidOut (va + n) hi rest

abbrev pub AreShort : List (List ℕ) → Type 0
AreShort = All (λ c. length c * 4 < 2 ^ 31)

IsLaidOut-from :
    {lo lo' : ℕ} (hi : ℕ) (segments : List (ℕ × ℕ))
    → lo ≤ lo'
    → IsLaidOut lo' hi segments
    → IsLaidOut lo hi segments
IsLaidOut-from hi [] le l = tt
IsLaidOut-from hi (s ∷ rest) le l = (omega (arith, l.0), l.1, l.2)

-- the segments lie in what is left of the channel's push buffer
abbrev FitsRest : Channel → List (ℕ × ℕ) → Type 0
FitsRest ch =
    IsLaidOut (ch.push_buffer.gpu_va + ch.push_offset) (ch.push_buffer.gpu_va + ch.push_size)

FitsRest-skip :
    (ch ch' : Channel) (r : Option ℕ) (c : List ℕ) (rest : List (ℕ × ℕ))
    → r ≡ none
    → ch' ≡ ch
    → FitsRest ch' rest
    → FitsRest ch (noted r c rest)
FitsRest-skip ch ch' r c rest none_returned same l =
    rw none_returned (subst (λ k. FitsRest k rest) same l)

FitsRest-take :
    (ch ch' : Channel) (r : Option ℕ) (c : List ℕ) (rest : List (ℕ × ℕ))
    → let n = length c * 4 in
      ch.push_offset + n ≤ ch.push_size
      → r ≡ some (ch.push_buffer.gpu_va + ch.push_offset)
      → ch' ≡ record ch {
        push_offset = ch.push_offset + n;
        gpfifo_put = (ch.gpfifo_put + 1) % ch.gpfifo_entries;
      }
      → FitsRest ch' rest
      → FitsRest ch (noted r c rest)
FitsRest-take ch ch' r c rest room returned moved l = rw returned (
  omega arith,
  omega arith,
  IsLaidOut-from (ch.push_buffer.gpu_va + ch.push_size) rest (omega arith)
      (subst (λ k. FitsRest k rest) moved l),
)

-- On a valid channel the segments of submissions in a row, each of less than 2 GiB, lie one behind
-- the other, with no overlap, in what was left of the push buffer; and the channel stays valid.
pub submit_all-IsLaidOut :
    (ch : Channel) (regs : GpuRegs) (all : List (List ℕ)) (d : Device) (h : History)
    → IsValid ch
    → AreShort all
    → let ((segments, ch'), h') = submit_all ch regs all d h in
      IsLaidOut
        (ch.push_buffer.gpu_va + ch.push_offset)
        (ch.push_buffer.gpu_va + ch.push_size)
        segments
      × IsValid ch'
unfolding submit_all
submit_all-IsLaidOut ch regs [] d h v short = (tt, v)
submit_all-IsLaidOut ch regs (c ∷ cs) d h v short =
    let t = submit ch regs c d h in
    let later =
      submit_all-IsLaidOut t.0.1 regs cs d t.1 (submit-IsValid ch regs c d h v short.0) short.1 in
    elim (submit_cases ch regs c d h v short.0) [
      | inl (full, none_returned, same, quiet) ↦ (
        FitsRest-skip ch t.0.1 t.0.0 c (submit_all t.0.1 regs cs d t.1).0.0 none_returned same
            later.0,
        later.1,
      )
      | inr (room, returned, moved, kicked) ↦ (
        FitsRest-take ch t.0.1 t.0.0 c (submit_all t.0.1 regs cs d t.1).0.0 room returned moved
            later.0,
        later.1,
      )
    ]

-- A successful call has made both allocations, the GPFIFO's first.
pub allocate_channel-some :
    (v v' : VramAllocator) (id engine : ℕ) (ch : Channel)
    → allocate_channel v id engine ≡ (some ch, v')
    → (g : GpuAllocation) × (p : GpuAllocation) × (v1 : VramAllocator) × (allocate v
          (default_gpfifo_entries * 8)
        ≡ (some g, v1))
      × (allocate v1 default_push_buffer_size ≡ (some p, v'))
      × (opened id engine g p ≡ ch)
unfolding allocate_channel
allocate_channel-some v v' id engine ch e = elim (allocate_outcome v (default_gpfifo_entries * 8)) [
  | inl full ↦ absurd (ground (arith, full, e))
  | inr (g, v1, one) ↦ elim (allocate_outcome v1 default_push_buffer_size) [
    | inl full ↦ absurd (ground (arith, one, full, e))
    | inr (p, v2, two) ↦ (g, p, v1, one, ground (arith, one, two, e), ground (arith, one, two, e))
  ]
]

-- A channel that `Channel::allocate` returns is valid and empty, its two buffers are blocks of the
-- allocator, which stays valid with them, and its doorbell is the eight bytes of its own.
pub allocate_channel-IsValid :
    {lo hi : ℕ} {v v' : VramAllocator} {blocks : List GpuAllocation} (id engine : ℕ) {ch : Channel}
    → Memory.Laws.IsValid lo hi v blocks
    → v.next_gpu_va + 2 ^ 19 < 2 ^ 64
    → id < 2 ^ 16
    → allocate_channel v id engine ≡ (some ch, v')
    → IsValid ch
      × Memory.Laws.IsValid lo hi v' (ch.push_buffer ∷ ch.gpfifo ∷ blocks)
      × (ch.push_offset ≡ 0)
      × (ch.gpfifo.size ≡ ch.gpfifo_entries * 8)
      × (ch.doorbell_offset ≡ 0x90000 + id * 8)
allocate_channel-IsValid {lo} {hi} {v} {v'} {blocks} id engine {ch} valid room small e =
    let (g, p, v1, one, two, made) = allocate_channel-some v v' id engine ch e in
    let size1 = allocate-size v (default_gpfifo_entries * 8) (omega arith) one in
    let size2 = allocate-size v1 default_push_buffer_size (omega (arith, size1)) two in
    let valid1 = allocate-IsValid (default_gpfifo_entries * 8) valid (omega arith) one in
    let valid2 = allocate-IsValid default_push_buffer_size valid1 (omega (arith, size1)) two in
    subst
      (λ c.
        IsValid c
        × Memory.Laws.IsValid lo hi v' (c.push_buffer ∷ c.gpfifo ∷ blocks)
        × (c.push_offset ≡ 0)
        × (c.gpfifo.size ≡ c.gpfifo_entries * 8)
        × (c.doorbell_offset ≡ 0x90000 + id * 8))
      made
      (
        record {
          offset_le = omega arith;
          size_le = omega (arith, size2);
          size_word = omega arith;
          va_word = omega (arith, size1, size2);
          put_lt = omega arith;
          entries_word = omega arith;
        },
        valid2,
        refl,
        omega (arith, size1),
        omega arith,
      )
