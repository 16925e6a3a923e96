-- ===== src/Falcon/Memory.antt =====
-- What the uploads of src/falcon.rs leave in the unit's instruction and data memory. The memories are
-- hardware: `Port` is how the comments in `upload_imem` say that they work, for any unit of the offset
-- in place of the blocks that they name, and is a parameter.
pub mod Loads
use gpu_compute_nostd.Base.{
  ℕ, zero, suc, ◌+◌, ◌*◌, ◌/◌, ◌%◌, ◌^◌, ◌≤◌, ◌<◌, ◌≡◌, ◌≢◌, ◌⊎◌, refl, ap, sym, ◌∙◌, Bool, true,
  List, [], ◌∷◌, arith, All, length, inl, inr, ◌==◌,
}
use mathlib.Core.Path.{ap₂}
use gpu_compute_nostd.Hardware.{store, History}
use gpu_compute_nostd.Falcon.Upload.{words, stores}

-- A memory behind a control and a data register. A word stored in the control register sets the place
-- to `step` times its bits 2 to 15, and the auto-increment to its bit 25. `step` is the number of words
-- that those bits count by: 64 if they count blocks of 256 bytes, as the comment in `upload_imem` says,
-- and 1 if they are the number of a word, as the code there sets them. A word stored in the data
-- register goes to the place, which then moves on if the auto-increment is set. Stores to the
-- `Spared` addresses leave the memory alone.
pub record Port (step control port : ℕ) (Spared : ℕ → Type 0) : Type 0 where
  pub cells : History → ℕ → ℕ
  pub place : History → ℕ
  pub increments : History → Bool
  pub seek : (v : ℕ) (h : History) → place (store control v ∷ h) ≡ v / 4 % 2 ^ 14 * step
  pub mode : (v : ℕ) (h : History) → increments (store control v ∷ h) ≡ (v / 2 ^ 25 % 2 == 1)
  pub mode_kept : (w : ℕ) (h : History) → increments (store port w ∷ h) ≡ increments h
  pub here : (w : ℕ) (h : History) → cells (store port w ∷ h) (place h) ≡ w
  pub elsewhere : (w i : ℕ) (h : History) → i ≢ place h → cells (store port w ∷ h) i ≡ cells h i
  pub next :
      (w : ℕ) (h : History)
      → increments h ≡ true
      → place h + 1 < 2 ^ 14 * step
      → place (store port w ∷ h) ≡ place h + 1
  pub control_keeps : (v i : ℕ) (h : History) → cells (store control v ∷ h) i ≡ cells h i
  pub keeps : (a v i : ℕ) (h : History) → Spared a → cells (store a v ∷ h) i ≡ cells h i

-- the `n` words from place `p` on
abbrev pub peek : (ℕ → ℕ) → ℕ → ℕ → List ℕ
peek c p zero = []
peek c p (suc n) = c p ∷ peek c (p + 1) n

-- the bytes of words, the lowest first
abbrev pub bytes_of : List ℕ → List ℕ
bytes_of [] = []
bytes_of (w ∷ ws) = w % 256 ∷ w / 2 ^ 8 % 256 ∷ w / 2 ^ 16 % 256 ∷ w / 2 ^ 24 % 256 ∷ bytes_of ws

-- the bytes of the `n` words from place `p` on
abbrev pub dump : (ℕ → ℕ) → ℕ → ℕ → List ℕ
dump c p n = bytes_of (peek c p n)

length-words : (bytes : List ℕ) → length (words bytes) ≡ length bytes / 4
length-words [] = refl
length-words (a ∷ []) = refl
length-words (a ∷ b ∷ []) = refl
length-words (a ∷ b ∷ c ∷ []) = refl
length-words (a ∷ b ∷ c ∷ e ∷ rest) = omega (arith, length-words rest)

bytes_of-words :
    (bytes : List ℕ)
    → length bytes % 4 ≡ 0
    → All (λ b. b < 256) bytes
    → bytes_of (words bytes) ≡ bytes
bytes_of-words [] whole small = refl
bytes_of-words (a ∷ []) whole small = absurd (omega arith)
bytes_of-words (a ∷ b ∷ []) whole small = absurd (omega arith)
bytes_of-words (a ∷ b ∷ c ∷ []) whole small = absurd (omega arith)
bytes_of-words (a ∷ b ∷ c ∷ e ∷ rest) whole (la, (lb, (lc, (le, small)))) =
    let w : ℕ = a + b * 2 ^ 8 + c * 2 ^ 16 + e * 2 ^ 24 in
    let b0 : w % 256 ≡ a = omega arith in
    let b1 : w / 2 ^ 8 % 256 ≡ b = omega arith in
    let b2 : w / 2 ^ 16 % 256 ≡ c = omega arith in
    let b3 : w / 2 ^ 24 % 256 ≡ e = omega arith in
    let below = bytes_of-words rest (omega arith) small in rw (b0, b1, b2, b3, below) refl

peek_ext :
    (c c' : ℕ → ℕ) (p n : ℕ) → ((i : ℕ) → p ≤ i → i < p + n → c i ≡ c' i) → peek c p n ≡ peek c' p n
peek_ext c c' p zero same = refl
peek_ext c c' p (suc n) same =
    ap₂ (λ x xs. x ∷ xs) (same p (omega arith) (omega arith))
      (peek_ext c c' (p + 1) n (λ i above below. same i (omega arith) (omega arith)))

pub dump_ext : (c c' : ℕ → ℕ) (p n : ℕ) → ((i : ℕ) → c i ≡ c' i) → dump c p n ≡ dump c' p n
dump_ext c c' p n same = ap bytes_of (peek_ext c c' p n (λ i above below. same i))

module _ {step control port : ℕ} {Spared : ℕ → Type 0} (m : Port step control port Spared) where
  stores_kept :
      (ws : List ℕ) (h : History) (i : ℕ)
      → m.increments h ≡ true
      → m.place h + length ws ≤ 2 ^ 14 * step
      → (i < m.place h) ⊎ (m.place h + length ws ≤ i)
      → m.cells (stores port ws h) i ≡ m.cells h i
  stores_kept [] h i on room out = refl
  stores_kept (w ∷ []) h i on room out = m.elsewhere w i h (ground arith)
  stores_kept (w ∷ v ∷ ws) h i on room out =
      let moved = m.next w h on (omega arith) in
      stores_kept (v ∷ ws) (store port w ∷ h) i (m.mode_kept w h ∙ on) (omega (arith, moved))
        (ground (arith, moved))
      ∙ m.elsewhere w i h (ground arith)

  peek-stores :
      (ws : List ℕ) (h : History)
      → m.increments h ≡ true
      → m.place h + length ws ≤ 2 ^ 14 * step
      → peek (m.cells (stores port ws h)) (m.place h) (length ws) ≡ ws
  peek-stores [] h on room = refl
  peek-stores (w ∷ []) h on room = ap (λ t. t ∷ []) (m.here w h)
  peek-stores (w ∷ v ∷ ws) h on room =
      let moved = m.next w h on (omega arith) in
      let on' = m.mode_kept w h ∙ on in
      let room' : m.place (store port w ∷ h) + length (v ∷ ws) ≤ 2 ^ 14 * step =
        omega (arith, moved) in
      let first =
        stores_kept (v ∷ ws) (store port w ∷ h) (m.place h) on' room' (inl (omega (arith, moved)))
        ∙ m.here w h in
      let rest =
        ap (λ p. peek (m.cells (stores port (w ∷ v ∷ ws) h)) p (length (v ∷ ws))) (sym moved)
        ∙ peek-stores (v ∷ ws) (store port w ∷ h) on' room' in
      ap₂ (λ x xs. x ∷ xs) first rest

  pub stores-Spared :
      (a : ℕ) (ws : List ℕ) (h : History) (i : ℕ)
      → Spared a
      → m.cells (stores a ws h) i ≡ m.cells h i
  stores-Spared a [] h i far = refl
  stores-Spared a (w ∷ ws) h i far = stores-Spared a ws (store a w ∷ h) i far ∙ m.keeps a w i h far

  -- an upload of whole words at a place where they fit
  pub loaded :
      (bytes : List ℕ) (h : History) (v p n k : ℕ)
      → v / 4 % 2 ^ 14 * step ≡ p
      → v / 2 ^ 25 % 2 ≡ 1
      → n ≡ length bytes / 4
      → p + n ≤ 2 ^ 14 * step
      → length bytes % 4 ≡ 0
      → All (λ b. b < 256) bytes
      → let h' = stores port (words bytes) (store control v ∷ h) in
        (peek (m.cells h') 0 p ≡ peek (m.cells h) 0 p)
        × (dump (m.cells h') p n ≡ bytes)
        × (peek (m.cells h') (p + n) k ≡ peek (m.cells h) (p + n) k)
  loaded bytes h v p n k start inc count room whole small =
      let h0 : History = store control v ∷ h in
      let size = length-words bytes in
      let at : m.place h0 ≡ p = m.seek v h ∙ start in
      let on : m.increments h0 ≡ true = m.mode v h ∙ ground (arith, inc) in
      let fits : m.place h0 + length (words bytes) ≤ 2 ^ 14 * step =
        omega (arith, at, size, count) in
      let keep = λ (i : ℕ) (out : (i < p) ⊎ (p + n ≤ i)).
        stores_kept (words bytes) h0 i on fits (ground (arith, at, size, count))
        ∙ m.control_keeps v i h in
      (
        peek_ext _ _ 0 p (λ i above below. keep i (inl (omega arith))),
        ap bytes_of (
              ap₂ (peek (m.cells (stores port (words bytes) h0))) (sym at) (count ∙ sym size)
              ∙ peek-stores (words bytes) h0 on fits)
            ∙ bytes_of-words bytes whole small,
        peek_ext _ _ (p + n) k (λ i above below. keep i (inr above)),
      )
