-- ===== src/Memory/Regions.antt =====
-- Lists of free regions as sets of addresses, and what the first-fit loop of `allocate` does.
use gpu_compute_nostd.Base.{
  ℕ, ◌+◌, ◌-◌, ◌^◌, ◌≤◌, ◌<◌, ◌≡◌, ◌⊎◌, inl, inr, refl, subst, none, some, List, [], ◌∷◌, arith,
  All, u64, leb, Bool-cases, Option-cases,
}
use mathlib.Core.Path.{subst₂}
use gpu_compute_nostd.Memory.Vram.{FreeRegion}
use gpu_compute_nostd.Memory.Allocator.{first_fit}

-- the intervals `[a, a + m)` and `[b, b + n)` do not meet
abbrev pub Apart : ℕ → ℕ → ℕ → ℕ → Type 0
Apart a m b n = (a + m ≤ b) ⊎ (b + n ≤ a)

-- `[a, a + m)` meets no region of the list
abbrev pub IsOutside : ℕ → ℕ → List FreeRegion → Type 0
IsOutside a m = All (λ r. Apart a m r.start r.size)

pub Apart-symm : (a m b n : ℕ) → Apart a m b n → Apart b n a m
Apart-symm a m b n h = ground arith

-- A part of an interval that meets no region meets none.
pub IsOutside-part :
    (a m b n : ℕ) (rs : List FreeRegion)
    → a ≤ b
    → b + n ≤ a + m
    → IsOutside a m rs
    → IsOutside b n rs
IsOutside-part a m b n [] lo hi o = tt
IsOutside-part a m b n (r ∷ rs) lo hi o = (ground arith, IsOutside-part a m b n rs lo hi o.1)

-- no two regions meet
abbrev pub Separate : List FreeRegion → Type 0
Separate [] = Unit
Separate (r ∷ rs) = IsOutside r.start r.size rs × Separate rs

-- all regions lie in `[lo, hi)`
abbrev pub Within : ℕ → ℕ → List FreeRegion → Type 0
Within lo hi = All (λ r. (lo ≤ r.start) × (r.start + r.size ≤ hi))

abbrev pub free_bytes : List FreeRegion → ℕ
free_bytes [] = 0
free_bytes (r ∷ rs) = r.size + free_bytes rs

-- A run of the loop that found room: the first region of at least `n` bytes gave up its front.
pub data Fit (n : ℕ) : List FreeRegion → ℕ → List FreeRegion → Type 0 where
  here :
      (r : FreeRegion) (rs : List FreeRegion)
      → n ≤ r.size
      → Fit n (r ∷ rs) r.start (record r { start = u64 (r.start + n); size = r.size - n } ∷ rs)
  there :
      (r : FreeRegion) {rs : List FreeRegion} {p : ℕ} {rs' : List FreeRegion}
      → r.size < n
      → Fit n rs p rs'
      → Fit n (r ∷ rs) p (r ∷ rs')

-- How a successful run of the loop on a nonempty list has ended.
first_fit_cases :
    (r : FreeRegion) (rs : List FreeRegion) (n p : ℕ) (rs' : List FreeRegion)
    → first_fit (r ∷ rs) n ≡ some (p, rs')
    → ((n ≤ r.size)
        × (r.start ≡ p)
        × ((record r { start = u64 (r.start + n); size = r.size - n } ∷ rs) ≡ rs'))
      ⊎ ((r.size < n)
          × ((rest : List FreeRegion) × (first_fit rs n ≡ some (p, rest)) × (r ∷ rest ≡ rs')))
unfolding first_fit
first_fit_cases r rs n p rs' e = elim (Bool-cases (leb n r.size)) [
  | inl fits ↦ inl (ground arith)
  | inr small ↦ elim (Option-cases (first_fit rs n)) [
    | inl full ↦ absurd (ground arith)
    | inr ((q, rest), found) ↦ inr (ground arith, (rest, ground arith, ground arith))
  ]
]

pub first_fit-Fit :
    (rs : List FreeRegion) (n : ℕ) {p : ℕ} {rs' : List FreeRegion}
    → first_fit rs n ≡ some (p, rs')
    → Fit n rs p rs'
first_fit-Fit [] n e = unfold first_fit in cc
first_fit-Fit (r ∷ rs) n {p} {rs'} e = elim (first_fit_cases r rs n p rs' e) [
  | inl (fits, at, left) ↦ subst₂ (Fit n (r ∷ rs)) at left (here r rs fits)
  | inr (small, (rest, found, left)) ↦
      subst (Fit n (r ∷ rs) p) left (there r small (first_fit-Fit rs n found))
]

-- The loop fails exactly if every region is too small.
pub first_fit-none :
    (rs : List FreeRegion) (n : ℕ) → first_fit rs n ≡ none → All (λ r. r.size < n) rs
unfolding first_fit
first_fit-none [] n e = tt
first_fit-none (r ∷ rs) n e = ground (arith, first_fit-none rs n)

pub first_fit_too_small :
    (rs : List FreeRegion) (n : ℕ) → All (λ r. r.size < n) rs → first_fit rs n ≡ none
unfolding first_fit
first_fit_too_small [] n h = refl
first_fit_too_small (r ∷ rs) n h = ground (arith, first_fit_too_small rs n h.1)

module _ (n lo hi : ℕ) (word : hi < 2 ^ 64) where
  pub Fit-Within :
      {rs : List FreeRegion} {p : ℕ} {rs' : List FreeRegion}
      → Fit n rs p rs'
      → Within lo hi rs
      → (lo ≤ p) × (p + n ≤ hi) × Within lo hi rs'
  Fit-Within (here r rs le) w = (w.0.0, omega arith, ((omega arith, omega arith), w.1))
  Fit-Within (there r lt f) w = let q = Fit-Within f w.1 in (q.0, q.1, (w.0, q.2))

  -- Whatever lay outside the free regions lies outside the block and the regions left.
  pub Fit-IsOutside :
      (a m : ℕ) {rs : List FreeRegion} {p : ℕ} {rs' : List FreeRegion}
      → Fit n rs p rs'
      → Within lo hi rs
      → IsOutside a m rs
      → Apart a m p n × IsOutside a m rs'
  Fit-IsOutside a m (here r rs le) w o = (ground arith, (ground arith, o.1))
  Fit-IsOutside a m (there r lt f) w o = let q = Fit-IsOutside a m f w.1 o.1 in (q.0, (o.0, q.1))

  -- The block lies outside the regions left, and these stay separate.
  pub Fit-Separate :
      {rs : List FreeRegion} {p : ℕ} {rs' : List FreeRegion}
      → Fit n rs p rs'
      → Within lo hi rs
      → Separate rs
      → IsOutside p n rs' × Separate rs'
  Fit-Separate (here r rs le) w s = (
    (inl (omega arith), IsOutside-part r.start r.size r.start n rs (omega arith) (omega arith) s.0),
    (
      IsOutside-part r.start r.size (u64 (r.start + n)) (r.size - n) rs (omega arith) (omega arith)
          s.0,
      s.1,
    ),
  )
  Fit-Separate {p} (there r lt f) w s =
      let q = Fit-Separate f w.1 s.1 in
      let o = Fit-IsOutside r.start r.size f w.1 s.0 in
      ((Apart-symm r.start r.size p n o.0, q.0), (o.1, q.1))

-- What the block takes is gone from the free bytes.
pub Fit-free_bytes :
    {n : ℕ} {rs : List FreeRegion} {p : ℕ} {rs' : List FreeRegion}
    → Fit n rs p rs'
    → free_bytes rs' + n ≡ free_bytes rs
Fit-free_bytes (here r rs le) = omega arith
Fit-free_bytes (there r lt f) = omega (arith, Fit-free_bytes f)
