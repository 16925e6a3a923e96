-- ===== src/Fifo/Runlist/Laws.antt =====
-- What the operations of `Runlist` (src/fifo.rs) do to the channels on it.
use gpu_compute_nostd.Base.{ℕ, ◌+◌, ◌≡◌, List, [], ◌∷◌, ◌++◌, arith, ◌==◌, if◌then◌else◌, refl}
use gpu_compute_nostd.Fifo.Runlist.{Runlist, add_channel, remove_channel, retain_ne}

-- how often a channel is on the list
abbrev pub count : ℕ → List ℕ → ℕ
count c [] = 0
count c (x ∷ xs) = (if x == c then 1 else 0) + count c xs

pub count-snoc :
    (c x : ℕ) (xs : List ℕ) → count c (xs ++ x ∷ []) ≡ count c xs + (if x == c then 1 else 0)
count-snoc c x [] = omega arith
count-snoc c x (y ∷ ys) = omega (arith, count-snoc c x ys)

pub count-retain_ne :
    (c id : ℕ) (xs : List ℕ) → count c (retain_ne id xs) ≡ (if c == id then 0 else count c xs)
unfolding retain_ne
count-retain_ne c id [] = ground arith
count-retain_ne c id (x ∷ xs) = ground (arith, count-retain_ne c id xs)

-- Removing a channel takes off every entry of it and no entry of another; adding one adds one entry
-- of it, at the end, and changes nothing else.
pub remove_channel_count :
    (r : Runlist) (id c : ℕ)
    → (count c (remove_channel r id).channels ≡ (if c == id then 0 else count c r.channels))
      × (count c (add_channel r id).channels
          ≡ (if c == id then count c r.channels + 1 else count c r.channels))
      × ((add_channel r id).channels ≡ r.channels ++ (id ∷ []))
unfolding remove_channel add_channel
remove_channel_count r id c =
    (count-retain_ne c id r.channels, ground (arith, count-snoc c id r.channels), refl)
