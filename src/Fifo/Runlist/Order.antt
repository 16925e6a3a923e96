-- ===== src/Fifo/Runlist/Order.antt =====
-- The order of the entries of a runlist of src/fifo.rs, which its doc comment calls a set of channels
-- ordered by scheduling priority, under a sequence of `add_channel` and `remove_channel`.
use gpu_compute_nostd.Base.{
  ℕ, ◌≡◌, refl, ap, sym, ◌∙◌, Bool, false, List, [], ◌∷◌, ◌++◌, arith, ◌==◌, ◌||◌, if◌then◌else◌,
  Bool-cases, inl, inr,
}
use gpu_compute_nostd.Fifo.Runlist.{Runlist, add_channel, remove_channel, retain_ne}

pub data Edit : Type 0 where
  add : ℕ → Edit
  remove : ℕ → Edit

abbrev pub edit : Edit → Runlist → Runlist
edit (add id) r = add_channel r id
edit (remove id) r = remove_channel r id

unfoldable pub edit_all : List Edit → Runlist → Runlist
edit_all [] r = r
edit_all (e ∷ es) r = edit_all es (edit e r)

-- whether one of the edits removes the channel
unfoldable pub removes : List Edit → ℕ → Bool
removes [] c = false
removes (add id ∷ es) c = removes es c
removes (remove id ∷ es) c = (id == c) || removes es c

-- the entries that no edit removes, in their order
unfoldable pub retained : List Edit → List ℕ → List ℕ
unfolding removes
retained es [] = []
retained es (c ∷ cs) = let rest = retained es cs in if removes es c then rest else c ∷ rest

-- the channels that the edits add and none of the later ones removes, in the order of the edits
unfoldable pub survivors : List Edit → List ℕ
unfolding removes
survivors [] = []
survivors (add id ∷ es) = let rest = survivors es in if removes es id then rest else id ∷ rest
survivors (remove id ∷ es) = survivors es

retained-none : (xs : List ℕ) → retained [] xs ++ survivors [] ≡ xs
unfolding retained survivors
retained-none [] = refl
retained-none (x ∷ xs) = ap (λ t. x ∷ t) (retained-none xs)

-- an entry behind the others, and what the edits do after it
retained-snoc :
    (es : List Edit) (id : ℕ) (xs : List ℕ)
    → retained es (xs ++ (id ∷ [])) ++ survivors es
      ≡ retained (add id ∷ es) xs ++ survivors (add id ∷ es)
unfolding retained survivors
retained-snoc es id [] = elim (Bool-cases (removes es id)) [
  | inl gone ↦ rw gone refl
  | inr stays ↦ rw stays refl
]
retained-snoc es id (x ∷ xs) = elim (Bool-cases (removes es x)) [
  | inl gone ↦ rw gone (retained-snoc es id xs)
  | inr stays ↦ rw stays (ap (λ t. x ∷ t) (retained-snoc es id xs))
]

retained-retain_ne :
    (es : List Edit) (id : ℕ) (xs : List ℕ)
    → retained es (retain_ne id xs) ≡ retained (remove id ∷ es) xs
unfolding retained retain_ne
retained-retain_ne es id [] = refl
retained-retain_ne es id (x ∷ xs) = let below = retained-retain_ne es id xs in ground (arith, below)

-- A sequence of edits keeps the entries that none of them removes, in their order, and puts behind
-- them the channels it adds and does not remove later, in the order in which it adds them. The
-- runlist's ID and its block stay.
pub edit_all-survivors :
    (es : List Edit) (r : Runlist)
    → ((edit_all es r).channels ≡ retained es r.channels ++ survivors es)
      × ((edit_all es r).id ≡ r.id)
      × ((edit_all es r).allocation ≡ r.allocation)
unfolding edit_all survivors add_channel remove_channel
edit_all-survivors [] r = (sym (retained-none r.channels), refl, refl)
edit_all-survivors (add id ∷ es) r =
    let later = edit_all-survivors es (add_channel r id) in
    (later.0 ∙ retained-snoc es id r.channels, later.1, later.2)
edit_all-survivors (remove id ∷ es) r =
    let later = edit_all-survivors es (remove_channel r id) in
    (later.0 ∙ ap (λ t. t ++ survivors es) (retained-retain_ne es id r.channels), later.1, later.2)
