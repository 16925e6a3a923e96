-- ===== src/Pci/Bar/Granule.antt =====
-- The part of a base address register that its size fixes: arithmetic for the probing in
-- src/pci_config.rs.
use gpu_compute_nostd.Base.{
  ℕ, ◌+◌, ◌-◌, ◌*◌, ◌/◌, ◌%◌, ◌^◌, ◌≤◌, ◌<◌, ◌≡◌, ◌⊎◌, sym, ap, ◌∙◌, arith, inl, inr, min,
}
use native.Mathlib.Nat.{
  mul-add-div, mul-div_cancel', dvd_of_mod-eq-zero, mod-eq-zero_of_dvd, mod-mod_of_dvd,
  div-eq_of_lt, div-mul_cancel, dvd-sub, dvd_refl, dvd_trans, le_of_dvd,
}

-- the bytes below 4 GiB that the hardware decodes, and so the part of the low word that is fixed
abbrev pub granule : ℕ → ℕ
granule size = min size (2 ^ 32)

-- the part of an address that is a multiple of `g`, with low bits `f` on it
pub cut-add : (x f g : ℕ) → x % g ≡ 0 → f < g → (x + f) / g * g ≡ x
cut-add x f g whole low =
    let divides = dvd_of_mod-eq-zero g whole in
    let k : ℕ = x / g in
    let back : g * k ≡ x = mul-div_cancel' g divides in
    let quotient : (x + f) / g ≡ k =
      ap (λ t. (t + f) / g) (sym back)
      ∙ mul-add-div (omega arith) k f
      ∙ ap (λ t. k + t) (div-eq_of_lt low)
      ∙ omega arith in
    ap (λ t. t * g) quotient ∙ div-mul_cancel g divides

-- all ones, for a granule that divides 2^32
pub cut-ones : (g : ℕ) → 0 < g → g ≤ 2 ^ 32 → 2 ^ 32 % g ≡ 0 → (2 ^ 32 - 1) / g * g ≡ 2 ^ 32 - g
cut-ones g pos le whole =
    let rest : (2 ^ 32 - g) % g ≡ 0 =
      mod-eq-zero_of_dvd g (dvd-sub g (dvd_of_mod-eq-zero g whole) (dvd_refl g)) in
    ap (λ t. t / g * g) (omega arith) ∙ cut-add (2 ^ 32 - g) (g - 1) g rest (omega arith)

pub granule_cases :
    (size : ℕ)
    → ((2 ^ 32 % size ≡ 0) × (size % 16 ≡ 0)) ⊎ (size % 2 ^ 32 ≡ 0)
    → 16 < size
    → ((granule size ≡ size) × (size < 2 ^ 32) × (2 ^ 32 % size ≡ 0) × (size % 16 ≡ 0))
      ⊎ ((granule size ≡ 2 ^ 32) × (size % 2 ^ 32 ≡ 0) × (2 ^ 32 ≤ size))
granule_cases size (inr multiple) pos = inr (ground arith)
granule_cases size (inl (divides, whole)) pos =
    let le = le_of_dvd {n = 2 ^ 32} (omega arith) (dvd_of_mod-eq-zero size divides) in
    ground (arith, le)

pub granule-divides :
    (size : ℕ)
    → ((2 ^ 32 % size ≡ 0) × (size % 16 ≡ 0)) ⊎ (size % 2 ^ 32 ≡ 0)
    → 16 < size
    → 2 ^ 32 % granule size ≡ 0
granule-divides size shape pos = elim (granule_cases size shape pos) [
  | inl (same, small, divides, whole) ↦ ap (λ t. 2 ^ 32 % t) same ∙ divides
  | inr (same, multiple, large) ↦ ap (λ t. 2 ^ 32 % t) same
]

-- the low word of an aligned base is aligned
pub low-aligned :
    (size base : ℕ)
    → ((2 ^ 32 % size ≡ 0) × (size % 16 ≡ 0)) ⊎ (size % 2 ^ 32 ≡ 0)
    → 16 < size
    → base % size ≡ 0
    → base % 2 ^ 32 % granule size ≡ 0
low-aligned size base shape pos whole = elim (granule_cases size shape pos) [
  | inl (same, small, divides, whole16) ↦
      ap (λ t. base % 2 ^ 32 % t) same
      ∙ mod-mod_of_dvd size base (dvd_of_mod-eq-zero size divides)
      ∙ whole
  | inr (same, multiple, large) ↦
      let below : base % 2 ^ 32 ≡ 0 = mod-eq-zero_of_dvd (2 ^ 32) (
        dvd_trans (2 ^ 32) (dvd_of_mod-eq-zero (2 ^ 32) multiple)
          (dvd_of_mod-eq-zero size whole)) in
      ap (λ t. base % 2 ^ 32 % t) same ∙ omega (arith, below)
]
