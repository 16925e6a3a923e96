-- ===== src/Tensor/Strides.antt =====
-- Strides and element counts of src/tensor.rs against the row-major layout.
use gpu_compute_nostd.Base.{
  ℕ, ◌+◌, ◌*◌, ◌/◌, ◌%◌, ◌^◌, ◌≤◌, ◌<◌, ◌≡◌, refl, ap, ◌∙◌, List, [], ◌∷◌, ◌++◌, map, reverse,
  product, arith, u64, ◌↔◌,
}
use native.Mathlib.Decide.{dec_lt}
use mathlib.Core.Path.{ap₂}
use mathlib.Core.List.{reverse-cons, reverse-append}
use gpu_compute_nostd.Tensor.Shape.{compute_strides, total_elements, multiply, push_strides}

-- The row-major strides: each is the product of the dimensions behind it.
abbrev pub row_major : List ℕ → List ℕ
row_major [] = []
row_major (d ∷ ds) = product ds ∷ row_major ds

-- A factor may be reduced before the product is.
u64-mul : (a b : ℕ) → u64 (u64 a * b) ≡ u64 (a * b)
u64-mul a b =
    let whole : a * b ≡ (a / 2 ^ 64 * 2 ^ 64 + a % 2 ^ 64) * b = ap (λ t. t * b) (omega arith) in
    omega (arith, whole)

product-snoc : (xs : List ℕ) (d : ℕ) → product (xs ++ d ∷ []) ≡ product xs * d
product-snoc [] d = omega arith
product-snoc (x ∷ xs) d = ap (λ t. x * t) (product-snoc xs d) ∙ grind arith

pub product-reverse : (xs : List ℕ) → product (reverse xs) ≡ product xs
product-reverse [] = refl
product-reverse (x ∷ xs) =
    ap product (reverse-cons x xs)
    ∙ product-snoc (reverse xs) x
    ∙ ap (λ t. t * x) (product-reverse xs)
    ∙ grind arith

push_strides-snoc :
    (xs : List ℕ) (d s : ℕ)
    → s < 2 ^ 64
    → push_strides (xs ++ d ∷ []) s ≡ push_strides xs s ++ (u64 (s * product xs) ∷ [])
unfolding push_strides
push_strides-snoc [] d s h = ap (λ t. t ∷ []) (omega arith)
push_strides-snoc (x ∷ xs) d s h =
    ap (λ t. s ∷ t)
      (push_strides-snoc xs d (u64 (s * x)) (omega arith)
        ∙ ap (λ t. push_strides xs (u64 (s * x)) ++ (t ∷ []))
            (u64-mul (s * x) (product xs) ∙ ap u64 (grind arith)))

-- The strides are the row-major ones, each cut to 64 bits.
pub compute_strides_lem : (shape : List ℕ) → compute_strides shape ≡ map u64 (row_major shape)
unfolding compute_strides
compute_strides_lem [] = refl
compute_strides_lem (d ∷ ds) =
    ap (λ t. reverse (push_strides t 1)) (reverse-cons d ds)
    ∙ ap reverse (push_strides-snoc (reverse ds) d 1 (omega arith))
    ∙ reverse-append (push_strides (reverse ds) 1) (u64 (1 * product (reverse ds)) ∷ [])
    ∙ ap₂ (λ (t : ℕ) (ts : List ℕ). t ∷ ts)
        (ap (λ t. u64 (1 * t)) (product-reverse ds) ∙ omega arith) (compute_strides_lem ds)

multiply_lem :
    (acc : ℕ) (shape : List ℕ) → acc < 2 ^ 64 → multiply acc shape ≡ u64 (acc * product shape)
unfolding multiply
multiply_lem acc [] h = omega arith
multiply_lem acc (d ∷ ds) h =
    multiply_lem (u64 (acc * d)) ds (omega arith)
    ∙ u64-mul (acc * d) (product ds)
    ∙ ap u64 (grind arith)

-- The element count is the product of the dimensions, cut to 64 bits.
pub total_elements_lem : (shape : List ℕ) → total_elements shape ≡ u64 (product shape)
unfolding total_elements
total_elements_lem shape = multiply_lem 1 shape (omega arith) ∙ omega arith

-- an index with one entry below each dimension
abbrev pub IsIndex : List ℕ → List ℕ → Type 0
IsIndex [] [] = Unit
IsIndex (d ∷ ds) (i ∷ is) = (i < d) × IsIndex ds is
IsIndex _ _ = ⊥

-- the place of an index, in elements
abbrev pub offset_of : List ℕ → List ℕ → ℕ
offset_of (s ∷ strides) (i ∷ is) = i * s + offset_of strides is
offset_of _ _ = 0

-- An index lies within the product of the dimensions, under the row-major strides.
offset_of_lt :
    (shape is : List ℕ) → IsIndex shape is → offset_of (row_major shape) is < product shape
offset_of_lt [] [] h = omega arith
offset_of_lt [] (i ∷ is) h = elim h [ ]
offset_of_lt (d ∷ ds) [] h = elim h [ ]
offset_of_lt (d ∷ ds) (i ∷ is) h =
    let rest = offset_of_lt ds is h.1 in
    let front : (i + 1) * product ds ≤ d * product ds = grind (arith, h.0) in
    omega (arith, rest, front)

-- One digit of a place gives back one entry of the index.
front_of : (p i j r s : ℕ) → r < p → s < p → i * p + r ≡ j * p + s → (i ≡ j) × (r ≡ s)
front_of p i j r s hr hs e = elim (dec_lt i j) [
  | yes lt ↦ let gap : (i + 1) * p ≤ j * p = grind (arith, lt) in absurd (omega (arith, gap))
  | no ge ↦ elim (dec_lt j i) [
    | yes lt ↦ let gap : (j + 1) * p ≤ i * p = grind (arith, lt) in absurd (omega (arith, gap))
    | no le ↦ let same : i ≡ j = omega arith in (same, omega (arith, ap (λ t. t * p) same))
  ]
]

offset_of_injective :
    (shape is js : List ℕ)
    → IsIndex shape is
    → IsIndex shape js
    → offset_of (row_major shape) is ≡ offset_of (row_major shape) js
    → is ≡ js
offset_of_injective [] [] [] h k e = refl
offset_of_injective [] [] (j ∷ js) h k e = elim k [ ]
offset_of_injective [] (i ∷ is) js h k e = elim h [ ]
offset_of_injective (d ∷ ds) [] js h k e = elim h [ ]
offset_of_injective (d ∷ ds) (i ∷ is) [] h k e = elim k [ ]
offset_of_injective (d ∷ ds) (i ∷ is) (j ∷ js) h k e =
    let split = front_of (product ds) i j _ _ (offset_of_lt ds is h.1) (offset_of_lt ds js k.1) e in
    ap₂ (λ (t : ℕ) (ts : List ℕ). t ∷ ts) split.0 (offset_of_injective ds is js h.1 k.1 split.1)

-- With an index there is no dimension 0, so the strides are not cut if the count is not.
strides_whole :
    (shape is : List ℕ)
    → IsIndex shape is
    → product shape < 2 ^ 64
    → map u64 (row_major shape) ≡ row_major shape
strides_whole [] [] h small = refl
strides_whole [] (i ∷ is) h small = elim h [ ]
strides_whole (d ∷ ds) [] h small = elim h [ ]
strides_whole (d ∷ ds) (i ∷ is) h small =
    let less : product ds ≤ d * product ds = grind (arith, h.0) in
    let fits : product ds < 2 ^ 64 = omega (arith, less) in
    ap₂ (λ (t : ℕ) (ts : List ℕ). t ∷ ts) (omega (arith, fits)) (strides_whole ds is h.1 fits)

-- For a shape whose product of dimensions is below 2^64, the strides send each index below the
-- element count, and two indices to the same place exactly if they are equal.
pub compute_strides-layout :
    (shape is js : List ℕ)
    → product shape < 2 ^ 64
    → IsIndex shape is
    → IsIndex shape js
    → (offset_of (compute_strides shape) is < total_elements shape)
      × ((offset_of (compute_strides shape) is ≡ offset_of (compute_strides shape) js) ↔ (is ≡ js))
compute_strides-layout shape is js small h k =
    let same : compute_strides shape ≡ row_major shape =
      compute_strides_lem shape ∙ strides_whole shape is h small in
    let count : total_elements shape ≡ product shape = total_elements_lem shape ∙ omega arith in
    rw (same, count)
      (
        offset_of_lt shape is h,
        (λ e. offset_of_injective shape is js h k e, λ e. ap (offset_of (row_major shape)) e),
      )
