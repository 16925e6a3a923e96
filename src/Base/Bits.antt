-- ===== src/Base/Bits.antt =====
-- `&` and `|` at variables. `bit n x` is binary digit `n`; masks and shifted fields are arithmetic.
use Prim.Native.Nat.{digits, bitwise, bit_and-bitwise, bit_or-bitwise}
use Prim.Native.Nat.{
  ℕ, zero, suc, ◌+◌, ◌-◌, ◌*◌, ◌/◌, ◌%◌, ◌^◌, ◌≤◌, ◌<◌, min, max, bit_and, bit_or,
}
use Prim.Native.Nat.add
use mathlib.Core.Path.{◌≡◌, refl, sym, ap, ◌∙◌, subst}
use native.Mathlib.Nat.{
  le_refl, pow-suc, pow-succ', div-div-eq-div-mul, one-le-pow, mod-eq-sub-div-mul, div-mul-le_self,
}
use native.Mathlib.Omega.{arith}

module _ (z : ℕ → ℕ) (f : ℕ → ℕ → ℕ) where
  -- A digit count that covers `a` may be raised by one.
  spare_digit : (n a b : ℕ) → a ≤ n → digits z f (suc n) a b ≡ digits z f n a b
  spare_digit zero zero b h = refl
  spare_digit zero (suc a) b h = absurd (omega arith)
  spare_digit (suc n) zero b h = refl
  spare_digit (suc n) (suc a) b h =
      ap (λ t. t * 2 + f (suc a % 2) (b % 2)) (spare_digit n (suc a / 2) (b / 2) (omega arith))

  spare_digits : (k n a b : ℕ) → a ≤ n → digits z f (k + n) a b ≡ digits z f n a b
  spare_digits zero n a b h = rw add.zero
  spare_digits (suc k) n a b h =
      rw add.suc (spare_digit (k + n) a b (omega arith) ∙ spare_digits k n a b h)

  -- the lowest digit apart
  bitwise_low :
      (a b : ℕ)
      → bitwise z f (suc a) b ≡ bitwise z f (suc a / 2) (b / 2) * 2 + f (suc a % 2) (b % 2)
  bitwise_low a b =
      let k : ℕ = a - suc a / 2 in
      let e : k + suc a / 2 ≡ a = omega arith in
      ap (λ t. t * 2 + f (suc a % 2) (b % 2))
        (subst (λ t. digits z f t (suc a / 2) (b / 2) ≡ bitwise z f (suc a / 2) (b / 2)) e
          (spare_digits k (suc a / 2) (suc a / 2) (b / 2) (omega arith)))

pub bit_and_low : (a b : ℕ) → bit_and a b ≡ bit_and (a / 2) (b / 2) * 2 + min (a % 2) (b % 2)
bit_and_low zero b = omega (arith, bit_and-bitwise 0 b, bit_and-bitwise 0 (b / 2))
bit_and_low (suc a) b =
    bit_and-bitwise (suc a) b
    ∙ bitwise_low (λ _. zero) min a b
    ∙ ap (λ t. t * 2 + min (suc a % 2) (b % 2)) (sym (bit_and-bitwise (suc a / 2) (b / 2)))

pub bit_or_low : (a b : ℕ) → bit_or a b ≡ bit_or (a / 2) (b / 2) * 2 + max (a % 2) (b % 2)
bit_or_low zero b = omega (arith, bit_or-bitwise 0 b, bit_or-bitwise 0 (b / 2))
bit_or_low (suc a) b =
    bit_or-bitwise (suc a) b
    ∙ bitwise_low (λ d. d) max a b
    ∙ ap (λ t. t * 2 + max (suc a % 2) (b % 2)) (sym (bit_or-bitwise (suc a / 2) (b / 2)))

-- binary digit `n` of `x`
abbrev pub bit : ℕ → ℕ → ℕ
bit n x = x / 2 ^ n % 2

-- Digit `n + 1` of a number is digit `n` of its half.
bit-suc : (n x : ℕ) → bit (suc n) x ≡ bit n (x / 2)
bit-suc n x =
    ap (λ t. t % 2) (ap (λ p. x / p) (pow-succ' 2 n) ∙ sym (div-div-eq-div-mul x 2 (2 ^ n)))

-- `&` and `|` work digit by digit.
pub bit-bit_and : (n a b : ℕ) → bit n (bit_and a b) ≡ min (bit n a) (bit n b)
bit-bit_and zero a b = omega (arith, bit_and_low a b)
bit-bit_and (suc n) a b =
    simp bit-suc (ap (bit n) (omega (arith, bit_and_low a b)) ∙ bit-bit_and n (a / 2) (b / 2))

pub bit-bit_or : (n a b : ℕ) → bit n (bit_or a b) ≡ max (bit n a) (bit n b)
bit-bit_or zero a b = omega (arith, bit_or_low a b)
bit-bit_or (suc n) a b =
    simp bit-suc (ap (bit n) (omega (arith, bit_or_low a b)) ∙ bit-bit_or n (a / 2) (b / 2))

no_digits_and : (n a : ℕ) → digits (λ _. zero) min n a 0 ≡ 0
no_digits_and zero a = refl
no_digits_and (suc n) zero = refl
no_digits_and (suc n) (suc a) = omega (arith, no_digits_and n (suc a / 2))

no_digits_or : (n a : ℕ) → a ≤ n → digits (λ d. d) max n a 0 ≡ a
no_digits_or zero a h = omega arith
no_digits_or (suc n) zero h = refl
no_digits_or (suc n) (suc a) h = omega (arith, no_digits_or n (suc a / 2) (omega arith))

pub bit_and-zero : (a : ℕ) → bit_and a 0 ≡ 0
bit_and-zero a = bit_and-bitwise a 0 ∙ no_digits_and a a

pub bit_or-zero : (a : ℕ) → bit_or a 0 ≡ a
bit_or-zero a = bit_or-bitwise a 0 ∙ no_digits_or a a (le_refl a)

pub zero-bit_or : (a : ℕ) → bit_or 0 a ≡ a
zero-bit_or a = bit_or-bitwise 0 a

double_pow : (m k : ℕ) → m * 2 ^ suc k ≡ m * 2 ^ k * 2
double_pow m k = omega (arith, ap (λ t. m * t) (pow-suc 2 k))

halve_pow : (a k : ℕ) → a / 2 ^ suc k ≡ a / 2 / 2 ^ k
halve_pow a k = ap (λ t. a / t) (pow-succ' 2 k) ∙ sym (div-div-eq-div-mul a 2 (2 ^ k))

-- A mask whose low `k` digits are zero clears those digits.
pub bit_and_shift : (k a m : ℕ) → bit_and a (m * 2 ^ k) ≡ bit_and (a / 2 ^ k) m * 2 ^ k
bit_and_shift zero a m = ground arith
bit_and_shift (suc k) a m = ground (
  arith,
  bit_and_low a (m * 2 ^ k * 2),
  bit_and_shift k (a / 2) m,
  double_pow m k,
  double_pow (bit_and (a / 2 ^ suc k) m) k,
  halve_pow a k,
)

-- A mask of `k` ones keeps the remainder by `2 ^ k`.
pub bit_and_ones : (k a : ℕ) → bit_and a (2 ^ k - 1) ≡ a % 2 ^ k
bit_and_ones zero a = omega (arith, bit_and-zero a)
bit_and_ones (suc k) a = ground (
  arith,
  bit_and_low a (2 ^ suc k - 1),
  bit_and_ones k (a / 2),
  pow-suc 2 k,
  one-le-pow k 2,
  halve_pow a k,
  double_pow (a / 2 ^ suc k) k,
  mod-eq-sub-div-mul a (2 ^ suc k),
  mod-eq-sub-div-mul (a / 2) (2 ^ k),
  div-mul-le_self a (2 ^ suc k),
  div-mul-le_self (a / 2) (2 ^ k),
)

-- `|` of a shifted field and a field that fits below it is their sum.
pub bit_or_fields : (k q r : ℕ) → r < 2 ^ k → bit_or (q * 2 ^ k) r ≡ q * 2 ^ k + r
bit_or_fields zero q r h = ground (arith, bit_or-zero q)
bit_or_fields (suc k) q r h =
    ground
      (arith, bit_or_low (q * 2 ^ suc k) r, bit_or_fields k q (r / 2), double_pow q k, pow-suc 2 k)

-- A contiguous mask selects a field in place.
pub bit_and_field : (k n x : ℕ) → bit_and x ((2 ^ n - 1) * 2 ^ k) ≡ x / 2 ^ k % 2 ^ n * 2 ^ k
bit_and_field k n x =
    bit_and_shift k x (2 ^ n - 1) ∙ ap (λ t. t * 2 ^ k) (bit_and_ones n (x / 2 ^ k))

-- A mask of one digit.
pub bit_and-bit : (k x : ℕ) → bit_and x (2 ^ k) ≡ bit k x * 2 ^ k
bit_and-bit k x = ap (bit_and x) one_mul ∙ bit_and_field k 1 x
  where
    one_mul : 2 ^ k ≡ (2 ^ 1 - 1) * 2 ^ k
    one_mul = omega arith

-- The same with the low field written first.
pub bit_or_fields_low : (k q r : ℕ) → r < 2 ^ k → bit_or r (q * 2 ^ k) ≡ q * 2 ^ k + r
bit_or_fields_low zero q r h = ground (arith, zero-bit_or q)
bit_or_fields_low (suc k) q r h = ground (
  arith,
  bit_or_low r (q * 2 ^ suc k),
  bit_or_fields_low k q (r / 2),
  double_pow q k,
  pow-suc 2 k,
)

-- `|` works on the high and the low digits apart.
pub bit_or_blocks :
    (k q r s t : ℕ)
    → r < 2 ^ k
    → t < 2 ^ k
    → bit_or (q * 2 ^ k + r) (s * 2 ^ k + t) ≡ bit_or q s * 2 ^ k + bit_or r t
bit_or_blocks zero q r s t h g =
    let r_zero : r ≡ 0 = omega arith in
    let t_zero : t ≡ 0 = omega arith in rw (r_zero, t_zero) (ground arith)
bit_or_blocks (suc k) q r s t h g = ground (
  arith,
  bit_or_low (q * 2 ^ suc k + r) (s * 2 ^ suc k + t),
  bit_or_blocks k q (r / 2) s (t / 2),
  bit_or_low r t,
  double_pow q k,
  double_pow s k,
  double_pow (bit_or q s) k,
  pow-suc 2 k,
)

-- `|` adds a field that fits below the last `k` digits, which are zero.
pub bit_or_sum : (k a r : ℕ) → a % 2 ^ k ≡ 0 → r < 2 ^ k → bit_or a r ≡ a + r
bit_or_sum k a r z h =
    let e : a ≡ a / 2 ^ k * 2 ^ k =
      ground (arith, mod-eq-sub-div-mul a (2 ^ k), div-mul-le_self a (2 ^ k)) in
    ap (λ t. bit_or t r) e ∙ bit_or_fields k (a / 2 ^ k) r h ∙ ap (λ t. t + r) (sym e)
