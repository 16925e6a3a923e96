-- ===== src/Base/Checked.antt =====
-- The same sums in a build with overflow checks: one that does not fit its type is a panic, and the
-- call does not return.
use Prim.Native.Nat.{ℕ, ◌-◌, ◌^◌, ◌≤◌, ◌<◌}
use mathlib.Core.Path.{◌≡◌, refl, sym, ap, subst, ◌∙◌}
use mathlib.Core.Logic.{◌⊎◌, inl, inr}
use native.Mathlib.Omega.{arith}
use gpu_compute_nostd.Base.Tests.{ltb, if◌then◌else◌}
use gpu_compute_nostd.Base.Word.{u32, u64}

pub data Run {ℓ} (A : Type ℓ) : Type ℓ where
  done : A → Run A
  panicked : Run A

infixl 5 ◌>>=◌
abbrev pub ◌>>=◌ {ℓ κ} : {A : Type ℓ} {B : Type κ} → Run A → (A → Run B) → Run B
done a >>= f = f a
panicked >>= f = panicked

-- a sum or product of `u64` and of `usize`, and one of `u32`
abbrev pub exact64 : ℕ → Run ℕ
exact64 n = if ltb n (2 ^ 64) then done n else panicked

abbrev pub exact32 : ℕ → Run ℕ
exact32 n = if ltb n (2 ^ 32) then done n else panicked

-- a difference of unsigned numbers
abbrev pub difference : ℕ → ℕ → Run ℕ
difference a b = if ltb a b then panicked else done (a - b)

-- a run that does not panic returns this value
abbrev pub Agrees {ℓ} : {A : Type ℓ} → Run A → A → Type ℓ
Agrees (done r) a = r ≡ a
Agrees panicked a = Unit

pub Agrees->>= {ℓ κ} :
    {A : Type ℓ} {B : Type κ} (m : Run A) (a : A) (f : A → Run B) (b : B)
    → Agrees m a
    → Agrees (f a) b
    → Agrees (m >>= f) b
Agrees->>= (done r) a f b e g = subst (λ x. Agrees (f x) b) (sym e) g
Agrees->>= panicked a f b e g = tt

pub Agrees-exact64 : (n : ℕ) → Agrees (exact64 n) (u64 n)
Agrees-exact64 n = ground arith

pub Agrees-exact32 : (n : ℕ) → Agrees (exact32 n) (u32 n)
Agrees-exact32 n = ground arith

-- A run returns or panics.
pub Run-cases {ℓ} : {A : Type ℓ} (m : Run A) → ((a : A) × (m ≡ done a)) ⊎ (m ≡ panicked)
Run-cases (done a) = inl (a, refl)
Run-cases panicked = inr refl

-- What a run that returns has returned.
pub Agrees-done {ℓ} : {A : Type ℓ} {m : Run A} {r : A} (a : A) → Agrees m a → m ≡ done r → r ≡ a
Agrees-done {A} {m} {r} a g e = subst (λ x. Agrees x a) e g

pub le_cases : (a b : ℕ) → (a ≤ b) ⊎ (b < a)
le_cases a b = ground arith

pub done_inj {ℓ} : {A : Type ℓ} {a b : A} → done a ≡ done b → a ≡ b
done_inj {A} {a} {b} e = Agrees-done b refl (sym e)

-- Both halves of a run that returns have returned.
pub >>=-done {ℓ κ} :
    {A : Type ℓ} {B : Type κ} (m : Run A) {f : A → Run B} {b : B}
    → m >>= f ≡ done b
    → (a : A) × (m ≡ done a) × (f a ≡ done b)
>>=-done (done a) e = (a, refl, e)
>>=-done panicked e = absurd (ground arith)

pub exact64_lem : (n : ℕ) → n < 2 ^ 64 → exact64 n ≡ done (u64 n)
exact64_lem n h = ground arith

pub exact32_lem : (n : ℕ) → n < 2 ^ 32 → exact32 n ≡ done (u32 n)
exact32_lem n h = ground arith

-- A run of two halves, the first of which returns.
pub >>=_after {ℓ κ} :
    {A : Type ℓ} {B : Type κ} (m : Run A) (a : A) (f : A → Run B) (r : Run B)
    → m ≡ done a
    → f a ≡ r
    → m >>= f ≡ r
>>=_after m a f r e g = ap (λ x. x >>= f) e ∙ g

-- A run for its effect alone.
pub Agrees-Unit : (m : Run (Unit {0})) → Agrees m tt
Agrees-Unit (done tt) = refl
Agrees-Unit panicked = tt

pub panicked_not {ℓ} : {A : Type ℓ} {a : A} → ¬ (panicked ≡ done a)
panicked_not e = cc

-- The same, if what the first half returns is known.
pub >>=-agreed {ℓ κ} :
    {A : Type ℓ} {B : Type κ} (m : Run A) (a : A) (f : A → Run B) (b : B)
    → Agrees m a
    → m >>= f ≡ done b
    → (m ≡ done a) × (f a ≡ done b)
>>=-agreed (done r) a f b g e = (ap done g, subst (λ x. f x ≡ done b) g e)
>>=-agreed panicked a f b g e = absurd (panicked_not e)
