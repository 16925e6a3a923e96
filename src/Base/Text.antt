-- ===== src/Base/Text.antt =====
-- The number formats of Rust's `format!` that the program uses: `{}`, `{:04X}`, `{:016X}`,
-- and `{:?}` of a vector of numbers.
use Prim.Native.Nat.{ℕ, zero, suc, ◌/◌, ◌%◌}
use Prim.Native.String.{String, ◌++◌}
use mathlib.Core.Bool.{Bool, true, false}
use mathlib.Core.List.{List, [], ◌∷◌}
use gpu_compute_nostd.Base.Tests.{ltb}

nth : List String → ℕ → String
nth [] i = ""
nth (s ∷ l) zero = s
nth (s ∷ l) (suc i) = nth l i

pub digit : ℕ → String
unfolding nth
digit = nth (
    "0" ∷ "1" ∷ "2" ∷ "3" ∷ "4" ∷ "5" ∷ "6" ∷ "7" ∷ "8" ∷ "9" ∷ "A" ∷ "B" ∷ "C" ∷ "D" ∷ "E" ∷ "F"
    ∷ [])

decimal_digits : ℕ → ℕ → String
unfolding digit
decimal_digits zero n = ""
decimal_digits (suc fuel) n = elim (ltb n 10) [
  | true ↦ digit n
  | false ↦ decimal_digits fuel (n / 10) ++ digit (n % 10)
]

-- `{}`; a `u64` has at most twenty digits
unfoldable pub decimal : ℕ → String
unfolding decimal_digits
decimal n = decimal_digits 20 n

-- `{:04X}` of a `u16`
unfoldable pub hex4 : ℕ → String
unfolding digit
hex4 n = digit (n / 4096 % 16) ++ (digit (n / 256 % 16) ++ (digit (n / 16 % 16) ++ digit (n % 16)))

hex_digits : ℕ → ℕ → String
unfolding digit
hex_digits zero n = ""
hex_digits (suc places) n = hex_digits places (n / 16) ++ digit (n % 16)

-- `{:016X}` of a `u64`
unfoldable pub hex16 : ℕ → String
unfolding hex_digits
hex16 n = hex_digits 16 n

-- `{}` of a `bool`
unfoldable pub bool_text : Bool → String
bool_text true = "true"
bool_text false = "false"

debug_rest : List ℕ → String
unfolding decimal
debug_rest [] = "]"
debug_rest (n ∷ ns) = ", " ++ decimal n ++ debug_rest ns

-- `{:?}` of a `Vec<usize>`
unfoldable pub debug_list : List ℕ → String
unfolding decimal debug_rest
debug_list [] = "[]"
debug_list (n ∷ ns) = "[" ++ decimal n ++ debug_rest ns
