-- ===== src/Prelude/Decimal.antt =====
-- Decimal numerals: `strconv.Itoa`, `%d`, and `strconv.ParseUint(s, 10, 64)`.
use Prim.Native.Nat.{ℕ, zero, suc, ◌+◌, ◌-◌, ◌*◌, ◌/◌, ◌%◌, ◌<◌}
use mathlib.Core.Path.{◌≡◌, refl, ◌∙◌, ap}
use mathlib.Core.Bool.{Bool, ◌&&◌}
use mathlib.Core.Logic.{◌≢◌, inl, inr}
use mathlib.Core.Option.{Option, none, some}
use mathlib.Core.List.{[], ◌∷◌}
use native.Mathlib.Omega.{arith}
use ahsir.Prelude.Tests.{ltb, leb, lt→ltb, if◌then◌else◌, Bool-cases}
use ahsir.Prelude.Text.{Text}

-- The numeral of `n` in front of `rest`; more than `n` rounds are enough.
unfoldable pub decimal_on : ℕ → ℕ → Text → Text
decimal_on zero n rest = rest
decimal_on (suc f) n rest =
    let more = decimal_on f (n / 10) ((48 + n % 10) ∷ rest) in
    if ltb n 10 then (48 + n) ∷ rest else more

unfoldable pub decimal : ℕ → Text
unfolding decimal_on
decimal n = decimal_on (suc n) n []

abbrev pub is_digit : ℕ → Bool
is_digit c = leb 48 c && leb c 57

unfoldable pub parse_digits : ℕ → Text → Option ℕ
parse_digits acc [] = some acc
parse_digits acc (c ∷ cs) =
    let rest = parse_digits (acc * 10 + (c - 48)) cs in if is_digit c then rest else none

-- 2 ^ 64
abbrev pub u64 : ℕ
u64 = 18446744073709551616

abbrev pub below_u64 : Option ℕ → Option ℕ
below_u64 none = none
below_u64 (some n) = if ltb n u64 then some n else none

-- Refuses the empty text, any other byte than a digit, and a number that does not fit.
unfoldable pub parse_uint : Text → Option ℕ
unfolding parse_digits
parse_uint [] = none
parse_uint (c ∷ cs) = below_u64 (parse_digits 0 (c ∷ cs))

parse-decimal_on :
    (f n : ℕ) (rest : Text) → n < f → parse_digits 0 (decimal_on f n rest) ≡ parse_digits n rest
unfolding parse_digits decimal_on
parse-decimal_on zero n rest h = absurd (omega arith)
parse-decimal_on (suc f) n rest h = elim (Bool-cases (ltb n 10)) [
  | inl small ↦ rw small (ground arith)
  | inr large ↦
      rw large (parse-decimal_on f (n / 10) ((48 + n % 10) ∷ rest) (ground arith) ∙ ground arith)
]

decimal_on-ne-nil : (f n c : ℕ) (rest : Text) → decimal_on f n (c ∷ rest) ≢ []
unfolding decimal_on
decimal_on-ne-nil zero n c rest e = cc
decimal_on-ne-nil (suc f) n c rest e =
    ground (arith, decimal_on-ne-nil f (n / 10) (48 + n % 10) (c ∷ rest))

pub decimal-ne-nil : (n : ℕ) → decimal n ≢ []
unfolding decimal
decimal-ne-nil n e = ground (arith, decimal_on-ne-nil n (n / 10) (48 + n % 10) [])

parse_of_digits : (s : Text) → s ≢ [] → parse_uint s ≡ below_u64 (parse_digits 0 s)
unfolding parse_uint
parse_of_digits [] h = absurd (h refl)
parse_of_digits (c ∷ cs) h = refl

-- What is printed is read back.
pub parse-decimal : (n : ℕ) → n < u64 → parse_uint (decimal n) ≡ some n
unfolding decimal parse_digits
parse-decimal n h =
    parse_of_digits (decimal n) (decimal-ne-nil n)
    ∙ (ap below_u64 (parse-decimal_on (suc n) n [] (omega arith)) ∙ rw (lt→ltb n u64 h) refl)

pub digits-decimal : (n : ℕ) → parse_digits 0 (decimal n) ≡ some n
unfolding decimal parse_digits
digits-decimal n = parse-decimal_on (suc n) n [] (omega arith)
