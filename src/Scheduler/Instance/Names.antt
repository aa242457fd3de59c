-- ===== src/Scheduler/Instance/Names.antt =====
-- The runtime names of instances (internal/scheduler/instance.go, instanceName to isInstanceChild).
use ahsir.Prelude.{
  ◌∙◌, ap, ◌⊎◌, inr, ◌-◌, ◌+◌, ◌*◌, inl, ◌<◌, ◌||◌, ◌≢◌, ltb, ◌==◌, Bool-cases, ◌++◌, ◌&&◌,
  if◌then◌else◌, [], ◌∷◌, ℕ, ◌≡◌, none, some, Option, arith, refl, true, false, Bool, suc, zero,
}
use ahsir.Prelude.Decimal.{decimal-ne-nil, digits-decimal, decimal, is_digit, parse_digits}
use ahsir.Prelude.Text.{is_empty, Text}

-- '#'
abbrev pub instance_sep : ℕ
instance_sep = 35

unfoldable pub instance_name : Text → ℕ → Text
instance_name base zero = base
instance_name base (suc i) = base ++ (instance_sep ∷ decimal (suc i))

-- What stands before and after the last separator, by `strings.LastIndex`.
unfoldable pub split_last : Text → Option (Text × Text)
split_last [] = none
split_last (c ∷ cs) = elim (split_last cs) [
  | some (before, after) ↦ some (c ∷ before, after)
  | none ↦ if c == instance_sep then some ([], cs) else none
]

-- 2 ^ 63, above which `strconv.Atoi` reports a range error.
abbrev pub max_int : ℕ
max_int = 9223372036854775808

abbrev pub in_range : Option ℕ → Option ℕ
in_range none = none
in_range (some n) = if ltb n max_int then some n else none

unfoldable pub unsigned : Text → Option ℕ
unsigned [] = none
unsigned (c ∷ cs) = in_range (parse_digits 0 (c ∷ cs))

-- `strconv.Atoi` of a number that is not negative; the caller refuses a negative one as it refuses
-- an error.
unfoldable pub atoi : Text → Option ℕ
unfolding unsigned
atoi [] = none
atoi (c ∷ cs) = if c == 43 then unsigned cs else if c == 45 then none else unsigned (c ∷ cs)

unfoldable pub parsed : Text → Text → Option ℕ → Text × (ℕ × Bool)
parsed name base none = (name, (0, false))
parsed name base (some n) =
    if n == 0 || is_empty base then (name, (0, false)) else (base, (n, true))

unfoldable pub parse_instance_name : Text → Text × (ℕ × Bool)
unfolding split_last atoi parsed
parse_instance_name name = elim (split_last name) [
  | none ↦ (name, (0, true))
  | some (before, after) ↦ parsed name before (atoi after)
]

unfoldable pub is_instance_child : Text → Bool
is_instance_child name = let r = parse_instance_name name in r.1.1 && ltb 0 r.1.0

parsed_unsplit : (acc n : ℕ) (s : Text) → parse_digits acc s ≡ some n → split_last s ≡ none
unfolding parse_digits split_last
parsed_unsplit acc n [] e = refl
parsed_unsplit acc n (c ∷ cs) e = elim (Bool-cases (is_digit c)) [
  | inl digit ↦ ground (arith, parsed_unsplit (acc * 10 + (c - 48)) n cs)
  | inr other ↦ absurd (ground arith)
]

split_last-append :
    (base s : Text) → split_last s ≡ none → split_last (base ++ (instance_sep ∷ s)) ≡ some (base, s)
unfolding split_last
split_last-append [] s e = ground arith
split_last-append (c ∷ cs) s e = ground (arith, split_last-append cs s e)

atoi_of_digits :
    (n : ℕ) (s : Text) → s ≢ [] → n < max_int → parse_digits 0 s ≡ some n → atoi s ≡ some n
unfolding atoi unsigned parse_digits
atoi_of_digits n [] h l e = absurd (h refl)
atoi_of_digits n (c ∷ cs) h l e = ground arith

parse-unsplit :
    (name : Text) → split_last name ≡ none → parse_instance_name name ≡ (name, (0, true))
unfolding parse_instance_name
parse-unsplit name e = rw (e, parse_instance_name) refl

parse-child :
    (base : Text) (i : ℕ)
    → is_empty base ≡ false
    → suc i < max_int
    → parse_instance_name (instance_name base (suc i)) ≡ (base, (suc i, true))
unfolding parse_instance_name instance_name parsed
parse-child base i n l =
    let d : Text = decimal (suc i) in
    let digits : parse_digits 0 d ≡ some (suc i) = digits-decimal (suc i) in
    let split : split_last (base ++ (instance_sep ∷ d)) ≡ some (base, d) =
      split_last-append base d (parsed_unsplit 0 (suc i) d digits) in
    let number : atoi d ≡ some (suc i) =
      atoi_of_digits (suc i) d (decimal-ne-nil (suc i)) l digits in
    rw (split, parse_instance_name) (rw number (ground arith))

-- A base name that is not empty and the ordinal of an instance are read back from its runtime name,
-- for every ordinal that fits in an int, if the ordinal is not 0 or the base has no separator; and
-- the name is that of a child exactly if the ordinal is not 0.
pub parse-instance_name :
    (base : Text) (i : ℕ)
    → is_empty base ≡ false
    → i < max_int
    → (split_last base ≡ none) ⊎ (0 < i)
    → (parse_instance_name (instance_name base i) ≡ (base, (i, true)))
      × (is_instance_child (instance_name base i) ≡ ltb 0 i)
unfolding instance_name is_instance_child
parse-instance_name base zero n l (inl e) =
    (parse-unsplit base e, ap (λ r. r.1.1 && ltb 0 r.1.0) (parse-unsplit base e))
parse-instance_name base zero n l (inr h) = absurd (omega arith)
parse-instance_name base (suc i) n l h =
    (parse-child base i n l, ap (λ r. r.1.1 && ltb 0 r.1.0) (parse-child base i n l) ∙ ground arith)
