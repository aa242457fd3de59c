-- ===== src/Prelude/Total.antt =====
-- Sums and predicates over the entries of a table.
use mathlib.Core.Path.{◌≡◌, refl, subst, sym}
use Prim.Native.Nat.{ℕ, ◌+◌}
use mathlib.Core.Option.{Option, none, some}
use mathlib.Core.List.{[], ◌∷◌}
use mathlib.Core.Logic.{if_pos, if_neg}
use native.Mathlib.Omega.{arith}
use ahsir.Prelude.Lists.{All}
use ahsir.Prelude.Table.{Table, Misses, Keyed, get, put, delete}

abbrev pub weigh {ℓ} : {V : Type ℓ} → (V → ℕ) → Option V → ℕ
weigh c none = 0
weigh c (some v) = c v

module _ {ℓ} {K V : Type ℓ} where
  -- The sum of a weight over all entries.
  abbrev pub total : (V → ℕ) → Table K V → ℕ
  total c [] = 0
  total c ((k, v) ∷ m) = c v + total c m

module _ {ℓ} {K V : Type ℓ} (dec : Discrete K) where
  pub total-put :
      (c : V → ℕ) (k : K) (v : V) (m : Table K V)
      → total c (put dec k v m) + weigh c (get dec k m) ≡ total c m + c v
  unfolding get put
  total-put c k v [] = omega arith
  total-put c k v ((j, w) ∷ m) = ground (arith, total-put c k v m)

  total_missed :
      (c : V → ℕ) (k : K) (m : Table K V) → Misses k m → total c (delete dec k m) ≡ total c m
  unfolding delete
  total_missed c k [] h = refl
  total_missed c k ((j, w) ∷ m) h = ground (arith, total_missed c k m h.1)

  pub total-delete :
      (c : V → ℕ) (k : K) (m : Table K V)
      → Keyed m
      → total c (delete dec k m) + weigh c (get dec k m) ≡ total c m
  unfolding get delete
  total-delete c k [] h = omega arith
  total-delete c k ((j, w) ∷ m) h = elim (dec j k) [
    | yes e ↦ ground (arith, total_missed c k m (rw (← e) h.0))
    | no n ↦ ground (arith, total-delete c k m h.1)
  ]

  pub put-All {κ} :
      (P : V → Type κ) (k : K) (v : V) (m : Table K V)
      → P v
      → All (λ e. P e.1) m
      → All (λ e. P e.1) (put dec k v m)
  unfolding put
  put-All P k v [] h a = (h, tt)
  put-All P k v ((j, w) ∷ m) h a = elim (dec j k) [
    | yes e ↦ rw (if_pos _ e) (h, a.1)
    | no n ↦ rw (if_neg _ n) (a.0, put-All P k v m h a.1)
  ]

  pub delete-All {κ} :
      (P : V → Type κ) (k : K) (m : Table K V)
      → All (λ e. P e.1) m
      → All (λ e. P e.1) (delete dec k m)
  unfolding delete
  delete-All P k [] a = tt
  delete-All P k ((j, w) ∷ m) a = elim (dec j k) [
    | yes e ↦ rw (if_pos _ e) (delete-All P k m a.1)
    | no n ↦ rw (if_neg _ n) (a.0, delete-All P k m a.1)
  ]

  pub get-All {κ} :
      (P : V → Type κ) (k : K) (v : V) (m : Table K V)
      → get dec k m ≡ some v
      → All (λ e. P e.1) m
      → P v
  unfolding get
  get-All P k v [] e a = cc
  get-All P k v ((j, w) ∷ m) e a = elim (dec j k) [
    | yes p ↦ subst P (ground arith) a.0
    | no n ↦ get-All P k v m (ground arith) a.1
  ]

  -- In a table without repeated keys each entry is what its key finds.
  pub Keyed-get : (m : Table K V) → Keyed m → All (λ e. get dec e.0 m ≡ some e.1) m
  unfolding get
  Keyed-get [] h = tt
  Keyed-get ((k, v) ∷ m) h = (ground arith, later m h.0 (Keyed-get m h.1))
    where
      later :
          (n : Table K V)
          → Misses k n
          → All (λ e. get dec e.0 m ≡ some e.1) n
          → All (λ e. get dec e.0 ((k, v) ∷ m) ≡ some e.1) n
      later [] h a = tt
      later ((j, w) ∷ n) h a = (rw (if_neg _ (λ e. h.0 (sym e))) a.0, later n h.1 a.1)
