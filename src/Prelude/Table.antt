-- ===== src/Prelude/Table.antt =====
-- Go maps as association lists. The order of the entries is the order in which `range` visits
-- them; Go leaves it open, and no law here depends on it.
use Prim.Native.Nat.{◌+◌}
use mathlib.Core.Path.{◌≡◌, refl, sym}
use mathlib.Core.Logic.{ite, if_pos, if_neg, ◌≢◌}
use mathlib.Core.Option.{Option, none, some}
use mathlib.Core.List.{List, [], ◌∷◌}
use native.Mathlib.Omega.{arith}
use ahsir.Prelude.Lists.{length, All}

abbrev pub Table {ℓ} : Type ℓ → Type ℓ → Type ℓ
Table K V = List (K × V)

module _ {ℓ} {K V : Type ℓ} where
  -- No entry has the key.
  abbrev pub Misses : K → Table K V → Type ℓ
  Misses k m = All (λ e. e.0 ≢ k) m

  -- No key has two entries.
  abbrev pub Keyed : Table K V → Type ℓ
  Keyed [] = Unit
  Keyed ((k, v) ∷ m) = Misses k m × Keyed m

module _ {ℓ} {K V : Type ℓ} (dec : Discrete K) where
  -- `v, ok := m[k]`
  unfoldable pub get : K → Table K V → Option V
  get k [] = none
  get k ((j, v) ∷ m) = ite (dec j k) (some v) (get k m)

  -- `m[k] = v`
  unfoldable pub put : K → V → Table K V → Table K V
  put k v [] = (k, v) ∷ []
  put k v ((j, w) ∷ m) = ite (dec j k) ((k, v) ∷ m) ((j, w) ∷ put k v m)

  -- `delete(m, k)`
  unfoldable pub delete : K → Table K V → Table K V
  delete k [] = []
  delete k ((j, w) ∷ m) = ite (dec j k) (delete k m) ((j, w) ∷ delete k m)

  pub get-put :
      (k j : K) (v : V) (m : Table K V) → get j (put k v m) ≡ ite (dec k j) (some v) (get j m)
  unfolding get put
  get-put k j v [] = refl
  get-put k j v ((i, w) ∷ m) = ground (arith, get-put k j v m)

  pub get-delete : (k j : K) (m : Table K V) → get j (delete k m) ≡ ite (dec k j) none (get j m)
  unfolding get delete
  get-delete k j [] = ground arith
  get-delete k j ((i, w) ∷ m) = ground (arith, get-delete k j m)

  pub get_missed : (k : K) (m : Table K V) → Misses k m → get k m ≡ none
  unfolding get
  get_missed k [] h = refl
  get_missed k ((j, v) ∷ m) h = ground (arith, get_missed k m h.1)

  pub put-Misses : (k j : K) (v : V) (m : Table K V) → k ≢ j → Misses j m → Misses j (put k v m)
  unfolding put
  put-Misses k j v [] n h = (n, tt)
  put-Misses k j v ((i, w) ∷ m) n h = ground (arith, put-Misses k j v m n h.1)

  pub put-Keyed : (k : K) (v : V) (m : Table K V) → Keyed m → Keyed (put k v m)
  unfolding put
  put-Keyed k v [] h = (tt, tt)
  put-Keyed k v ((i, w) ∷ m) h = elim (dec i k) [
    | yes e ↦ rw (if_pos _ e) (rw (← e) h)
    | no n ↦ rw (if_neg _ n) (put-Misses k i v m (λ e. n (sym e)) h.0, put-Keyed k v m h.1)
  ]

  pub delete-Misses : (k j : K) (m : Table K V) → Misses j m → Misses j (delete k m)
  unfolding delete
  delete-Misses k j [] h = tt
  delete-Misses k j ((i, w) ∷ m) h = ground (arith, delete-Misses k j m h.1)

  pub delete-Keyed : (k : K) (m : Table K V) → Keyed m → Keyed (delete k m)
  unfolding delete
  delete-Keyed k [] h = tt
  delete-Keyed k ((i, w) ∷ m) h = ground (arith, delete-Misses k i m h.0, delete-Keyed k m h.1)

  pub length-put_new :
      (k : K) (v : V) (m : Table K V) → get k m ≡ none → length (put k v m) ≡ length m + 1
  unfolding get put
  length-put_new k v [] h = omega arith
  length-put_new k v ((i, w) ∷ m) h = ground (arith, length-put_new k v m)

  pub length-put_old :
      (k : K) (v w : V) (m : Table K V) → get k m ≡ some w → length (put k v m) ≡ length m
  unfolding get put
  length-put_old k v w [] h = cc
  length-put_old k v w ((i, x) ∷ m) h = ground (arith, length-put_old k v w m)

  pub put-put : (k : K) (v w : V) (m : Table K V) → put k v (put k w m) ≡ put k v m
  unfolding put
  put-put k v w [] = ground arith
  put-put k v w ((i, x) ∷ m) = ground (arith, put-put k v w m)

  pub get-put_self : (k : K) (v : V) (m : Table K V) → get k (put k v m) ≡ some v
  get-put_self k v m = ground (arith, get-put k k v m)
