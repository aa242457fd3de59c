-- ===== src/Wrapper/Gate/Fifo.antt =====
-- Lemmas on lines of tickets in order of arrival.
use ahsir.Prelude.{
  inl, inr, Bool-cases, Option-cases, ◌==◌, ℕ, suc, ◌<◌, ◌≡◌, refl, ap, some, List, [], ◌∷◌, ◌++◌,
  length, All, arith,
}
use ahsir.Wrapper.Gate.{snoc, cut}

-- Every ticket is below the bound, and tickets grow along the list.
abbrev pub Ascending : ℕ → List ℕ → Type 0
Ascending n [] = Unit
Ascending n (x ∷ xs) = (x < n) × All (λ y. x < y) xs × Ascending n xs

pub append-snoc {ℓ} : {A : Type ℓ} (xs ys : List A) (t : A) → xs ++ snoc ys t ≡ snoc (xs ++ ys) t
append-snoc [] ys t = refl
append-snoc (x ∷ xs) ys t = ap (◌∷◌ x) (append-snoc xs ys t)

pub length-snoc {ℓ} : {A : Type ℓ} (xs : List A) (t : A) → length (snoc xs t) ≡ suc (length xs)
length-snoc [] t = refl
length-snoc (x ∷ xs) t = ap suc (length-snoc xs t)

All-lt-snoc : (x n : ℕ) (xs : List ℕ) → x < n → All (λ y. x < y) xs → All (λ y. x < y) (snoc xs n)
All-lt-snoc x n [] h a = (h, tt)
All-lt-snoc x n (y ∷ xs) h a = (a.0, All-lt-snoc x n xs h a.1)

pub Ascending-snoc : (n : ℕ) (xs : List ℕ) → Ascending n xs → Ascending (suc n) (snoc xs n)
Ascending-snoc n [] a = omega arith
Ascending-snoc n (x ∷ xs) a =
    (omega (arith, a.0), All-lt-snoc x n xs a.0 a.1, Ascending-snoc n xs a.2)

pub Ascending-suc : (n : ℕ) (xs : List ℕ) → Ascending n xs → Ascending (suc n) xs
Ascending-suc n [] a = tt
Ascending-suc n (x ∷ xs) a = (omega (arith, a.0), a.1, Ascending-suc n xs a.2)

-- What `cut` found: the element, with what stands before and behind it.
abbrev pub Splits : ℕ → List ℕ → List ℕ → Type 0
Splits t xs rest =
    (before : List ℕ) × (after : List ℕ) × (xs ≡ before ++ t ∷ after) × (rest ≡ before ++ after)

pub cut-Splits : (t : ℕ) (xs rest : List ℕ) → cut t xs ≡ some rest → Splits t xs rest
unfolding cut
cut-Splits t [] rest e = cc
cut-Splits t (x ∷ xs) rest e = elim (Bool-cases (x == t)) [
  | inl same ↦ ([], xs, ground arith, ground arith)
  | inr other ↦ elim (Option-cases (cut t xs)) [
    | inl missing ↦ absurd (ground arith)
    | inr (r, found) ↦
        let (before, after, p, q) = cut-Splits t xs r found in
        (x ∷ before, after, ap (◌∷◌ x) p, ground arith)
  ]
]

All-lt-without :
    (x t : ℕ) (before after : List ℕ)
    → All (λ y. x < y) (before ++ t ∷ after)
    → All (λ y. x < y) (before ++ after)
All-lt-without x t [] after a = a.1
All-lt-without x t (y ∷ before) after a = (a.0, All-lt-without x t before after a.1)

pub Ascending-without :
    (n t : ℕ) (before after : List ℕ)
    → Ascending n (before ++ t ∷ after)
    → Ascending n (before ++ after)
Ascending-without n t [] after a = a.2
Ascending-without n t (x ∷ before) after a =
    (a.0, All-lt-without x t before after a.1, Ascending-without n t before after a.2)
