-- ===== src/Scheduler/Rooms/Mentions.antt =====
-- What the mentions of a text name (`parseMentions` of internal/scheduler/rooms.go).
use mathlib.Core.Path.{subst}
use ahsir.Prelude.{
  ◌||◌, Bool-cases, Option-cases, if_neg, ap, if_pos, ◌∙◌, sym, some, false, inr, ◌⊎◌, [], any, inl,
  ◌≡◌, All, ◌∷◌, ◌≢◌, List, arith, refl,
}
use ahsir.Prelude.Table.{get_missed, get-put, get, put, Table}
use ahsir.Prelude.Text.{Text-discrete, text_eq, Text}
use ahsir.Scheduler.Rooms.Room.{pick, parse_mentions, canon_names}

abbrev pub In : Text → List Text → Type 0
In p [] = ⊥
In p (x ∷ xs) = (x ≡ p) ⊎ In p xs

abbrev pub Distinct : List Text → Type 0
Distinct [] = Unit
Distinct (x ∷ xs) = All (λ y. x ≢ y) xs × Distinct xs

All-In : (P : Text → Type 0) (xs : List Text) → ((x : Text) → In x xs → P x) → All P xs
All-In P [] h = tt
All-In P (x ∷ xs) h = (h x (inl refl), All-In P xs (λ y m. h y (inr m)))

pub All-map :
    (P Q : Text → Type 0) (xs : List Text) → ((x : Text) → P x → Q x) → All P xs → All Q xs
All-map P Q [] f h = tt
All-map P Q (x ∷ xs) f h = (f x h.0, All-map P Q xs f h.1)

module _ (lower : Text → Text) (tokens : Text → List Text) where
  -- Each key of `canon` is the folded name of the participant under it.
  abbrev Canonical : List Text → Table Text Text → Type 0
  Canonical ps m = (k p : Text) → get Text-discrete k m ≡ some p → In p ps × (lower p ≡ k)

  canon_names-Canonical :
      (all ps : List Text) (m : Table Text Text)
      → Canonical all m
      → All (λ p. In p all) ps
      → Canonical all (canon_names lower tokens ps m)
  unfolding canon_names
  canon_names-Canonical all [] m h a = h
  canon_names-Canonical all (p ∷ ps) m h a =
      canon_names-Canonical all ps (put Text-discrete (lower p) p m)
        (λ k q e. elim (Text-discrete (lower p) k) [
          | yes same ↦
              let found : some p ≡ some q =
                sym (
                  get-put Text-discrete (lower p) k p m
                  ∙ if_pos (Text-discrete (lower p) k) same (some p) (get Text-discrete k m))
                ∙ e in
              let eq : p ≡ q = cc in (subst (λ x. In x all) eq a.0, ap lower (sym eq) ∙ same)
          | no n ↦ h k q (
              sym (
                get-put Text-discrete (lower p) k p m
                ∙ if_neg (Text-discrete (lower p) k) n (some p) (get Text-discrete k m))
              ∙ e)
        ])
        a.1

  abbrev Fresh : List Text → Text → List Text → Text → Type 0
  Fresh ps self seen p = In p ps × ((p ≢ self) × (any (text_eq (lower p)) seen ≡ false))

  abbrev Picked : List Text → Text → List Text → List Text → Type 0
  Picked ps self seen out = All (Fresh ps self seen) out × Distinct out

  -- A fresh name in front of names that were picked after it.
  Picked-cons :
      (ps : List Text) (self p : Text) (seen out : List Text)
      → Fresh ps self seen p
      → Picked ps self (lower p ∷ seen) out
      → Picked ps self seen (p ∷ out)
  Picked-cons ps self p seen out f (fresh, distinct) = (
    (
      f,
      All-map _ _ out
          (λ q (g : Fresh ps self (lower p ∷ seen) q). (g.0, (g.1.0, ground (arith, g.1.1)))) fresh,
    ),
    (
      All-map _ _ out
          (λ q (g : Fresh ps self (lower p ∷ seen) q) (e : p ≡ q).
            let same : lower q ≡ lower p = ap lower (sym e) in ground (arith, g.1.1, same))
          fresh,
      distinct,
    ),
  )

  pick-Fresh :
      (ps : List Text) (canon : Table Text Text) (self : Text) (toks seen : List Text)
      → Canonical ps canon
      → Picked ps self seen (pick lower tokens canon self seen toks)
  unfolding pick
  pick-Fresh ps canon self [] seen h = (tt, tt)
  pick-Fresh ps canon self (tok ∷ toks) seen h =
      let name = lower tok in
      elim (Option-cases (get Text-discrete name canon)) [
        | inl e ↦ rw (pick, e) (pick-Fresh ps canon self toks seen h)
        | inr (p, e) ↦ elim (Bool-cases (text_eq p self || any (text_eq name) seen)) [
          | inl t ↦ rw (pick, e, t) (pick-Fresh ps canon self toks seen h)
          | inr f ↦
              let (known, same) = h name p e in
              let away : p ≢ self = ground arith in
              let unseen : any (text_eq (lower p)) seen ≡ false = rw same (ground arith) in
              rw (pick, e, f)
                (Picked-cons ps self p seen _ (known, (away, unseen))
                  (subst
                    (λ k.
                      Picked ps self (k ∷ seen) (pick lower tokens canon self (name ∷ seen) toks))
                    (sym same) (pick-Fresh ps canon self toks (name ∷ seen) h)))
        ]
      ]

  -- The names that a text mentions are participants, none is the speaker itself, and none occurs
  -- twice.
  pub parse_mentions-Distinct :
      (body : Text) (participants : List Text) (self : Text)
      → let out = parse_mentions lower tokens body participants self in
        All (λ p. In p participants × (p ≢ self)) out × Distinct out
  unfolding parse_mentions
  parse_mentions-Distinct body participants self =
      let (fresh, distinct) =
        pick-Fresh participants (canon_names lower tokens participants []) self (tokens body) [] (
          canon_names-Canonical participants participants []
            (λ k p e. absurd (let none_found = get_missed {V = Text} Text-discrete k [] tt in cc))
            (All-In _ participants (λ x m. m))) in
      (All-map _ _ _ (λ x f. (f.0, f.1.0)) fresh, distinct)
