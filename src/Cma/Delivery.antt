-- ===== src/Cma/Delivery.antt =====
-- From a request to the end of its outcome.
use ahsir.Cma.Runs.{execute_outcome-Ends}
use ahsir.Cma.Request.{
  rejected, Verdict, begun, new_outcome, delivered, deliver_define_outcome, max_rubric_bytes,
  max_description_bytes, cap_of, Rubric, WireInt, Accepted, iterations_of, validate_rubric,
  DefineOutcome, OutcomeConfig, validate_iterations, validate_define_outcome, natural, negative,
  accepted, conflict, not_persisted,
}
use ahsir.Cma.Turn.{World}
use ahsir.Cma.Loop.{execute_outcome}
use ahsir.Cma.Ends.{Ends}
use ahsir.Cma.Outcome.{
  last_active, Session, emit, OutcomeEvaluation, outcome_terminal, begin_outcome, find_outcome,
}
use ahsir.Prelude.{
  ℕ, suc, ◌-◌, ◌≤◌, ◌<◌, ◌≡◌, refl, sym, ap, ◌∙◌, ◌≢◌, inl, inr, true, false, Bool, Option, none,
  some, List, [], ◌∷◌, ◌++◌, arith, ltb, if◌then◌else◌, length, Bool-cases, Option-cases,
}
use ahsir.Prelude.Text.{Text, text, is_empty, text_eq}

-- What an accepted request has.
pub record Fits (trim : Text → Text) (c : OutcomeConfig) (ev : DefineOutcome) (a : Accepted)
    : Type 0 where
  pub rubric : Rubric
  pub inline : (ev.rubric ≡ some rubric) × (rubric.kind ≡ text "text")
  pub trimmed : (a.description ≡ trim ev.description) × (a.rubric ≡ trim rubric.content)
  pub stated : (a.description ≢ []) × (a.rubric ≢ [])
  pub small :
      (length ev.description ≤ max_description_bytes) × (length rubric.content ≤ max_rubric_bytes)
  pub some_iterations : 0 < a.max_iterations
  pub asked :
      ((n : ℕ) × (ev.max_iterations ≡ natural n)
        × (n ≤ cap_of c)
        × (a.max_iterations ≡ iterations_of c n))

text_eq→eq : (a b : Text) → text_eq a b ≡ true → a ≡ b
text_eq→eq a b e = ground arith

is_empty→ne : (a : Text) → is_empty a ≡ false → a ≢ []
is_empty→ne [] e q = cc
is_empty→ne (x ∷ a) e q = cc

validate_iterations-accepted :
    (c : OutcomeConfig) (d r : Text) (n : WireInt) (a : Accepted)
    → validate_iterations c d r n ≡ accepted a
    → (a.description ≡ d)
      × (a.rubric ≡ r)
      × (0 < a.max_iterations)
      × ((m : ℕ) × (n ≡ natural m) × (m ≤ cap_of c) × (a.max_iterations ≡ iterations_of c m))
unfolding validate_iterations iterations_of
validate_iterations-accepted c d r negative a e = cc
validate_iterations-accepted c d r (natural m) a e =
    (ground arith, ground arith, ground arith, (m, refl, ground arith, ground arith))

-- A request is accepted only with an inline rubric, a description and a rubric that are not blank
-- nor too long, and at most as many iterations as the cap; it gets at least one iteration, the
-- configured default where it asks for none.
pub validate-Fits :
    (trim : Text → Text) (c : OutcomeConfig) (ev : DefineOutcome) (a : Accepted)
    → validate_define_outcome trim c ev ≡ accepted a
    → Fits trim c ev a
unfolding validate_define_outcome validate_rubric
validate-Fits trim c ev a e = elim (Option-cases ev.rubric) [
  | inl n ↦ ground arith
  | inr (r, q) ↦
      let f : validate_iterations c (trim ev.description) (trim r.content) ev.max_iterations
          ≡ accepted a =
        ground arith in
      let g =
        validate_iterations-accepted c (trim ev.description) (trim r.content) ev.max_iterations a
          f in
      record {
        rubric = r;
        inline = (q, text_eq→eq r.kind (text "text") (ground arith));
        trimmed = (g.0, g.1);
        stated = (
          λ z. is_empty→ne (trim ev.description) (ground arith) (sym g.0 ∙ z),
          λ z. is_empty→ne (trim r.content) (ground arith) (sym g.1 ∙ z),
        );
        small = (ground arith, ground arith);
        some_iterations = g.2;
        asked = g.3;
      }
]

-- The most rounds that an outcome gets.
abbrev pub most_rounds : OutcomeConfig → ℕ
most_rounds c = if ltb (cap_of c) (iterations_of c 0) then iterations_of c 0 else cap_of c

iterations-le : (c : OutcomeConfig) (n : ℕ) → n ≤ cap_of c → iterations_of c n ≤ most_rounds c
unfolding iterations_of
iterations-le c n h = ground arith

find-append :
    (id : ℕ) (os : List OutcomeEvaluation) (oc : OutcomeEvaluation)
    → find_outcome id os ≡ none
    → oc.outcome_id ≡ id
    → find_outcome id (os ++ (oc ∷ [])) ≡ some oc
unfolding find_outcome
find-append id [] oc n e = ground arith
find-append id (o ∷ os) oc n e = ground (arith, find-append id os oc)

begun-found :
    (disk : Bool) (id now : ℕ) (a : Accepted) (s t : Session)
    → find_outcome id s.outcomes ≡ none
    → delivered disk id now a s ≡ (begun, t)
    → find_outcome id t.outcomes ≡ some (new_outcome id now a)
unfolding delivered begin_outcome emit
begun-found disk id now a s t n e = elim (Bool-cases (last_active s.outcomes)) [
  | inl y ↦ ground arith
  | inr d ↦
      let f : t.outcomes ≡ s.outcomes ++ (new_outcome id now a ∷ []) = ground arith in
      ap (find_outcome id) f
      ∙ find-append id s.outcomes (new_outcome id now a) n (unfold new_outcome in refl)
]

-- An outcome under a new id whose request is answered with success is run to an end, whatever its
-- turns and gradings meet: in at most as many rounds as the cap or the default allows and one more
-- turn, with a `needs_revision` for each round before the last and one terminal result, which is
-- recorded; the result is `satisfied` only if a grader said so of a reply that is stored, and
-- `max_iterations_reached` only in the last round; and the session is left idle, unless a failed turn
-- terminated it.
pub deliver-Ends :
    (trim : Text → Text) (c : OutcomeConfig) (w : World) (disk : Bool) (id now : ℕ)
    (ev : DefineOutcome) (s t : Session) (missing : Option Text)
    → find_outcome id s.outcomes ≡ none
    → deliver_define_outcome trim c disk id now ev s ≡ (begun, t)
    → (rounds : ℕ) × (0 < rounds)
      × (rounds ≤ most_rounds c)
      × Ends w id 0 rounds t (execute_outcome w id missing t)
unfolding deliver_define_outcome new_outcome
deliver-Ends trim c w disk id now ev s t missing n e = go (validate_define_outcome trim c ev) refl
  where
    go :
        (v : Verdict)
        → validate_define_outcome trim c ev ≡ v
        → (rounds : ℕ) × (0 < rounds)
          × (rounds ≤ most_rounds c)
          × Ends w id 0 rounds t (execute_outcome w id missing t)
    go (rejected x) q = absurd (ground arith)
    go (accepted a) q =
        let fits = validate-Fits trim c ev a q in
        let (m, x, y, z) = fits.asked in
        let d : delivered disk id now a s ≡ (begun, t) = ground arith in
        let k = a.max_iterations - 1 in
        (
          suc k,
          omega arith,
          omega (arith, iterations-le c m y, fits.some_iterations),
          execute_outcome-Ends w (new_outcome id now a) missing k t
              (begun-found disk id now a s t n d) (omega (arith, fits.some_iterations)),
        )

still_active :
    (os : List OutcomeEvaluation) (oc : OutcomeEvaluation)
    → outcome_terminal oc.result ≡ false
    → last_active (os ++ (oc ∷ [])) ≡ true
unfolding last_active
still_active [] oc e = ground arith
still_active (o ∷ []) oc e = ground arith
still_active (o ∷ p ∷ os) oc e = still_active (p ∷ os) oc e

left_active :
    (disk : Bool) (id now : ℕ) (a : Accepted) (s t : Session)
    → delivered disk id now a s ≡ (not_persisted, t)
    → last_active t.outcomes ≡ true
unfolding delivered begin_outcome
left_active disk id now a s t e = elim (Bool-cases (last_active s.outcomes)) [
  | inl y ↦ ground arith
  | inr d ↦
      let f : t.outcomes ≡ s.outcomes ++ (new_outcome id now a ∷ []) = ground arith in
      ap last_active f
      ∙ still_active s.outcomes (new_outcome id now a) (unfold new_outcome outcome_terminal in refl)
]

-- A request that is refused because the store cannot be written leaves its outcome active with no
-- turn to run it: every acceptable request after it meets a conflict, and changes nothing.
stranded :
    (trim : Text → Text) (c : OutcomeConfig) (disk disk' : Bool) (id id' now now' : ℕ)
    (ev ev' : DefineOutcome) (a' : Accepted) (s t : Session)
    → deliver_define_outcome trim c disk id now ev s ≡ (not_persisted, t)
    → validate_define_outcome trim c ev' ≡ accepted a'
    → deliver_define_outcome trim c disk' id' now' ev' t ≡ (conflict, t)
unfolding deliver_define_outcome
stranded trim c disk disk' id id' now now' ev ev' a' s t e f =
    rw (f, deliver_define_outcome) (go (validate_define_outcome trim c ev) refl)
  where
    go :
        (v : Verdict)
        → validate_define_outcome trim c ev ≡ v
        → delivered disk' id' now' a' t ≡ (conflict, t)
    go (rejected x) q = absurd (ground arith)
    go (accepted a) q =
        let d : delivered disk id now a s ≡ (not_persisted, t) = ground arith in
        let on : last_active t.outcomes ≡ true = left_active disk id now a s t d in
        unfold delivered begin_outcome in rw on refl
