-- ===== src/Cma/Moves.antt =====
-- What the steps of the loop add to a session: end events, turns, and changes of the outcome.
use mathlib.Core.Path.{subst}
use mathlib.Core.List.{append_assoc, append-nil}
use ahsir.Cma.Outcome.{
  update_outcome, emit, Session, OutcomeResult, OutcomeEvaluation, update_last, Event, status_idle,
  status_running, status_terminated, session_error, facade_timeout, agent_message, define_outcome,
  evaluation_start, evaluation_ongoing, evaluation_end,
}
use ahsir.Prelude.{
  ℕ, ◌+◌, ◌≡◌, refl, sym, ap, ◌∙◌, inl, inr, Option, none, some, List, [], ◌∷◌, ◌++◌, arith, ◌==◌,
  if◌then◌else◌, length, Option-cases,
}

-- The results of an outcome's end events, in order.
abbrev pub ends : ℕ → List Event → List OutcomeResult
ends id [] = []
ends id (evaluation_end j i start result explanation ∷ evs) =
    let rest = ends id evs in if j == id then result ∷ rest else rest
ends id (ev ∷ evs) = ends id evs

-- The last entry with the id.
abbrev pub latest : ℕ → List OutcomeEvaluation → Option OutcomeEvaluation
latest id [] = none
latest id (o ∷ os) = elim (latest id os) [
  | some p ↦ some p
  | none ↦ if o.outcome_id == id then some o else none
]

pub ends-append : (id : ℕ) (a b : List Event) → ends id (a ++ b) ≡ ends id a ++ ends id b
ends-append id [] b = refl
ends-append id (evaluation_end j i start result explanation ∷ a) b =
    ground (arith, ends-append id a b)
ends-append id (define_outcome j n ∷ a) b = ends-append id a b
ends-append id (evaluation_start j n ∷ a) b = ends-append id a b
ends-append id (evaluation_ongoing j n ∷ a) b = ends-append id a b
ends-append id (status_running ∷ a) b = ends-append id a b
ends-append id (status_idle ∷ a) b = ends-append id a b
ends-append id (status_terminated ∷ a) b = ends-append id a b
ends-append id (session_error t ∷ a) b = ends-append id a b
ends-append id (facade_timeout ∷ a) b = ends-append id a b
ends-append id (agent_message t ∷ a) b = ends-append id a b

-- A change of the entry with the id.
abbrev pub KeepsId : (OutcomeEvaluation → OutcomeEvaluation) → Type 0
KeepsId f = (o : OutcomeEvaluation) → (f o).outcome_id ≡ o.outcome_id

pub update_last-none :
    (id : ℕ) (f : OutcomeEvaluation → OutcomeEvaluation) (os : List OutcomeEvaluation)
    → latest id os ≡ none
    → update_last id f os ≡ none
unfolding update_last
update_last-none id f [] e = refl
update_last-none id f (o ∷ os) e = ground (arith, update_last-none id f os)

pub update_last-latest :
    (id : ℕ) (f : OutcomeEvaluation → OutcomeEvaluation) (os : List OutcomeEvaluation)
    (o : OutcomeEvaluation)
    → KeepsId f
    → latest id os ≡ some o
    → (r : List OutcomeEvaluation) × (update_last id f os ≡ some r) × (latest id r ≡ some (f o))
unfolding update_last
update_last-latest id f [] o k e = cc
update_last-latest id f (p ∷ os) o k e = elim (Option-cases (latest id os)) [
  | inl n ↦ (f p ∷ os, ground (arith, update_last-none id f os), ground (arith, k p))
  | inr (q, m) ↦
      let (r, a, b) = update_last-latest id f os q k m in (p ∷ r, ground arith, ground arith)
]

-- From one session to another: the end events and the turns added, and the outcome, which holds
-- `P` at the end.
pub record Moved (id : ℕ) (s t : Session) (new : List OutcomeResult) (turns : ℕ)
    (P : OutcomeEvaluation → Type 0) : Type 0 where
  pub added : ends id t.events ≡ ends id s.events ++ new
  pub asked : length t.prompts ≡ length s.prompts + turns
  pub entry : OutcomeEvaluation
  pub found : latest id t.outcomes ≡ some entry
  pub holds : P entry

-- Anything.
abbrev pub Any : OutcomeEvaluation → Type 0
Any o = Unit

-- The start of a chain.
pub stays :
    (id : ℕ) (s : Session) (o : OutcomeEvaluation)
    → latest id s.outcomes ≡ some o
    → Moved id s s [] 0 Any
stays id s o e = record {
  added = sym (append-nil (ends id s.events));
  asked = omega arith;
  entry = o;
  found = e;
  holds = tt;
}

module _ (id : ℕ) (s t : Session) (new : List OutcomeResult) (turns : ℕ)
    (P : OutcomeEvaluation → Type 0) (m : Moved id s t new turns P) where
  pub emit-Moved : (ev : Event) → Moved id s (emit ev t) (new ++ ends id (ev ∷ [])) turns P
  unfolding emit
  emit-Moved ev = record {
    added =
        ends-append id t.events (ev ∷ [])
        ∙ (ap (λ (x : List OutcomeResult). x ++ ends id (ev ∷ [])) m.added
            ∙ append_assoc (ends id s.events) new (ends id (ev ∷ [])));
    asked = m.asked;
    entry = m.entry;
    found = m.found;
    holds = m.holds;
  }

  -- An event that is not an end.
  pub quiet-Moved : (ev : Event) → ends id (ev ∷ []) ≡ [] → Moved id s (emit ev t) new turns P
  quiet-Moved ev e =
      subst (λ (x : List OutcomeResult). Moved id s (emit ev t) x turns P)
        (ap (λ (x : List OutcomeResult). new ++ x) e ∙ append-nil new) (emit-Moved ev)

  pub update-Moved :
      (clock : ℕ → ℕ) (f : OutcomeEvaluation → OutcomeEvaluation) (Q : OutcomeEvaluation → Type 0)
      → KeepsId f
      → ((now : ℕ) → Q (record (f m.entry) { updated_at = now }))
      → Moved id s (update_outcome clock id f t) new turns Q
  unfolding update_outcome
  update-Moved clock f Q k q =
      let now = clock t.ticks in
      let (r, a, b) =
        update_last-latest id (λ (o : OutcomeEvaluation). record (f o) { updated_at = now })
          t.outcomes m.entry k m.found in
      rw (a, update_outcome)
        (record {
          added = m.added;
          asked = m.asked;
          entry = record (f m.entry) { updated_at = now };
          found = b;
          holds = q now;
        })

pub weaken-Moved :
    {id : ℕ} {s t : Session} {new : List OutcomeResult} {turns : ℕ} {P : OutcomeEvaluation → Type 0}
    → Moved id s t new turns P
    → Moved id s t new turns Any
weaken-Moved m = record {
  added = m.added;
  asked = m.asked;
  entry = m.entry;
  found = m.found;
  holds = tt;
}
