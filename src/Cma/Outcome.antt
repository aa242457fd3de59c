-- ===== src/Cma/Outcome.antt =====
-- The session's outcomes and events, and the operations that change them
-- (internal/cmagateway/cma/types.go, store/store.go, outcome.go, grader.go).
use ahsir.Prelude.{
  ℕ, zero, suc, Bool, true, false, not, ◌&&◌, ◌||◌, Option, none, some, List, [], ◌∷◌, ◌++◌, ltb,
  leb, ◌==◌, if◌then◌else◌, length, take,
}
use ahsir.Prelude.Text.{Text, text}

pub data OutcomeResult : Type 0 where
  pending : OutcomeResult
  running : OutcomeResult
  evaluating : OutcomeResult
  satisfied : OutcomeResult
  needs_revision : OutcomeResult
  max_iterations_reached : OutcomeResult
  failed : OutcomeResult
  interrupted : OutcomeResult

unfoldable pub outcome_terminal : OutcomeResult → Bool
outcome_terminal OutcomeResult.satisfied = true
outcome_terminal OutcomeResult.max_iterations_reached = true
outcome_terminal OutcomeResult.failed = true
outcome_terminal OutcomeResult.interrupted = true
outcome_terminal _ = false

pub record OutcomeCriterion : Type 0 where
  pub criterion : Text
  pub passed : Bool
  pub feedback : Text

pub record OutcomeGrade : Type 0 where
  pub verdict : Text
  pub criteria : List OutcomeCriterion
  pub explanation : Text

pub record OutcomeEvaluation : Type 0 where
  pub outcome_id : ℕ
  pub description : Text
  pub rubric : Text
  pub max_iterations : ℕ
  pub iteration : ℕ
  pub result : OutcomeResult
  pub explanation : Text
  pub criteria : List OutcomeCriterion
  pub deliverable : Text
  pub created_at : ℕ
  pub updated_at : ℕ
  pub completed_at : Option ℕ

pub data Status : Type 0 where
  idle : Status
  running : Status
  terminated : Status

-- An event's id is its place in the log. `evaluation_end` carries the place of the start that it
-- closes, if there was one.
pub data Event : Type 0 where
  define_outcome : ℕ → ℕ → Event
  evaluation_start : ℕ → ℕ → Event
  evaluation_ongoing : ℕ → ℕ → Event
  evaluation_end : ℕ → ℕ → Option ℕ → OutcomeResult → Text → Event
  status_running : Event
  status_idle : Event
  status_terminated : Event
  session_error : Text → Event
  facade_timeout : Event
  agent_message : Text → Event

-- `prompts` are the texts of the executor's turns, and `ticks` counts the readings of the clock.
pub record Session : Type 0 where
  pub outcomes : List OutcomeEvaluation
  pub events : List Event
  pub status : Status
  pub prompts : List Text
  pub cancelable : Bool
  pub ticks : ℕ

unfoldable pub emit : Event → Session → Session
emit ev s = record s { events = s.events ++ (ev ∷ []) }

unfoldable pub emit_idle : Session → Session
unfolding emit
emit_idle s = record (emit status_idle s) { status = idle }

-- `emitOutcomeEnd`
unfoldable pub emit_outcome_end : ℕ → ℕ → Option ℕ → OutcomeResult → Text → Session → Session
unfolding emit
emit_outcome_end id i start result explanation s =
    emit (evaluation_end id i start result explanation) s

-- The last entry with the id, changed, if there is one.
unfoldable pub update_last :
    ℕ
    → (OutcomeEvaluation → OutcomeEvaluation)
    → List OutcomeEvaluation
    → Option (List OutcomeEvaluation)
update_last id f [] = none
update_last id f (o ∷ os) = elim (update_last id f os) [
  | some r ↦ some (o ∷ r)
  | none ↦ if o.outcome_id == id then some (f o ∷ os) else none
]

module _ (clock : ℕ → ℕ) where
  unfoldable pub update_outcome : ℕ → (OutcomeEvaluation → OutcomeEvaluation) → Session → Session
  unfolding update_last
  update_outcome id f s =
      let now = clock s.ticks in
      elim (update_last id (λ (o : OutcomeEvaluation). record (f o) { updated_at = now })
        s.outcomes) [ none ↦ s | some os ↦ record s { outcomes = os; ticks = suc s.ticks } ]

  unfoldable pub finish_outcome : ℕ → (OutcomeEvaluation → OutcomeEvaluation) → Session → Session
  unfolding update_outcome
  finish_outcome id f s =
      let now = clock s.ticks in
      update_outcome id (λ (o : OutcomeEvaluation). record (f o) { completed_at = some now })
        (record s { ticks = suc s.ticks })

-- The first entry with the id.
unfoldable pub find_outcome : ℕ → List OutcomeEvaluation → Option OutcomeEvaluation
find_outcome id [] = none
find_outcome id (o ∷ os) =
    let rest = find_outcome id os in if o.outcome_id == id then some o else rest

-- Whether the latest outcome is still active.
unfoldable pub last_active : List OutcomeEvaluation → Bool
last_active [] = false
last_active (o ∷ []) = not (outcome_terminal o.result)
last_active (o ∷ p ∷ os) = last_active (p ∷ os)

-- `beginOutcome` with a cancel function: whether it began, whether the store's file was written
-- (no error), and the session, which keeps the outcome where it was not. `disk` is whether a write
-- of the file succeeds.
unfoldable pub begin_outcome : Bool → OutcomeEvaluation → Session → Bool × Bool × Session
unfolding last_active
begin_outcome disk oc s =
    if last_active s.outcomes
    then (false, true, s)
    else (true, disk, record s { outcomes = s.outcomes ++ (oc ∷ []); cancelable = true })

-- The byte at an index; the code reads none that is out of range.
unfoldable pub byte_at : ℕ → Text → ℕ
byte_at i [] = 0
byte_at zero (c ∷ cs) = c
byte_at (suc i) (c ∷ cs) = byte_at i cs

-- `utf8.RuneStart`
abbrev pub is_rune_start : ℕ → Bool
is_rune_start b = not (leb 128 b && ltb b 192)

unfoldable pub rune_cut : ℕ → Text → ℕ
unfolding byte_at
rune_cut zero s = 0
rune_cut (suc max) s =
    let rest = rune_cut max s in if is_rune_start (byte_at (suc max) s) then suc max else rest

unfoldable pub truncate_for_outcome : Text → ℕ → Text
unfolding rune_cut
truncate_for_outcome s max =
    if max == 0 || leb (length s) max
    then s
    else take (rune_cut max s) s ++ (226 ∷ 128 ∷ 166 ∷ text " [truncated]")
