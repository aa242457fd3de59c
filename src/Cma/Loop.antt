-- ===== src/Cma/Loop.antt =====
-- The loop of an outcome: a turn, its independent grading, and a revision or the end
-- (internal/cmagateway/outcome.go).
use ahsir.Cma.Turn.{
  canceled, graded, reply, errs, outcome_ack_prompt, outcome_prompt, ungraded, grade_with_retry,
  Round, execute_turn_core, Graded, TurnResult, World,
}
use ahsir.Cma.Outcome.{
  evaluation_start, finish_outcome, OutcomeResult, OutcomeGrade, Session, emit_outcome_end,
  emit_idle, emit, truncate_for_outcome, OutcomeEvaluation, update_outcome, find_outcome,
}
use ahsir.Cma.Request.{max_deliverable_bytes}
use ahsir.Prelude.{
  ℕ, zero, suc, ◌+◌, Bool, false, Option, none, some, ◌++◌, leb, if◌then◌else◌, length,
}
use ahsir.Prelude.Text.{Text, text, is_empty, text_eq}

abbrev pub is_satisfied : OutcomeGrade → Bool
is_satisfied g = text_eq g.verdict (text "satisfied")

module _ (w : World) where
  -- `emitOutcomeEnd`, and the record of a terminal result.
  unfoldable pub conclude :
      ℕ
      → ℕ
      → Option ℕ
      → OutcomeResult
      → Text
      → (OutcomeEvaluation → OutcomeEvaluation)
      → Session
      → Session
  unfolding emit_outcome_end finish_outcome
  conclude id i start result shown f s =
      finish_outcome w.clock id (λ (o : OutcomeEvaluation). record (f o) { result = result })
        (emit_outcome_end id i start result shown s)

  unfoldable pub finish_outcome_interrupted : ℕ → ℕ → Option ℕ → Session → Session
  unfolding conclude emit_idle
  finish_outcome_interrupted id i start s =
      let m = text "outcome interrupted by user" in
      emit_idle (
        conclude id i start OutcomeResult.interrupted m
          (λ (o : OutcomeEvaluation). record o { explanation = m }) s)

  unfoldable pub with_grade : OutcomeGrade → Text → OutcomeEvaluation → OutcomeEvaluation
  unfolding truncate_for_outcome
  with_grade g deliverable o = record o {
    explanation = g.explanation;
    criteria = g.criteria;
    deliverable = truncate_for_outcome deliverable max_deliverable_bytes;
  }

  -- What the acknowledgement leaves.
  unfoldable pub acknowledge : ℕ → TurnResult × Session → Session
  unfolding update_outcome truncate_for_outcome
  acknowledge id (canceled, s) = s
  acknowledge id (errs detail, s) = s
  acknowledge id (reply t, s) =
      if is_empty (w.trim t)
      then s
      else update_outcome w.clock id
          (λ (o : OutcomeEvaluation). record o {
            deliverable = truncate_for_outcome t max_deliverable_bytes;
          })
          s

  unfoldable pub exhaust : OutcomeEvaluation → ℕ → ℕ → OutcomeGrade → Text → Session → Session
  unfolding conclude with_grade acknowledge execute_turn_core outcome_ack_prompt emit_idle
  exhaust oc i start g deliverable s =
      let s1 =
        conclude oc.outcome_id i (some start) OutcomeResult.max_iterations_reached g.explanation
          (with_grade g deliverable) s in
      emit_idle (
        acknowledge oc.outcome_id
          (execute_turn_core (outcome_ack_prompt oc g) w.acknowledgement s1))

  unfoldable pub revise : OutcomeEvaluation → ℕ → ℕ → OutcomeGrade → Session → Session
  unfolding emit_outcome_end update_outcome
  revise oc i start g s =
      update_outcome w.clock oc.outcome_id
        (λ (o : OutcomeEvaluation). record o { explanation = g.explanation; criteria = g.criteria })
        (emit_outcome_end oc.outcome_id i (some start) OutcomeResult.needs_revision g.explanation s)

  -- What follows a grading; `go` is the next round.
  unfoldable pub on_grade :
      OutcomeEvaluation
      → ℕ
      → ℕ
      → Text
      → (OutcomeGrade → Session → Session)
      → Graded
      → Session
      → Session
  unfolding conclude with_grade exhaust revise emit_idle
  on_grade oc i start deliverable go (ungraded detail) s =
      let m = text "grader failed after one retry: " ++ detail in
      emit_idle (
        conclude oc.outcome_id i (some start) OutcomeResult.failed m
          (λ (o : OutcomeEvaluation). record o { explanation = m }) s)
  on_grade oc i start deliverable go (graded g) s =
      if is_satisfied g
      then emit_idle (
          conclude oc.outcome_id i (some start) OutcomeResult.satisfied g.explanation
            (with_grade g deliverable) s)
      else if leb oc.max_iterations (i + 1)
      then exhaust oc i start g deliverable s
      else go g (revise oc i start g s)

  unfoldable pub on_reply :
      OutcomeEvaluation → ℕ → Round → Text → (OutcomeGrade → Session → Session) → Session → Session
  unfolding emit update_outcome grade_with_retry on_grade finish_outcome_interrupted
  on_reply oc i r deliverable go s =
      let start = length s.events in
      let s1 =
        update_outcome w.clock oc.outcome_id
          (λ (o : OutcomeEvaluation). record o { result = OutcomeResult.evaluating; iteration = i })
          (emit (evaluation_start oc.outcome_id i) s) in
      let g = grade_with_retry oc.outcome_id i r.first r.second s1 in
      if r.stopped_grading
      then finish_outcome_interrupted oc.outcome_id i (some start) g.1
      else on_grade oc i start deliverable go g.0 g.1

  unfoldable pub on_turn :
      OutcomeEvaluation
      → ℕ
      → Round
      → (OutcomeGrade → Session → Session)
      → TurnResult
      → Session
      → Session
  unfolding conclude on_reply finish_outcome_interrupted
  on_turn oc i r go canceled s = finish_outcome_interrupted oc.outcome_id i none s
  on_turn oc i r go (errs detail) s =
      if r.stopped_turn
      then finish_outcome_interrupted oc.outcome_id i none s
      else conclude oc.outcome_id i none OutcomeResult.failed
          (text "executor turn failed: " ++ detail)
          (λ (o : OutcomeEvaluation). record o { explanation = text "executor turn failed" }) s
  on_turn oc i r go (reply t) s =
      if r.stopped_turn
      then finish_outcome_interrupted oc.outcome_id i none s
      else on_reply oc i r t go s

  -- One round of the loop.
  unfoldable pub play_round :
      OutcomeEvaluation
      → ℕ
      → Round
      → Option OutcomeGrade
      → (OutcomeGrade → Session → Session)
      → Session
      → Session
  unfolding on_turn execute_turn_core outcome_prompt update_outcome finish_outcome_interrupted
  play_round oc i r last go s =
      let s1 =
        update_outcome w.clock oc.outcome_id
          (λ (o : OutcomeEvaluation). record o { result = OutcomeResult.running; iteration = i })
          s in
      let t = execute_turn_core (outcome_prompt oc i last) r.chat s1 in
      if r.stopped
      then finish_outcome_interrupted oc.outcome_id i none s
      else on_turn oc i r go t.0 t.1

  unfoldable pub iterate : ℕ → ℕ → OutcomeEvaluation → Option OutcomeGrade → Session → Session
  unfolding play_round
  iterate zero i oc last s = s
  iterate (suc k) i oc last s =
      play_round oc i (w.rounds i) last (λ g t. iterate k (suc i) oc (some g) t) s

  -- The loop, or the failure of an outcome whose agent is not there.
  unfoldable pub start_loop : OutcomeEvaluation → Option Text → Session → Session
  unfolding iterate conclude emit_idle
  start_loop oc none s = iterate oc.max_iterations 0 oc none s
  start_loop oc (some err) s =
      let m = text "executor agent unavailable: " ++ err in
      emit_idle (
        conclude oc.outcome_id 0 none OutcomeResult.failed m
          (λ (o : OutcomeEvaluation). record o { explanation = m }) s)

  -- The second argument is why the session's agent is not there, if it is not.
  unfoldable pub execute_outcome : ℕ → Option Text → Session → Session
  unfolding find_outcome start_loop
  execute_outcome id missing s = elim (find_outcome id s.outcomes) [
    | none ↦ record s { cancelable = false }
    | some oc ↦ record (start_loop oc missing s) { cancelable = false }
  ]
