-- ===== src/Cma/Ends.antt =====
-- How an outcome ends, and the ends of one round.
use ahsir.Cma.Moves.{update-Moved, KeepsId, Any, Moved}
use ahsir.Cma.Turn.{outcome_ack_prompt, TurnResult, canceled, errs, reply, World, replied}
use ahsir.Cma.Loop.{
  with_grade, conclude, acknowledge, exhaust, is_satisfied, finish_outcome_interrupted,
}
use ahsir.Cma.Steps.{turn-Moved, conclude-status, conclude-Moved, idle-Moved}
use ahsir.Cma.Outcome.{
  truncate_for_outcome, emit_idle, OutcomeGrade, outcome_terminal, OutcomeEvaluation, Session,
  OutcomeResult, idle, terminated,
}
use ahsir.Prelude.{
  if_keeps, ℕ, zero, suc, ◌+◌, ◌≤◌, ◌<◌, ◌≡◌, refl, ◌∙◌, ◌≢◌, ◌⊎◌, inl, inr, true, false, Option,
  none, some, List, [], ◌∷◌, ◌++◌, arith,
}
use ahsir.Cma.Request.{max_deliverable_bytes}
use ahsir.Prelude.Text.{Text, text, is_empty}

abbrev pub revisions : ℕ → List OutcomeResult
revisions zero = []
revisions (suc n) = OutcomeResult.needs_revision ∷ revisions n

-- The outcome holds the reply of a round whose grade says `satisfied` and that was not cancelled.
pub record Earned (w : World) (from rounds : ℕ) (o : OutcomeEvaluation) : Type 0 where
  pub round : ℕ
  pub not_before : from ≤ round
  pub in_time : round < from + rounds
  pub said : Text
  pub replies : (w.rounds round).chat ≡ replied said
  pub grade : OutcomeGrade
  pub given :
      ((w.rounds round).first.grade ≡ some grade) ⊎ ((w.rounds round).second.grade ≡ some grade)
  pub satisfying : is_satisfied grade ≡ true
  pub live : ((w.rounds round).stopped ≡ false) × ((w.rounds round).stopped_grading ≡ false)
  pub stored : o.deliverable ≡ truncate_for_outcome said max_deliverable_bytes

-- The loop of an outcome with this many rounds left, from `from`, ends.
pub record Ends (w : World) (id from rounds : ℕ) (s t : Session) : Type 0 where
  pub revised : ℕ
  pub few : revised < rounds
  pub result : OutcomeResult
  pub final : outcome_terminal result ≡ true
  pub used_up : result ≡ OutcomeResult.max_iterations_reached → suc revised ≡ rounds
  pub turns : ℕ
  pub bounded : turns ≤ rounds + 1
  pub moved : Moved id s t (revisions revised ++ (result ∷ [])) turns (λ (o : OutcomeEvaluation).
      (o.result ≡ result) × (result ≡ OutcomeResult.satisfied → Earned w from rounds o))
  pub settled : (t.status ≡ idle) ⊎ ((t.status ≡ terminated) × (result ≡ OutcomeResult.failed))

-- The ends of one round, after at most one turn.
module _ (w : World) (oc : OutcomeEvaluation) (i k : ℕ) (s : Session) where
  abbrev Closes : OutcomeResult → OutcomeEvaluation → Type 0
  Closes result o = (o.result ≡ result) × (result ≡ OutcomeResult.satisfied → Earned w i (suc k) o)

  pub final-Ends :
      (start : Option ℕ) (turns : ℕ) (t : Session) (result : OutcomeResult) (shown : Text)
      (f : OutcomeEvaluation → OutcomeEvaluation)
      → turns ≤ 2
      → outcome_terminal result ≡ true
      → result ≢ OutcomeResult.max_iterations_reached
      → KeepsId f
      → ((o : OutcomeEvaluation) (now next : ℕ)
          → result ≡ OutcomeResult.satisfied
          → Earned w i
              (suc k)
              (record (f o) { result = result; completed_at = some now; updated_at = next }))
      → Moved oc.outcome_id s t [] turns Any
      → Ends w oc.outcome_id i
          (suc k)
          s
          (emit_idle (conclude w oc.outcome_id i start result shown f t))
  unfolding emit_idle
  final-Ends start turns t result shown f few final other keeps earned m = record {
    revised = 0;
    few = omega arith;
    result = result;
    final = final;
    used_up = λ e. absurd (other e);
    turns = turns;
    bounded = omega arith;
    moved = idle-Moved oc.outcome_id (
        conclude-Moved w oc.outcome_id i start result shown f (Closes result) keeps
          (λ o now next. (refl, earned o now next)) m);
    settled = inl refl;
  }

  pub interrupted-Ends :
      (start : Option ℕ) (turns : ℕ) (t : Session)
      → turns ≤ 2
      → Moved oc.outcome_id s t [] turns Any
      → Ends w oc.outcome_id i (suc k) s (finish_outcome_interrupted w oc.outcome_id i start t)
  unfolding finish_outcome_interrupted outcome_terminal
  interrupted-Ends start turns t few m =
      let said = text "outcome interrupted by user" in
      final-Ends start turns t OutcomeResult.interrupted said
        (λ (o : OutcomeEvaluation). record o { explanation = said }) few refl (λ e. cc) (λ o. refl)
        (λ o now next e. cc) m

  pub acknowledge-Moved :
      (r : TurnResult × Session) (new : List OutcomeResult) (turns : ℕ) (result : OutcomeResult)
      → result ≢ OutcomeResult.satisfied
      → Moved oc.outcome_id s r.1 new turns (Closes result)
      → Moved oc.outcome_id s (acknowledge w oc.outcome_id r) new turns (Closes result)
  unfolding acknowledge
  acknowledge-Moved (canceled, t) new turns result n m = m
  acknowledge-Moved (errs d, t) new turns result n m = m
  acknowledge-Moved (reply said, t) new turns result n m =
      if_keeps (λ (u : Session). Moved oc.outcome_id s u new turns (Closes result))
        (is_empty (w.trim said)) m
        (update-Moved oc.outcome_id s t new turns (Closes result) m w.clock
          (λ (o : OutcomeEvaluation). record o {
            deliverable = truncate_for_outcome said max_deliverable_bytes;
          })
          (Closes result) (λ o. refl) (λ now. (m.holds.0, λ e. absurd (n e))))

  pub exhaust-Ends :
      (start : ℕ) (turns : ℕ) (t : Session) (g : OutcomeGrade) (said : Text)
      → k ≡ 0
      → turns ≤ 1
      → Moved oc.outcome_id s t [] turns Any
      → Ends w oc.outcome_id i (suc k) s (exhaust w oc i start g said t)
  unfolding exhaust with_grade emit_idle outcome_terminal
  exhaust-Ends start turns t g said last few m = record {
    revised = 0;
    few = omega arith;
    result = OutcomeResult.max_iterations_reached;
    final = refl;
    used_up = λ e. omega arith;
    turns = suc turns;
    bounded = omega arith;
    moved = idle-Moved oc.outcome_id (
        acknowledge-Moved _ _ (suc turns) OutcomeResult.max_iterations_reached (λ e. cc)
          (turn-Moved oc.outcome_id (outcome_ack_prompt oc g) w.acknowledgement (
            conclude-Moved w oc.outcome_id i (some start) OutcomeResult.max_iterations_reached
              g.explanation (with_grade w g said) (Closes OutcomeResult.max_iterations_reached)
              (λ o. refl) (λ o now next. (refl, λ e. cc)) m)));
    settled = inl refl;
  }

  pub failed-Ends :
      (t : Session) (detail : Text)
      → t.status ≡ terminated
      → Moved oc.outcome_id s t [] 1 Any
      → Ends w oc.outcome_id i (suc k) s (
          conclude w oc.outcome_id i none OutcomeResult.failed
            (text "executor turn failed: " ++ detail)
            (λ (o : OutcomeEvaluation). record o { explanation = text "executor turn failed" })
            t)
  unfolding outcome_terminal
  failed-Ends t detail status m =
      let f : OutcomeEvaluation → OutcomeEvaluation =
        λ (o : OutcomeEvaluation). record o { explanation = text "executor turn failed" } in
      let shown = text "executor turn failed: " ++ detail in
      record {
        revised = 0;
        few = omega arith;
        result = OutcomeResult.failed;
        final = refl;
        used_up = λ e. cc;
        turns = 1;
        bounded = omega arith;
        moved =
            conclude-Moved w oc.outcome_id i none OutcomeResult.failed shown f
              (Closes OutcomeResult.failed) (λ o. refl) (λ o now next. (refl, λ e. cc)) m;
        settled =
            inr (
              conclude-status w oc.outcome_id i none OutcomeResult.failed shown f t ∙ status,
              refl,
            );
      }
