-- ===== src/Cma/Rounds.antt =====
-- A grading ends the loop, or leads to the next round.
use mathlib.Core.Path.{subst}
use mathlib.Core.List.{append_assoc}
use ahsir.Cma.Ends.{exhaust-Ends, revisions, final-Ends, Ends}
use ahsir.Cma.Moves.{ends, emit-Moved, stays, update-Moved, Any, Moved}
use ahsir.Cma.Turn.{graded, ungraded, Graded, Round, World, replied}
use ahsir.Cma.Loop.{on_grade, revise, with_grade, is_satisfied}
use ahsir.Cma.Steps.{GradedBy}
use ahsir.Cma.Outcome.{
  emit, evaluation_end, emit_outcome_end, OutcomeGrade, outcome_terminal, OutcomeEvaluation,
  Session, OutcomeResult,
}
use ahsir.Prelude.{
  ℕ, suc, ◌+◌, ◌≤◌, ◌<◌, ◌≡◌, refl, sym, ap, ◌∙◌, ◌⊎◌, inl, inr, false, some, List, [], ◌∷◌, ◌++◌,
  arith, leb, Bool-cases, if_of_eq,
}
use ahsir.Prelude.Text.{Text, text}

-- An end after more rounds is an end.
later-Ends :
    (w : World) (id i k turns : ℕ) (s t u : Session)
    → turns ≤ 1
    → Moved id s t (OutcomeResult.needs_revision ∷ []) turns Any
    → Ends w id (suc i) k t u
    → Ends w id i (suc k) s u
later-Ends w id i k turns s t u few m e = record {
  revised = suc e.revised;
  few = omega (arith, e.few);
  result = e.result;
  final = e.final;
  used_up = λ q. ap (λ (n : ℕ). suc n) (e.used_up q);
  turns = turns + e.turns;
  bounded = omega (arith, e.bounded);
  moved = record {
    added =
        e.moved.added
        ∙ (ap (λ (x : List OutcomeResult). x ++ (revisions e.revised ++ (e.result ∷ []))) m.added
            ∙ append_assoc (ends id s.events) (OutcomeResult.needs_revision ∷ [])
                (revisions e.revised ++ (e.result ∷ [])));
    asked = omega (arith, e.moved.asked, m.asked);
    entry = e.moved.entry;
    found = e.moved.found;
    holds = (
      e.moved.holds.0,
      λ q.
          let g = e.moved.holds.1 q in
          record {
            round = g.round;
            not_before = omega (arith, g.not_before);
            in_time = omega (arith, g.in_time);
            said = g.said;
            replies = g.replies;
            grade = g.grade;
            given = g.given;
            satisfying = g.satisfying;
            live = g.live;
            stored = g.stored;
          },
    );
  };
  settled = e.settled;
}

module _ (w : World) (oc : OutcomeEvaluation) (i k : ℕ) (s : Session)
    (rounds : i + suc k ≡ oc.max_iterations) (go : OutcomeGrade → Session → Session)
    (next : (g : OutcomeGrade) (t : Session)
      → 0 < k
      → Moved oc.outcome_id t t [] 0 Any
      → Ends w oc.outcome_id (suc i) k t (go g t)) where
  revise-Moved :
      (start : ℕ) (g : OutcomeGrade) (t : Session)
      → Moved oc.outcome_id s t [] 1 Any
      → Moved oc.outcome_id s (revise w oc i start g t) (OutcomeResult.needs_revision ∷ []) 1 Any
  unfolding revise emit_outcome_end
  revise-Moved start g t m =
      let id = oc.outcome_id in
      let ev = evaluation_end id i (some start) OutcomeResult.needs_revision g.explanation in
      let m1 : Moved id s (emit ev t) (OutcomeResult.needs_revision ∷ []) 1 Any =
        subst (λ (x : List OutcomeResult). Moved id s (emit ev t) x 1 Any) (ground arith)
          (emit-Moved id s t [] 1 Any m ev) in
      update-Moved id s (emit ev t) (OutcomeResult.needs_revision ∷ []) 1 Any m1 w.clock
        (λ (o : OutcomeEvaluation). record o { explanation = g.explanation; criteria = g.criteria })
        Any (λ o. refl) (λ now. tt)

  pub on_grade-Ends :
      (start : ℕ) (said : Text) (r : Round) (g : Graded) (t : Session)
      → w.rounds i ≡ r
      → r.chat ≡ replied said
      → r.stopped ≡ false
      → r.stopped_grading ≡ false
      → GradedBy r.first r.second g
      → Moved oc.outcome_id s t [] 1 Any
      → Ends w oc.outcome_id i (suc k) s (on_grade w oc i start said go g t)
  unfolding on_grade with_grade outcome_terminal
  on_grade-Ends start said r (ungraded detail) t here chat live alive by m =
      let shown = text "grader failed after one retry: " ++ detail in
      final-Ends w oc i k s (some start) 1 t OutcomeResult.failed shown
        (λ (o : OutcomeEvaluation). record o { explanation = shown }) (omega arith) refl (λ e. cc)
        (λ o. refl) (λ o now nxt e. cc) m
  on_grade-Ends start said r (graded g) t here chat live alive by m =
      elim (Bool-cases (is_satisfied g)) [
        | inl y ↦ subst (Ends w oc.outcome_id i (suc k) s) (sym (if_of_eq _ _ y)) (
            final-Ends w oc i k s (some start) 1 t OutcomeResult.satisfied g.explanation
              (with_grade w g said) (omega arith) refl (λ e. cc) (λ o. refl)
              (λ o now nxt e. record {
                round = i;
                not_before = omega arith;
                in_time = omega arith;
                said = said;
                replies = ap (λ (x : Round). x.chat) here ∙ chat;
                grade = g;
                given =
                    subst (λ (x : Round). (x.first.grade ≡ some g) ⊎ (x.second.grade ≡ some g))
                      (sym here) by;
                satisfying = y;
                live = (
                  ap (λ (x : Round). x.stopped) here ∙ live,
                  ap (λ (x : Round). x.stopped_grading) here ∙ alive,
                );
                stored = refl;
              })
              m)
        | inr n ↦
            subst (Ends w oc.outcome_id i (suc k) s) (sym (if_of_eq _ _ n))
              (elim (Bool-cases (leb oc.max_iterations (i + 1))) [
                | inl last ↦
                    subst (Ends w oc.outcome_id i (suc k) s) (sym (if_of_eq _ _ last))
                      (exhaust-Ends w oc i k s start 1 t g said (ground arith) (omega arith) m)
                | inr more ↦ subst (Ends w oc.outcome_id i (suc k) s) (sym (if_of_eq _ _ more)) (
                    let t1 = revise w oc i start g t in
                    let m1 = revise-Moved start g t m in
                    later-Ends w oc.outcome_id i k 1 s t1 (go g t1) (omega arith) m1
                      (next g t1 (ground arith) (stays oc.outcome_id t1 m1.entry m1.found)))
              ])
      ]
