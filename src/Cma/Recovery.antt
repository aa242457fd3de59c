-- ===== src/Cma/Recovery.antt =====
-- The restart of the facade (internal/cmagateway/outcome.go): `recoverOutcomes`.
use ahsir.Cma.Outcome.{OutcomeResult, Session, outcome_terminal, OutcomeEvaluation}
use ahsir.Prelude.{none, List, [], ◌∷◌, map, if◌then◌else◌}
use ahsir.Cma.Turn.{World}
use ahsir.Cma.Loop.{conclude}
use ahsir.Prelude.Text.{Text, text}

unfoldable pub recovery_message : Text
recovery_message =
    text
      "facade restarted before the outcome completed; recorded as failed rather than guessing satisfied"

module _ (w : World) where
  unfoldable pub fail_outcome : OutcomeEvaluation → Session → Session
  unfolding conclude recovery_message
  fail_outcome o s =
      conclude w o.outcome_id o.iteration none OutcomeResult.failed recovery_message
        (λ (e : OutcomeEvaluation). record e { explanation = recovery_message }) s

  -- The loop over a copy of the session's outcomes.
  unfoldable pub recover_each : List OutcomeEvaluation → Session → Session
  unfolding fail_outcome
  recover_each [] s = s
  recover_each (o ∷ os) s =
      recover_each os (if outcome_terminal o.result then s else fail_outcome o s)

  unfoldable pub recover_session : Session → Session
  unfolding recover_each
  recover_session s = recover_each s.outcomes s

  unfoldable pub recover_outcomes : List Session → List Session
  unfolding recover_session
  recover_outcomes ss = map recover_session ss
