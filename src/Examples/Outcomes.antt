-- ===== src/Examples/Outcomes.antt =====
-- The facade's theorems at small inputs.
use ahsir.Cma.Recovered.{recover-settles}
use ahsir.Cma.Recovery.{recover_session}
use ahsir.Cma.Request.{
  new_outcome, DefineOutcome, deliver_define_outcome, OutcomeConfig, natural, begun,
}
use ahsir.Cma.Outcome.{
  begin_outcome, outcome_terminal, OutcomeEvaluation, OutcomeGrade, find_outcome, idle, Session,
}
use ahsir.Cma.Delivery.{deliver-Ends, most_rounds}
use ahsir.Cma.Turn.{World, Round, replied, cancelled}
use ahsir.Cma.Loop.{execute_outcome}
use ahsir.Cma.Ends.{Ends}
use ahsir.Cma.Moves.{latest}
use ahsir.Prelude.{
  ℕ_discrete, ℕ, ◌+◌, ◌≤◌, ◌<◌, ◌≡◌, refl, true, false, none, some, [], ◌==◌, if◌then◌else◌,
}
use ahsir.Prelude.Text.{Text, text, Text-discrete}

abbrev no_session : Session
no_session = record {
  outcomes = [];
  events = [];
  status = idle;
  prompts = [];
  cancelable = false;
  ticks = 0;
}

abbrev config : OutcomeConfig
config = record { max_iterations_cap = 0; default_iterations = 0 }

abbrev request : DefineOutcome
request = record {
  description = text "write";
  rubric = some (record { kind = text "text"; content = text "good" });
  max_iterations = natural 2;
}

abbrev grade_of : Text → OutcomeGrade
grade_of v = record { verdict = v; criteria = []; explanation = text "why" }

abbrev round_of : Text → Round
round_of v = record {
  stopped = false;
  chat = replied (text "done");
  stopped_turn = false;
  first = record { stopped = false; beats = 0; grade = none; detail = text "no JSON" };
  second = record { stopped = false; beats = 1; grade = some (grade_of v); detail = [] };
  stopped_grading = false;
}

abbrev world : World
world = record {
  clock = λ n. 100 + n;
  trim = λ t. t;
  rounds = λ n. if n == 0 then round_of (text "needs_revision") else round_of (text "satisfied");
  acknowledgement = cancelled [];
}

abbrev begun_session : Session
begun_session = (deliver_define_outcome (λ t. t) config true 7 100 request no_session).1

begins :
    deliver_define_outcome (λ t. t) config true 7 100 request no_session ≡ (begun, begun_session)
unfolding deliver_define_outcome Text-discrete ℕ_discrete
begins = refl

deliver-Ends_example :
    (rounds : ℕ) × (0 < rounds)
    × (rounds ≤ most_rounds config)
    × Ends world 7 0 rounds begun_session (execute_outcome world 7 none begun_session)
unfolding find_outcome
deliver-Ends_example =
    deliver-Ends (λ t. t) config world true 7 100 request no_session begun_session none refl begins

recover-settles_example :
    let s : Session = (deliver_define_outcome (λ t. t) config true 7 100 request no_session).1 in
    ((id : ℕ) (o : OutcomeEvaluation)
      → latest id (recover_session world s).outcomes ≡ some o
      → outcome_terminal o.result ≡ true)
    × ((begin_outcome true
          (new_outcome 8 0 (record { description = []; rubric = []; max_iterations = 1 }))
          (recover_session world s)).0
        ≡ true)
recover-settles_example =
    recover-settles world begun_session true
      (new_outcome 8 0 (record { description = []; rubric = []; max_iterations = 1 }))
