-- ===== src/Cma/Turn.antt =====
-- One turn of the executor and one grading (internal/cmagateway/outcome.go, handlers.go).
use ahsir.Cma.Outcome.{
  session_error, evaluation_ongoing, status_terminated, status_running, agent_message,
  facade_timeout, OutcomeGrade, Session, emit, OutcomeEvaluation, OutcomeCriterion, running,
  terminated,
}
use ahsir.Prelude.Decimal.{decimal}
use ahsir.Prelude.{
  ℕ, zero, suc, ◌-◌, Bool, Option, none, some, List, [], ◌∷◌, ◌++◌, leb, ◌==◌, if◌then◌else◌,
  length,
}
use ahsir.Prelude.Text.{Text, text, is_empty}

-- How the stream of one turn ends: the agent is not there, the turn is cancelled with what it has
-- said, it fails, perhaps by the facade's own deadline, or it replies.
pub data Chat : Type 0 where
  unavailable : Text → Chat
  cancelled : Text → Chat
  broken : Bool → Text → Chat
  replied : Text → Chat

pub data TurnResult : Type 0 where
  canceled : TurnResult
  errs : Text → TurnResult
  reply : Text → TurnResult

-- One call of the grader: whether the outcome was cancelled before it, the heartbeats while it ran,
-- and the grade or the text of the error.
pub record Attempt : Type 0 where
  pub stopped : Bool
  pub beats : ℕ
  pub grade : Option OutcomeGrade
  pub detail : Text

-- What one round meets. The flags say whether the outcome was cancelled by the round's start, after
-- its turn, and after its grading.
pub record Round : Type 0 where
  pub stopped : Bool
  pub chat : Chat
  pub stopped_turn : Bool
  pub first : Attempt
  pub second : Attempt
  pub stopped_grading : Bool

pub record World : Type 0 where
  pub clock : ℕ → ℕ
  pub trim : Text → Text
  pub rounds : ℕ → Round
  pub acknowledgement : Chat

unfoldable pub failing_lines : List OutcomeCriterion → List Text
failing_lines [] = []
failing_lines (c ∷ cs) =
    let rest = failing_lines cs in
    if c.passed
    then rest
    else (text "- "
        ++ (c.criterion ++ (if is_empty c.feedback then [] else text ": " ++ c.feedback)))
      ∷ rest

unfoldable pub joined : List Text → Text
joined [] = []
joined (l ∷ []) = l
joined (l ∷ m ∷ ls) = l ++ (10 ∷ joined (m ∷ ls))

unfoldable pub feedback : ℕ → OutcomeGrade → Text
unfolding failing_lines joined decimal
feedback i g =
    let failing = failing_lines g.criteria in
    text "Your previous deliverable (iteration "
    ++ (decimal (i - 1)
        ++ (text ") did not satisfy the rubric. Grader feedback:"
            ++ (10
                ∷ (g.explanation
                    ++ (10
                        ∷ ((if leb 1 (length failing)
                              then 10
                                ∷ (text "Failing criteria:" ++ (10 ∷ (joined failing ++ (10 ∷ []))))
                              else [])
                            ++ (10
                                ∷ (text
                                      "Revise your deliverable to address every failing criterion."
                                    ++ (10 ∷ 10 ∷ [])))))))))

-- A revision's prompt; a revision always has a grade.
unfoldable pub outcome_prompt : OutcomeEvaluation → ℕ → Option OutcomeGrade → Text
unfolding feedback
outcome_prompt oc i grade =
    (if i == 0
      then text
          "You are working toward a defined outcome. Work autonomously until the deliverable satisfies the rubric."
        ++ (10 ∷ 10 ∷ [])
      else elim grade [ none ↦ [] | some g ↦ feedback i g ])
    ++ (text "## Goal"
        ++ (10
            ∷ (oc.description
                ++ (10 ∷ 10 ∷ (text "## Rubric" ++ (10 ∷ (oc.rubric ++ (10 ∷ []))))))))

unfoldable pub outcome_ack_prompt : OutcomeEvaluation → OutcomeGrade → Text
outcome_ack_prompt oc g =
    text
      "The iteration budget for this outcome is exhausted; the rubric is not fully satisfied. Provide a concise final summary of the deliverable's current state, noting which rubric criteria remain unmet."
    ++ (10
        ∷ 10
        ∷ (text "## Goal"
            ++ (10
                ∷ (oc.description
                    ++ (10 ∷ 10 ∷ (text "## Last grader feedback" ++ (10 ∷ g.explanation)))))))

unfoldable pub terminate_turn : Text → Session → Session
unfolding emit
terminate_turn detail s = record (emit status_terminated (emit (session_error detail) s)) {
  status = terminated;
}

unfoldable pub emit_message_if_any : Text → Session → Session
unfolding emit
emit_message_if_any t s = if is_empty t then s else emit (agent_message t) s

unfoldable pub turn_ends : Chat → Session → TurnResult × Session
unfolding terminate_turn emit_message_if_any emit
turn_ends (unavailable detail) s = (errs detail, terminate_turn detail s)
turn_ends (cancelled partial) s = (canceled, emit_message_if_any partial s)
turn_ends (broken timed_out detail) s =
    (errs detail, terminate_turn detail (if timed_out then emit facade_timeout s else s))
turn_ends (replied t) s = (reply t, emit (agent_message t) s)

unfoldable pub execute_turn_core : Text → Chat → Session → TurnResult × Session
unfolding turn_ends emit
execute_turn_core prompt chat s =
    let s1 : Session = record s { prompts = s.prompts ++ (prompt ∷ []); status = running } in
    turn_ends chat (emit status_running s1)

unfoldable pub beat : ℕ → ℕ → ℕ → Session → Session
unfolding emit
beat zero id i s = s
beat (suc n) id i s = beat n id i (emit (evaluation_ongoing id i) s)

pub data Graded : Type 0 where
  graded : OutcomeGrade → Graded
  ungraded : Text → Graded

-- The second attempt.
unfoldable pub grade_again : ℕ → ℕ → Attempt → Session → Graded × Session
unfolding beat
grade_again id i b s =
    if b.stopped
    then (ungraded [], s)
    else (elim b.grade [ some g ↦ graded g | none ↦ ungraded b.detail ], beat (suc b.beats) id i s)

unfoldable pub grade_with_retry : ℕ → ℕ → Attempt → Attempt → Session → Graded × Session
unfolding grade_again beat
grade_with_retry id i a b s =
    if a.stopped
    then (ungraded [], s)
    else let s1 = beat (suc a.beats) id i s in
      elim a.grade [ some g ↦ (graded g, s1) | none ↦ grade_again id i b s1 ]
