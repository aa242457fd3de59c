-- ===== src/Cma/Runs.antt =====
-- The loop of an outcome ends, with one result, and says `satisfied` only of a graded reply.
use mathlib.Core.Path.{subst}
use ahsir.Cma.Rounds.{on_grade-Ends}
use ahsir.Cma.Ends.{final-Ends, failed-Ends, interrupted-Ends, Ends}
use ahsir.Cma.Turn.{
  execute_turn_core, grade_with_retry, outcome_prompt, TurnResult, Round, World, canceled, errs,
  reply, replied,
}
use ahsir.Cma.Loop.{start_loop, execute_outcome, on_reply, on_turn, play_round, iterate}
use ahsir.Cma.Moves.{stays, latest, update-Moved, Any, Moved}
use ahsir.Cma.Outcome.{
  outcome_terminal, find_outcome, update_outcome, emit, OutcomeResult, OutcomeGrade, Session,
  OutcomeEvaluation, terminated, evaluation_start,
}
use ahsir.Cma.Steps.{
  alike, grade_with_retry-GradedBy, turn-Moved, turn-status, turn-reply, grade_with_retry-Moved,
  quiet,
}
use ahsir.Prelude.{
  ℕ, zero, suc, ◌+◌, ◌<◌, ◌≡◌, refl, sym, inl, inr, false, Option, none, some, List, [], ◌∷◌, ◌++◌,
  arith, ◌==◌, length, Bool-cases, Option-cases, if_of_eq,
}
use ahsir.Prelude.Text.{Text, text}

module _ (w : World) (oc : OutcomeEvaluation) (i k : ℕ) (s : Session)
    (rounds : i + suc k ≡ oc.max_iterations) (go : OutcomeGrade → Session → Session)
    (next : (g : OutcomeGrade) (t : Session)
      → 0 < k
      → Moved oc.outcome_id t t [] 0 Any
      → Ends w oc.outcome_id (suc i) k t (go g t)) where
  on_reply-Ends :
      (said : Text) (r : Round) (t : Session)
      → w.rounds i ≡ r
      → r.chat ≡ replied said
      → r.stopped ≡ false
      → Moved oc.outcome_id s t [] 1 Any
      → Ends w oc.outcome_id i (suc k) s (on_reply w oc i r said go t)
  unfolding on_reply
  on_reply-Ends said r t here chat live m =
      let id = oc.outcome_id in
      let start = length t.events in
      let t1 : Session = emit (evaluation_start id i) t in
      let f : OutcomeEvaluation → OutcomeEvaluation =
        λ (o : OutcomeEvaluation). record o { result = OutcomeResult.evaluating; iteration = i } in
      let t2 : Session = update_outcome w.clock id f t1 in
      let m2 : Moved id s t2 [] 1 Any =
        update-Moved id s t1 [] 1 Any (quiet id (evaluation_start id i) refl m) w.clock f Any
          (λ o. refl) (λ now. tt) in
      let g = grade_with_retry id i r.first r.second t2 in
      let m3 : Moved id s g.1 [] 1 Any = grade_with_retry-Moved id i r.first r.second m2 in
      elim (Bool-cases r.stopped_grading) [
        | inl y ↦
            subst (Ends w id i (suc k) s) (sym (if_of_eq _ _ y))
              (interrupted-Ends w oc i k s (some start) 1 g.1 (omega arith) m3)
        | inr n ↦ subst (Ends w id i (suc k) s) (sym (if_of_eq _ _ n)) (
            on_grade-Ends w oc i k s rounds go next start said r g.0 g.1 here chat live n
              (grade_with_retry-GradedBy id i r.first r.second t2) m3)
      ]

  on_turn-Ends :
      (r : Round) (o : TurnResult) (t : Session)
      → w.rounds i ≡ r
      → r.stopped ≡ false
      → ((said : Text) → o ≡ reply said → r.chat ≡ replied said)
      → ((detail : Text) → o ≡ errs detail → t.status ≡ terminated)
      → Moved oc.outcome_id s t [] 1 Any
      → Ends w oc.outcome_id i (suc k) s (on_turn w oc i r go o t)
  unfolding on_turn
  on_turn-Ends r canceled t here live says status m =
      interrupted-Ends w oc i k s none 1 t (omega arith) m
  on_turn-Ends r (errs detail) t here live says status m = elim (Bool-cases r.stopped_turn) [
    | inl y ↦
        subst (Ends w oc.outcome_id i (suc k) s) (sym (if_of_eq _ _ y))
          (interrupted-Ends w oc i k s none 1 t (omega arith) m)
    | inr n ↦
        subst (Ends w oc.outcome_id i (suc k) s) (sym (if_of_eq _ _ n))
          (failed-Ends w oc i k s t detail (status detail refl) m)
  ]
  on_turn-Ends r (reply said) t here live says status m = elim (Bool-cases r.stopped_turn) [
    | inl y ↦
        subst (Ends w oc.outcome_id i (suc k) s) (sym (if_of_eq _ _ y))
          (interrupted-Ends w oc i k s none 1 t (omega arith) m)
    | inr n ↦
        subst (Ends w oc.outcome_id i (suc k) s) (sym (if_of_eq _ _ n))
          (on_reply-Ends said r t here (says said refl) live m)
  ]

  play_round-Ends :
      (last : Option OutcomeGrade)
      → Moved oc.outcome_id s s [] 0 Any
      → Ends w oc.outcome_id i (suc k) s (play_round w oc i (w.rounds i) last go s)
  unfolding play_round
  play_round-Ends last m =
      let id = oc.outcome_id in
      let r = w.rounds i in
      let f : OutcomeEvaluation → OutcomeEvaluation =
        λ (o : OutcomeEvaluation). record o { result = OutcomeResult.running; iteration = i } in
      let s1 : Session = update_outcome w.clock id f s in
      let m1 : Moved id s s1 [] 0 Any =
        update-Moved id s s [] 0 Any m w.clock f Any (λ o. refl) (λ now. tt) in
      let p = outcome_prompt oc i last in
      let t = execute_turn_core p r.chat s1 in
      elim (Bool-cases r.stopped) [
        | inl y ↦
            subst (Ends w id i (suc k) s) (sym (if_of_eq _ _ y))
              (interrupted-Ends w oc i k s none 0 s (omega arith) m)
        | inr n ↦ subst (Ends w id i (suc k) s) (sym (if_of_eq _ _ n)) (
            on_turn-Ends r t.0 t.1 refl n (turn-reply p r.chat s1)
              (λ detail e. turn-status p r.chat s1 detail e) (turn-Moved id p r.chat m1))
      ]

iterate-Ends :
    (w : World) (oc : OutcomeEvaluation) (k i : ℕ) (last : Option OutcomeGrade) (s : Session)
    → i + suc k ≡ oc.max_iterations
    → Moved oc.outcome_id s s [] 0 Any
    → Ends w oc.outcome_id i (suc k) s (iterate w (suc k) i oc last s)
unfolding iterate
iterate-Ends w oc zero i last s e m =
    play_round-Ends w oc i zero s e (λ g t. iterate w zero (suc i) oc (some g) t)
      (λ g t h n. absurd (omega arith)) last m
iterate-Ends w oc (suc k) i last s e m =
    play_round-Ends w oc i (suc k) s e (λ g t. iterate w (suc k) (suc i) oc (some g) t)
      (λ g t h n. iterate-Ends w oc k (suc i) (some g) t (omega arith) n) last m

find-latest :
    (id : ℕ) (os : List OutcomeEvaluation) (oc : OutcomeEvaluation)
    → find_outcome id os ≡ some oc
    → (o : OutcomeEvaluation) × (latest id os ≡ some o)
unfolding find_outcome
find-latest id [] oc e = cc
find-latest id (o ∷ os) oc e = elim (Option-cases (latest id os)) [
  | inr (p, q) ↦ (p, ground arith)
  | inl n ↦ elim (Bool-cases (o.outcome_id == id)) [
    | inl y ↦ (o, ground arith)
    | inr d ↦ let (p, q) = find-latest id os oc (ground arith) in absurd (cc)
  ]
]

-- The cancel function of the loop is forgotten.
released :
    (w : World) (id from n : ℕ) (s t : Session)
    → Ends w id from n s t
    → Ends w id from n s (record t { cancelable = false })
released w id from n s t e = record {
  revised = e.revised;
  few = e.few;
  result = e.result;
  final = e.final;
  used_up = e.used_up;
  turns = e.turns;
  bounded = e.bounded;
  moved = alike refl refl refl e.moved;
  settled = e.settled;
}

start_loop-Ends :
    (w : World) (oc : OutcomeEvaluation) (missing : Option Text) (k : ℕ) (s : Session)
    → suc k ≡ oc.max_iterations
    → Moved oc.outcome_id s s [] 0 Any
    → Ends w oc.outcome_id 0 (suc k) s (start_loop w oc missing s)
unfolding start_loop outcome_terminal
start_loop-Ends w oc none k s size m =
    subst (λ (n : ℕ). Ends w oc.outcome_id 0 (suc k) s (iterate w n 0 oc none s)) size
      (iterate-Ends w oc k 0 none s (omega arith) m)
start_loop-Ends w oc (some err) k s size m =
    let said = text "executor agent unavailable: " ++ err in
    final-Ends w oc 0 k s none 0 s OutcomeResult.failed said
      (λ (o : OutcomeEvaluation). record o { explanation = said }) (omega arith) refl (λ e. cc)
      (λ o. refl) (λ o now next e. cc) m

-- An outcome that is there, with some iterations, is run to an end.
pub execute_outcome-Ends :
    (w : World) (oc : OutcomeEvaluation) (missing : Option Text) (k : ℕ) (s : Session)
    → find_outcome oc.outcome_id s.outcomes ≡ some oc
    → suc k ≡ oc.max_iterations
    → Ends w oc.outcome_id 0 (suc k) s (execute_outcome w oc.outcome_id missing s)
unfolding execute_outcome
execute_outcome-Ends w oc missing k s e size =
    let id = oc.outcome_id in
    let (o, found) = find-latest id s.outcomes oc e in
    rw (e, execute_outcome)
      (released w id 0 (suc k) s _ (start_loop-Ends w oc missing k s size (stays id s o found)))
