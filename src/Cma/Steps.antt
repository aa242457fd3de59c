-- ===== src/Cma/Steps.antt =====
-- What turns, gradings and conclusions add to a session.
use mathlib.Core.Path.{subst}
use ahsir.Cma.Outcome.{
  terminated, update_outcome, OutcomeGrade, emit_outcome_end, finish_outcome, emit,
  OutcomeEvaluation, OutcomeResult, Event, Session, emit_idle, running, status_idle, status_running,
  status_terminated, session_error, facade_timeout, agent_message, evaluation_ongoing,
  evaluation_end,
}
use ahsir.Cma.Turn.{
  reply, errs, World, Graded, grade_again, Attempt, grade_with_retry, graded, ungraded,
  emit_message_if_any, Chat, terminate_turn, beat, execute_turn_core, turn_ends, unavailable,
  cancelled, broken, replied,
}
use ahsir.Cma.Loop.{conclude}
use ahsir.Cma.Moves.{update-Moved, emit-Moved, KeepsId, quiet-Moved, latest, ends, Moved}
use ahsir.Prelude.{
  length_snoc, if_keeps, ℕ, zero, suc, ◌≡◌, refl, sym, ap, ◌∙◌, ◌⊎◌, inl, inr, Option, none, some,
  List, [], ◌∷◌, ◌++◌, arith, length, Bool-cases, Option-cases, if_of_eq,
}
use ahsir.Prelude.Text.{Text, is_empty}

pub quiet :
    (id : ℕ) (ev : Event) {s t : Session} {new : List OutcomeResult} {turns : ℕ}
    {P : OutcomeEvaluation → Type 0}
    → ends id (ev ∷ []) ≡ []
    → Moved id s t new turns P
    → Moved id s (emit ev t) new turns P
quiet id ev {s} {t} {new} {turns} {P} e m = quiet-Moved id s t new turns P m ev e

-- Two sessions that differ in other fields.
pub alike :
    {id : ℕ} {s t u : Session} {new : List OutcomeResult} {turns : ℕ}
    {P : OutcomeEvaluation → Type 0}
    → u.events ≡ t.events
    → u.prompts ≡ t.prompts
    → u.outcomes ≡ t.outcomes
    → Moved id s t new turns P
    → Moved id s u new turns P
alike {id} a b c m = record {
  added = ap (ends id) a ∙ m.added;
  asked = ap length b ∙ m.asked;
  entry = m.entry;
  found = ap (latest id) c ∙ m.found;
  holds = m.holds;
}

pub beat-Moved :
    (n id i : ℕ) {s t : Session} {new : List OutcomeResult} {turns : ℕ}
    {P : OutcomeEvaluation → Type 0}
    → Moved id s t new turns P
    → Moved id s (beat n id i t) new turns P
unfolding beat
beat-Moved zero id i m = m
beat-Moved (suc n) id i m = beat-Moved n id i (quiet id (evaluation_ongoing id i) refl m)

pub idle-Moved :
    (id : ℕ) {s t : Session} {new : List OutcomeResult} {turns : ℕ} {P : OutcomeEvaluation → Type 0}
    → Moved id s t new turns P
    → Moved id s (emit_idle t) new turns P
unfolding emit_idle
idle-Moved id m = alike refl refl refl (quiet id status_idle refl m)

pub turn_ends-Moved :
    (id : ℕ) (chat : Chat) {s t : Session} {new : List OutcomeResult} {turns : ℕ}
    {P : OutcomeEvaluation → Type 0}
    → Moved id s t new turns P
    → Moved id s (turn_ends chat t).1 new turns P
unfolding turn_ends terminate_turn emit_message_if_any
turn_ends-Moved id (unavailable d) m =
    alike refl refl refl (quiet id status_terminated refl (quiet id (session_error d) refl m))
turn_ends-Moved id (cancelled p) {s} {t} {new} {turns} {P} m =
    if_keeps (λ (u : Session). Moved id s u new turns P) (is_empty p) m
      (quiet id (agent_message p) refl m)
turn_ends-Moved id (broken late d) {s} {t} {new} {turns} {P} m = alike refl refl refl (
    quiet id status_terminated refl (
      quiet id (session_error d) refl (
        if_keeps (λ (u : Session). Moved id s u new turns P) late (quiet id facade_timeout refl m)
          m)))
turn_ends-Moved id (replied r) m = quiet id (agent_message r) refl m

pub turn-Moved :
    (id : ℕ) (prompt : Text) (chat : Chat) {s t : Session} {new : List OutcomeResult} {turns : ℕ}
    {P : OutcomeEvaluation → Type 0}
    → Moved id s t new turns P
    → Moved id s (execute_turn_core prompt chat t).1 new (suc turns) P
unfolding execute_turn_core
turn-Moved id prompt chat {s} {t} {new} {turns} {P} m =
    let u : Session = record t { prompts = t.prompts ++ (prompt ∷ []); status = running } in
    let v : Moved id s u new (suc turns) P = record {
      added = m.added;
      asked = omega (arith, m.asked, length_snoc {0} t.prompts prompt);
      entry = m.entry;
      found = m.found;
      holds = m.holds;
    } in
    turn_ends-Moved id chat (quiet id status_running refl v)

-- A grade comes from one of the two attempts.
abbrev pub GradedBy : Attempt → Attempt → Graded → Type 0
GradedBy a b (graded g) = (a.grade ≡ some g) ⊎ (b.grade ≡ some g)
GradedBy a b (ungraded detail) = Unit

grade_again-GradedBy :
    (id i : ℕ) (a b : Attempt) (s : Session) → GradedBy a b (grade_again id i b s).0
unfolding grade_again
grade_again-GradedBy id i a b s = elim (Bool-cases b.stopped) [
  | inl y ↦ subst (λ (r : Graded × Session). GradedBy a b r.0) (sym (if_of_eq _ _ y)) tt
  | inr n ↦
      subst (λ (r : Graded × Session). GradedBy a b r.0) (sym (if_of_eq _ _ n))
        (elim b.grade
            as (λ (o : Option OutcomeGrade).
              b.grade ≡ o
              → GradedBy a b (elim o [ some g ↦ graded g | none ↦ ungraded b.detail ])) [
                | none ↦ λ e. tt
                | some g ↦ λ e. inr e
              ]
          refl)
]

pub grade_with_retry-GradedBy :
    (id i : ℕ) (a b : Attempt) (s : Session) → GradedBy a b (grade_with_retry id i a b s).0
unfolding grade_with_retry
grade_with_retry-GradedBy id i a b s =
    let P : Graded × Session → Type 0 = λ (r : Graded × Session). GradedBy a b r.0 in
    let t : Session = beat (suc a.beats) id i s in
    elim (Bool-cases a.stopped) [
      | inl y ↦ subst P (sym (if_of_eq _ _ y)) tt
      | inr n ↦ subst P (sym (if_of_eq _ _ n)) (
          elim a.grade
              as (λ (o : Option OutcomeGrade).
                a.grade ≡ o → P (elim o [ some g ↦ (graded g, t) | none ↦ grade_again id i b t ])) [
                  | none ↦ λ e. grade_again-GradedBy id i a b t
                  | some g ↦ λ e. inl e
                ]
            refl)
    ]

pub grade_with_retry-Moved :
    (id i : ℕ) (a b : Attempt) {s t : Session} {new : List OutcomeResult} {turns : ℕ}
    {P : OutcomeEvaluation → Type 0}
    → Moved id s t new turns P
    → Moved id s (grade_with_retry id i a b t).1 new turns P
unfolding grade_with_retry grade_again
grade_with_retry-Moved id i a b {s} {t} {new} {turns} {P} m =
    let Q : Graded × Session → Type 0 = λ (r : Graded × Session). Moved id s r.1 new turns P in
    let u = beat-Moved (suc a.beats) id i m in
    if_keeps Q a.stopped m (elim (Option-cases a.grade) [
      | inl e ↦ rw e (if_keeps Q b.stopped u (beat-Moved (suc b.beats) id i u))
      | inr (g, e) ↦ rw e u
    ])

-- The end event and the record of a terminal result.
pub conclude-Moved :
    (w : World) (id i : ℕ) (start : Option ℕ) (result : OutcomeResult) (shown : Text)
    (f : OutcomeEvaluation → OutcomeEvaluation) (Q : OutcomeEvaluation → Type 0) {s t : Session}
    {new : List OutcomeResult} {turns : ℕ} {P : OutcomeEvaluation → Type 0}
    → KeepsId f
    → ((o : OutcomeEvaluation) (now then_now : ℕ)
        → Q (record (f o) { result = result; completed_at = some now; updated_at = then_now }))
    → Moved id s t new turns P
    → Moved id s (conclude w id i start result shown f t) (new ++ (result ∷ [])) turns Q
unfolding conclude finish_outcome emit_outcome_end
conclude-Moved w id i start result shown f Q {s} {t} {new} {turns} {P} k q m =
    let ev = evaluation_end id i start result shown in
    let e : ends id (ev ∷ []) ≡ result ∷ [] = ground arith in
    let m1 : Moved id s (emit ev t) (new ++ (result ∷ [])) turns P =
      subst (λ (x : List OutcomeResult). Moved id s (emit ev t) (new ++ x) turns P) e
        (emit-Moved id s t new turns P m ev) in
    let u : Session = record (emit ev t) { ticks = suc (emit ev t).ticks } in
    update-Moved id s u (new ++ (result ∷ [])) turns P (alike refl refl refl m1) w.clock
      (λ (o : OutcomeEvaluation). record (f o) {
        result = result;
        completed_at = some (w.clock (emit ev t).ticks);
      })
      Q k (λ now. q _ _ now)

pub update-status :
    (clock : ℕ → ℕ) (id : ℕ) (f : OutcomeEvaluation → OutcomeEvaluation) (s : Session)
    → (update_outcome clock id f s).status ≡ s.status
unfolding update_outcome
update-status clock id f s = ground arith

pub conclude-status :
    (w : World) (id i : ℕ) (start : Option ℕ) (result : OutcomeResult) (shown : Text)
    (f : OutcomeEvaluation → OutcomeEvaluation) (s : Session)
    → (conclude w id i start result shown f s).status ≡ s.status
unfolding conclude finish_outcome emit_outcome_end emit
conclude-status w id i start result shown f s =
    let t : Session = emit (evaluation_end id i start result shown) s in
    update-status w.clock id
      (λ (o : OutcomeEvaluation). record (f o) {
        result = result;
        completed_at = some (w.clock t.ticks);
      })
      (record t { ticks = suc t.ticks })

-- A turn that fails terminates the session.
pub turn-status :
    (prompt : Text) (chat : Chat) (s : Session) (detail : Text)
    → (execute_turn_core prompt chat s).0 ≡ errs detail
    → (execute_turn_core prompt chat s).1.status ≡ terminated
unfolding execute_turn_core turn_ends terminate_turn
turn-status prompt (unavailable d) s detail e = refl
turn-status prompt (cancelled p) s detail e = cc
turn-status prompt (broken late d) s detail e = refl
turn-status prompt (replied r) s detail e = cc

-- A turn replies with what its stream said.
pub turn-reply :
    (prompt : Text) (chat : Chat) (s : Session) (said : Text)
    → (execute_turn_core prompt chat s).0 ≡ reply said
    → chat ≡ replied said
unfolding execute_turn_core turn_ends
turn-reply prompt (unavailable d) s said e = cc
turn-reply prompt (cancelled p) s said e = cc
turn-reply prompt (broken late d) s said e = cc
turn-reply prompt (replied r) s said e = ground arith
