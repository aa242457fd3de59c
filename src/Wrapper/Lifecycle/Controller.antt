-- ===== src/Wrapper/Lifecycle/Controller.antt =====
-- The lifecycle controller (internal/wrapper/lifecycle.go): one turn of one session, under the
-- session's lifecycle mutex. What the outside does is an `Oracle` and the three provider turns.
use ahsir.Wrapper.Lifecycle.Store.{
  completed, canceled, runtime_timeout, graceful_stop, mark_init_degraded, turn_finalization_failed,
  soft_deadline, initialization_failure, finalizing, turn_outcome, set_phase, idle, record_outcome,
  initializing, append, turn_finalized, turn_finalizing, running, session_initialized,
  session_initialization_failed, turn_soft_deadline, session_initializing, turn_running,
  mark_initialized, needs_init, Phase, Trigger, EventType, TurnOutcome, Env, Kind, LifecycleStore,
  provider_error,
}
use ahsir.Prelude.{
  ◌+◌, not, ◌&&◌, if◌then◌else◌, ◌++◌, [], ◌∷◌, ℕ, none, some, Option, true, false, Bool, suc, List,
}
use ahsir.Prelude.Text.{Text}

-- The errors that a turn ends with. `provider` is one that the provider reported, and tells whether
-- `errors.Is` finds ErrTurnCanceled in it.
pub data TurnError : Type 0 where
  provider : Bool → Text → TurnError
  open_failed start_failed : TurnError → TurnError
  init_timeout init_interrupted : TurnError
  initialization_turn business_turn : TurnError → TurnError
  truncated finalize_timeout : TurnError
  initialization_failed finalization_failed : TurnError → TurnError

-- `EventTurnDone` carries no statistics here.
pub data StreamEvent : Type 0 where
  text_part : Text → StreamEvent
  other_part : Text → StreamEvent
  turn_done : Option TurnError → StreamEvent
  lifecycle : EventType → Text → Phase → Option Kind → Option Trigger → Text → StreamEvent

-- One provider turn: it does not open, does not start, or streams events; then whether the deadline
-- of its context has fired, and whether the caller's context has ended.
pub data Attempt : Type 0 where
  not_opened not_started : TurnError → Attempt
  streamed : List StreamEvent → Bool → Bool → Attempt

pub record Lifecycle : Type 0 where
  pub init_enabled : Bool
  pub init_timeout : ℕ
  pub init_degraded : Bool
  pub finalize_enabled : Bool
  pub work_timeout : ℕ
  pub grace_timeout : ℕ
  pub version : Text

-- The clock and the disk at each reading and write, `strings.TrimSpace`, and `Error()`.
pub record Oracle : Type 0 where
  pub clock : ℕ → ℕ
  pub disk : ℕ → Bool
  pub trim : Text → Text
  pub message : TurnError → Text

-- The turn's inputs: two fresh turn ids, and what the provider does.
pub record Turn : Type 0 where
  pub init_id : Text
  pub turn_id : Text
  pub init : Attempt
  pub business : Attempt
  pub final : Attempt

-- The store, the stream so far, and how often the clock was read.
pub record World : Type 0 where
  pub store : LifecycleStore
  pub out : List StreamEvent
  pub ticks : ℕ

abbrev pub env : Oracle → World → Env
env o w = record { now = o.clock w.ticks; disk = o.disk w.ticks }

abbrev pub stored : LifecycleStore → World → World
stored s w = record w { store = s; ticks = suc w.ticks }

abbrev pub send : StreamEvent → World → World
send ev w = record w { out = w.out ++ (ev ∷ []) }

abbrev pub phased : Oracle → Text → Phase → Text → World → World
phased o cid phase turn_id w = stored (set_phase (env o w) cid phase turn_id w.store) w

unfoldable pub emit :
    Oracle → Text → EventType → Text → Phase → Option Kind → Option Trigger → Text → World → World
emit o cid event turn_id phase kind trigger detail w =
    send (lifecycle event turn_id phase kind trigger detail) (
      stored
        (append o.trim (env o w) cid
          (record {
            seq = 0;
            kind_of = event;
            session_id = [];
            turn_id = turn_id;
            phase = phase;
            trigger = trigger;
            kind = kind;
            detail = detail;
            at = 0;
          })
          w.store)
        w)

unfoldable pub settle_outcome : Oracle → Text → TurnOutcome → World → World
settle_outcome o cid outcome w = stored (record_outcome o.trim (env o w) cid outcome w.store) w

-- `finishTurn`; `done` is the error of the last event.
unfoldable pub finish_turn : Oracle → Text → TurnOutcome → Option TurnError → World → World
unfolding settle_outcome emit
finish_turn o cid outcome done w = send (turn_done done) (
    emit o cid turn_outcome outcome.turn_id outcome.phase (some outcome.kind) outcome.trigger
      outcome.error (settle_outcome o cid outcome w))

-- The error of the last `EventTurnDone` of a stream, if there is one.
unfoldable pub terminal : List StreamEvent → Option (Option TurnError)
terminal [] = none
terminal (ev ∷ evs) =
    let rest = terminal evs in
    elim rest [ some e ↦ some e | none ↦ elim ev [ turn_done e ↦ some e | _ ↦ none ] ]

abbrev pub is_done : StreamEvent → Bool
is_done (turn_done e) = true
is_done _ = false

-- What is forwarded: all but `EventTurnDone`.
unfoldable pub forwarded : List StreamEvent → List StreamEvent
forwarded [] = []
forwarded (ev ∷ evs) = let rest = forwarded evs in if is_done ev then rest else ev ∷ rest

unfoldable pub last_text : List StreamEvent → Text → Text
last_text [] t = t
last_text (text_part s ∷ evs) t = last_text evs s
last_text (_ ∷ evs) t = last_text evs t

abbrev pub forward : List StreamEvent → World → World
forward evs w = record w { out = w.out ++ forwarded evs }

-- `fail` of `initialize`: the world, and whether the business turn may start.
unfoldable pub init_fails : Oracle → Lifecycle → Text → Text → ℕ → TurnError → World → World × Bool
unfolding emit settle_outcome
init_fails o cfg cid turn_id started cause w =
    let detail = o.message cause in
    let w1 =
      emit o cid session_initialization_failed turn_id idle none none detail
        (phased o cid idle [] w) in
    let w2 =
      settle_outcome o cid
        (record {
          session_id = [];
          turn_id = turn_id;
          phase = idle;
          kind = initialization_failure;
          finalized = false;
          trigger = none;
          started_at = started;
          finished_at = o.clock w1.ticks;
          work_deadline = none;
          grace_deadline = none;
          error = detail;
          last_message = [];
        })
        w1 in
    let w3 = emit o cid turn_outcome turn_id idle (some initialization_failure) none detail w2 in
    if cfg.init_degraded
    then (stored (mark_init_degraded (env o w3) cid cfg.version w3.store) w3, true)
    else (send (turn_done (some (initialization_failed cause))) w3, false)

-- The `switch` at the end of `initialize`, and its errors before it.
unfoldable pub init_cause : Attempt → Option TurnError
unfolding terminal
init_cause (not_opened e) = some (open_failed e)
init_cause (not_started e) = some (start_failed e)
init_cause (streamed evs deadline gone) =
    if deadline && not gone
    then some init_timeout
    else if gone
    then some init_interrupted
    else elim (terminal evs) [
      | none ↦ some (initialization_turn truncated)
      | some none ↦ none
      | some (some e) ↦ some (initialization_turn e)
    ]

unfoldable pub init_ends :
    Oracle → Lifecycle → Text → Text → ℕ → Option TurnError → World → World × Bool
unfolding init_fails emit
init_ends o cfg cid turn_id started (some cause) w = init_fails o cfg cid turn_id started cause w
init_ends o cfg cid turn_id started none w =
    let w1 = stored (mark_initialized (env o w) cid cfg.version w.store) w in
    (emit o cid session_initialized turn_id idle none none [] (phased o cid idle [] w1), true)

unfoldable pub initialize : Oracle → Lifecycle → Text → Turn → World → World × Bool
unfolding init_ends init_cause emit
initialize o cfg cid t w = init_ends o cfg cid t.init_id (o.clock w.ticks) (init_cause t.init) (
    emit o cid session_initializing t.init_id initializing none none []
      (phased o cid initializing t.init_id w))

-- The outcome of a business turn that was not finalized.
abbrev pub plain_outcome :
    Oracle → Lifecycle → Text → ℕ → Kind → Option TurnError → Text → World → TurnOutcome
plain_outcome o cfg turn_id started kind err partial w = record {
  session_id = [];
  turn_id = turn_id;
  phase = idle;
  kind = kind;
  finalized = false;
  trigger = none;
  started_at = started;
  finished_at = o.clock w.ticks;
  work_deadline = if cfg.finalize_enabled then some (started + cfg.work_timeout) else none;
  grace_deadline = none;
  error = elim err [ none ↦ [] | some e ↦ o.message e ];
  last_message = partial;
}

-- `finishFinalize` and the successful end of `finalize`, by the error if there is one.
unfoldable pub finalize_ends :
    Oracle
    → Lifecycle
    → Text
    → Text
    → Trigger
    → ℕ
    → ℕ
    → Kind
    → Option TurnError
    → Text
    → World
    → World
unfolding emit finish_turn
finalize_ends o cfg cid turn_id trigger started grace kind err last w =
    let detail : Text = elim err [ none ↦ [] | some e ↦ o.message e ] in
    let event : EventType = elim err [
      | none ↦ turn_finalized
      | some e ↦ turn_finalization_failed
    ] in
    let shown : Option Kind = elim err [ none ↦ none | some e ↦ some kind ] in
    let w1 = emit o cid event turn_id idle shown (some trigger) detail w in
    finish_turn o cid
      (record (plain_outcome o cfg turn_id started kind err last w1) {
        finalized = elim err [ none ↦ true | some e ↦ false ];
        trigger = some trigger;
        grace_deadline = some (grace + cfg.grace_timeout);
      })
      err w1

-- The end of the finalize turn: its kind and its error. `kind` is the trigger's.
unfoldable pub final_verdict : Kind → Attempt → Kind × Option TurnError
unfolding terminal
final_verdict kind (not_opened e) = (provider_error, some (open_failed e))
final_verdict kind (not_started e) = (provider_error, some (start_failed e))
final_verdict kind (streamed evs deadline gone) =
    if deadline
    then (Kind.finalize_timeout, some TurnError.finalize_timeout)
    else elim (terminal evs) [
      | none ↦ (provider_error, some (finalization_failed truncated))
      | some none ↦ (kind, none)
      | some (some e) ↦ (provider_error, some (finalization_failed e))
    ]

abbrev pub parts : Attempt → List StreamEvent
parts (streamed evs deadline gone) = evs
parts _ = []

unfoldable pub finalize :
    Oracle → Lifecycle → Text → Turn → Trigger → Kind → ℕ → Text → World → World
unfolding final_verdict finalize_ends emit
finalize o cfg cid t trigger kind started partial w =
    let w1 =
      emit o cid turn_finalizing t.turn_id finalizing none (some trigger) []
        (phased o cid finalizing t.turn_id w) in
    let (k, err) = final_verdict kind t.final in
    let last : Text = elim err [ none ↦ last_text (parts t.final) [] | some e ↦ partial ] in
    finalize_ends o cfg cid t.turn_id trigger started (o.clock w1.ticks) k err last
      (forward (parts t.final) (record w1 { ticks = suc w1.ticks }))

abbrev pub is_cancel : TurnError → Bool
is_cancel (provider c m) = c
is_cancel _ = false

-- How a business turn goes on after its stream has ended.
pub data Decision : Type 0 where
  finish : Kind → Option TurnError → Decision
  finalize_by : Trigger → Kind → Decision

unfoldable pub decide : Bool → Attempt → Decision
unfolding terminal
decide finalizes (not_opened e) = finish provider_error (some (open_failed e))
decide finalizes (not_started e) = finish provider_error (some (start_failed e))
decide finalizes (streamed evs deadline gone) =
    if finalizes && deadline && not gone
    then finalize_by soft_deadline runtime_timeout
    else if finalizes && gone
    then finalize_by graceful_stop canceled
    else elim (terminal evs) [
      | none ↦ finish provider_error (some (business_turn truncated))
      | some none ↦ finish completed none
      | some (some e) ↦ finish (if is_cancel e then canceled else provider_error) (some e)
    ]

unfoldable pub business_ends :
    Oracle → Lifecycle → Text → Turn → ℕ → Text → Decision → World → World
unfolding finish_turn finalize emit
business_ends o cfg cid t started partial (finish kind err) w =
    finish_turn o cid (plain_outcome o cfg t.turn_id started kind err partial w) err w
business_ends o cfg cid t started partial (finalize_by soft_deadline kind) w =
    finalize o cfg cid t soft_deadline kind started partial
      (emit o cid turn_soft_deadline t.turn_id running none none [] w)
business_ends o cfg cid t started partial (finalize_by graceful_stop kind) w =
    finalize o cfg cid t graceful_stop kind started partial w

unfoldable pub run_business : Oracle → Lifecycle → Text → Turn → World → World
unfolding business_ends decide emit
run_business o cfg cid t w =
    business_ends o cfg cid t (o.clock w.ticks) (last_text (parts t.business) [])
      (decide cfg.finalize_enabled t.business)
      (forward (parts t.business)
        (emit o cid turn_running t.turn_id running none none [] (phased o cid running t.turn_id w)))

abbrev pub or_business : Oracle → Lifecycle → Text → Turn → World × Bool → World
or_business o cfg cid t (w, true) = run_business o cfg cid t w
or_business o cfg cid t (w, false) = w

unfoldable pub run : Oracle → Lifecycle → Text → Turn → World → World
unfolding initialize run_business
run o cfg cid t w =
    let (s, fresh) = needs_init cid cfg.version w.store in
    let w1 = record w { store = s } in
    if cfg.init_enabled
    then (if fresh
        then or_business o cfg cid t (initialize o cfg cid t w1)
        else run_business o cfg cid t w1)
    else run_business o cfg cid t w
