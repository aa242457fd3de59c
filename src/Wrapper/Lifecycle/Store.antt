-- ===== src/Wrapper/Lifecycle/Store.antt =====
-- The lifecycle store (internal/wrapper/lifecycle_store.go). Each method takes the time that it
-- reads and whether its write to the file succeeds; the file is the state that was last written.
-- `trim` is `strings.TrimSpace`, and `seq` is the bit pattern of an int64.
use ahsir.Prelude.{
  ◌-◌, ◌++◌, drop, take, ◌||◌, length, not, ◌%◌, ◌&&◌, ltb, ◌+◌, if◌then◌else◌, [], ◌∷◌, ℕ, none,
  some, Option, true, false, Bool, List,
}
use ahsir.Prelude.Decimal.{u64}
use ahsir.Prelude.Text.{Text-discrete, text_eq, Text}
use ahsir.Prelude.Table.{get, put, Table}

pub data Phase : Type 0 where
  idle initializing running finalizing : Phase

pub data EventType : Type 0 where
  session_initializing session_initialized session_initialization_failed : EventType
  turn_running turn_soft_deadline turn_finalizing turn_finalized : EventType
  turn_finalization_failed turn_outcome : EventType

pub data Kind : Type 0 where
  completed runtime_timeout facade_timeout canceled provider_error : Kind
  finalize_timeout initialization_failure : Kind

pub data Trigger : Type 0 where
  soft_deadline graceful_stop : Trigger

abbrev pub max_events : ℕ
max_events = 500

abbrev pub max_detail_bytes : ℕ
max_detail_bytes = 512

abbrev pub max_err_bytes : ℕ
max_err_bytes = 1024

abbrev pub max_message_bytes : ℕ
max_message_bytes = 4096

pub record LifecycleEvent : Type 0 where
  pub seq : ℕ
  pub kind_of : EventType
  pub session_id : Text
  pub turn_id : Text
  pub phase : Phase
  pub trigger : Option Trigger
  pub kind : Option Kind
  pub detail : Text
  pub at : ℕ

pub record TurnOutcome : Type 0 where
  pub session_id : Text
  pub turn_id : Text
  pub phase : Phase
  pub kind : Kind
  pub finalized : Bool
  pub trigger : Option Trigger
  pub started_at : ℕ
  pub finished_at : ℕ
  pub work_deadline : Option ℕ
  pub grace_deadline : Option ℕ
  pub error : Text
  pub last_message : Text

pub record SessionLifecycle : Type 0 where
  pub phase : Phase
  pub lifecycle_version : Text
  pub initialized : Bool
  pub initialized_at : Option ℕ
  pub init_degraded : Bool
  pub current_turn_id : Text
  pub events : List LifecycleEvent
  pub last_outcome : Option TurnOutcome

-- What the file holds.
pub record Saved : Type 0 where
  pub seq : ℕ
  pub sessions : Table Text SessionLifecycle

pub record LifecycleStore : Type 0 where
  pub persistent : Bool
  pub sessions : Table Text SessionLifecycle
  pub seq : ℕ
  pub file : Option Saved

-- What one call meets: the clock, and whether the file can be written.
pub record Env : Type 0 where
  pub now : ℕ
  pub disk : Bool

abbrev pub blank_session : SessionLifecycle
blank_session = record {
  phase = idle;
  lifecycle_version = [];
  initialized = false;
  initialized_at = none;
  init_degraded = false;
  current_turn_id = [];
  events = [];
  last_outcome = none;
}

abbrev pub is_idle : Phase → Bool
is_idle idle = true
is_idle _ = false

unfoldable pub bound_events : List LifecycleEvent → List LifecycleEvent
bound_events evs = if ltb max_events (length evs) then drop (length evs - max_events) evs else evs

unfoldable pub settle : SessionLifecycle → SessionLifecycle
unfolding bound_events
settle rec = record rec {
  phase = idle;
  current_turn_id = if is_idle rec.phase then rec.current_turn_id else [];
  events = bound_events rec.events;
}

unfoldable pub settle_all : Table Text SessionLifecycle → Table Text SessionLifecycle
unfolding settle
settle_all [] = []
settle_all ((k, rec) ∷ m) = (k, settle rec) ∷ settle_all m

-- `none` is a file that is missing or does not decode.
unfoldable pub new_lifecycle_store : Bool → Option Saved → LifecycleStore
unfolding settle_all
new_lifecycle_store persistent none = record {
  persistent = persistent;
  sessions = [];
  seq = 0;
  file = none;
}
new_lifecycle_store persistent (some saved) = record {
  persistent = persistent;
  sessions = settle_all saved.sessions;
  seq = saved.seq;
  file = some saved;
}

abbrev pub or_blank : Option SessionLifecycle → SessionLifecycle
or_blank none = blank_session
or_blank (some rec) = rec

-- The record that `getLocked` returns, and the store with that record in it.
abbrev pub session : Text → LifecycleStore → SessionLifecycle
session cid s = or_blank (get Text-discrete cid s.sessions)

abbrev pub with_session : Text → SessionLifecycle → LifecycleStore → LifecycleStore
with_session cid rec s = record s { sessions = put Text-discrete cid rec s.sessions }

abbrev pub persist : Env → LifecycleStore → LifecycleStore
persist v s =
    if s.persistent && v.disk
    then record s { file = some (record { seq = s.seq; sessions = s.sessions }) }
    else s

-- A change of one session's record, written at once.
unfoldable pub commit : Env → Text → SessionLifecycle → LifecycleStore → LifecycleStore
commit v cid rec s = persist v (with_session cid rec s)

abbrev pub wants_init : Text → SessionLifecycle → Bool
wants_init version rec =
    let same = text_eq rec.lifecycle_version version in
    if rec.init_degraded && same then false else not rec.initialized || not same

unfoldable pub needs_init : Text → Text → LifecycleStore → LifecycleStore × Bool
needs_init cid version s =
    let rec = session cid s in (with_session cid rec s, wants_init version rec)

abbrev pub initialized_session : ℕ → Text → SessionLifecycle → SessionLifecycle
initialized_session now version rec = record rec {
  initialized = true;
  init_degraded = false;
  lifecycle_version = version;
  initialized_at = some now;
}

unfoldable pub mark_initialized : Env → Text → Text → LifecycleStore → LifecycleStore
unfolding commit
mark_initialized v cid version s =
    commit v cid (initialized_session v.now version (session cid s)) s

unfoldable pub mark_init_degraded : Env → Text → Text → LifecycleStore → LifecycleStore
unfolding commit
mark_init_degraded v cid version s =
    commit v cid (record (session cid s) { init_degraded = true; lifecycle_version = version }) s

unfoldable pub set_phase : Env → Text → Phase → Text → LifecycleStore → LifecycleStore
unfolding commit
set_phase v cid phase turn_id s =
    commit v cid (record (session cid s) { phase = phase; current_turn_id = turn_id }) s

-- "…" in UTF-8.
abbrev pub ellipsis : Text
ellipsis = 226 ∷ 128 ∷ 166 ∷ []

module _ (trim : Text → Text) where
  unfoldable pub bound_string : Text → ℕ → Text
  bound_string s max =
      let t = trim s in if ltb max (length t) then take (max - 3) t ++ ellipsis else t

  unfoldable pub append : Env → Text → LifecycleEvent → LifecycleStore → LifecycleStore
  unfolding commit bound_events bound_string
  append v cid ev s =
      let rec = session cid s in
      let seq = (s.seq + 1) % u64 in
      let done = record ev {
        seq = seq;
        session_id = cid;
        at = v.now;
        detail = bound_string ev.detail max_detail_bytes;
      } in
      commit v cid (record rec { events = bound_events (rec.events ++ (done ∷ [])) })
        (record s { seq = seq })

  unfoldable pub record_outcome : Env → Text → TurnOutcome → LifecycleStore → LifecycleStore
  unfolding commit bound_string
  record_outcome v cid o s =
      commit v cid
        (record (session cid s) {
          last_outcome = some (record o {
            session_id = cid;
            error = bound_string o.error max_err_bytes;
            last_message = bound_string o.last_message max_message_bytes;
          });
          phase = idle;
          current_turn_id = [];
        })
        s
