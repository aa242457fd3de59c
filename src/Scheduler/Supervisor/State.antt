-- ===== src/Scheduler/Supervisor/State.antt =====
-- What the scheduler keeps of its agents: processes, the desired agents, those that scaled to
-- zero, and the states that it shows (internal/scheduler/scheduler.go, config.go, lifecycle.go).
use ahsir.Wrapper.Lifecycle.Store.{ellipsis}
use ahsir.Prelude.{
  ℕ, Bool, true, false, Option, none, List, [], ◌∷◌, ◌++◌, ltb, if◌then◌else◌, length, take,
}
use ahsir.Prelude.Text.{Text, text, Text-discrete}
use ahsir.Prelude.Table.{Table, put}

pub record AgentConfig : Type 0 where
  pub name : Text
  pub workspace : Text
  pub workdir : Text
  pub port : ℕ
  pub instances : ℕ
  pub remote : Text
  pub internal_token : Text
  pub admin_token : Text

unfoldable pub instance_cap : AgentConfig → ℕ
instance_cap c = if ltb c.instances 1 then 1 else c.instances

-- `id` stands for the pointer; `health_failed` is the reason where the state is health-failed.
pub record Process : Type 0 where
  pub id : ℕ
  pub cfg : AgentConfig
  pub stopping : Bool
  pub restart_attempts : ℕ
  pub internal_token : Text
  pub health_failed : Option Text

pub data LifecycleState : Type 0 where
  online : LifecycleState
  idle : LifecycleState
  stopped : LifecycleState
  invalid_config : LifecycleState
  restart_backoff : LifecycleState
  health_failed : LifecycleState

pub data Severity : Type 0 where
  ok : Severity
  info : Severity
  warning : Severity
  error : Severity

unfoldable pub lifecycle_severity : LifecycleState → Severity
lifecycle_severity LifecycleState.online = ok
lifecycle_severity LifecycleState.idle = info
lifecycle_severity LifecycleState.stopped = warning
lifecycle_severity _ = error

unfoldable pub is_wakeable : LifecycleState → Bool
is_wakeable LifecycleState.idle = true
is_wakeable _ = false

pub record Snapshot : Type 0 where
  pub name : Text
  pub state : LifecycleState
  pub reason_code : Text
  pub reason : Text
  pub severity : Severity
  pub wakeable : Bool
  pub restart_attempt : ℕ
  pub restart_at : Option ℕ
  pub updated_at : ℕ

pub record SupervisorConfig : Type 0 where
  pub enabled : Bool
  pub initial_backoff : ℕ
  pub max_backoff : ℕ

pub record PortRange : Type 0 where
  pub start : ℕ
  pub end : ℕ

-- A restart that a goroutine waits to make.
pub record Timer : Type 0 where
  pub agent : Text
  pub attempt : ℕ
  pub due : ℕ

-- `alive` is whether there is a context and it has not ended. `launched` are the processes that
-- were started, the latest first, and `killed` the ids of those that were killed.
pub record Scheduler : Type 0 where
  pub running : Bool
  pub alive : Bool
  pub supervisor : SupervisorConfig
  pub port_range : PortRange
  pub next_port : ℕ
  pub configured : List AgentConfig
  pub admin_token : Text
  pub agents : Table Text Process
  pub desired : Table Text AgentConfig
  pub idle_stopped : Table Text AgentConfig
  pub lifecycles : Table Text Snapshot
  pub timers : List Timer
  pub launched : List Process
  pub killed : List ℕ
  pub unregistered : List Text

-- The words of a text that white space separates (`strings.Fields`).
module _ (fields : Text → List Text) where
  unfoldable pub join_words : List Text → Text
  join_words [] = []
  join_words (w ∷ []) = w
  join_words (w ∷ v ∷ ws) = w ++ (32 ∷ join_words (v ∷ ws))

  unfoldable pub sanitize_reason : Text → Text
  unfolding join_words
  sanitize_reason reason =
      let r = join_words (fields reason) in if ltb 512 (length r) then take 512 r ++ ellipsis else r

  unfoldable pub set_lifecycle :
      ℕ → Text → LifecycleState → Text → Text → ℕ → Option ℕ → Scheduler → Scheduler
  unfolding sanitize_reason lifecycle_severity is_wakeable
  set_lifecycle now name state code reason attempt at s = record s {
    lifecycles =
        put Text-discrete name
          (record {
            name = name;
            state = state;
            reason_code = code;
            reason = sanitize_reason reason;
            severity = lifecycle_severity state;
            wakeable = is_wakeable state;
            restart_attempt = attempt;
            restart_at = at;
            updated_at = now;
          })
          s.lifecycles;
  }

  -- The agents of the configuration are shown as not started.
  unfoldable pub list_configured : ℕ → List AgentConfig → Scheduler → Scheduler
  unfolding set_lifecycle
  list_configured now [] s = s
  list_configured now (c ∷ cs) s = list_configured now cs (
      set_lifecycle now c.name LifecycleState.stopped (text "configured-not-started")
        (text "configured but not started") 0 none s)

  unfoldable pub new_scheduler : SupervisorConfig → PortRange → List AgentConfig → ℕ → Scheduler
  unfolding list_configured
  new_scheduler v r cs now = list_configured now cs (record {
    running = false;
    alive = false;
    supervisor = v;
    port_range = r;
    next_port = 0;
    configured = cs;
    admin_token = [];
    agents = [];
    desired = [];
    idle_stopped = [];
    lifecycles = [];
    timers = [];
    launched = [];
    killed = [];
    unregistered = [];
  })
