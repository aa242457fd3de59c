-- ===== src/Scheduler/Supervisor/Launch.antt =====
-- Starting and stopping agents (internal/scheduler/scheduler.go): `startAgentLocked`, `StartAgent`,
-- `StopAgent`, `Start`, `Stop`.
use ahsir.Scheduler.Supervisor.Ports.{
  refused, chosen, PortChoice, not_started, no_token, Fault, invalid_configuration, resolve_port,
  StartError, Host, Env,
}
use ahsir.Scheduler.Supervisor.State.{
  LifecycleState, AgentConfig, set_lifecycle, Process, Scheduler,
}
use ahsir.Prelude.{
  ℕ, suc, Bool, true, false, not, ◌||◌, Option, none, some, List, [], ◌∷◌, ◌++◌, if◌then◌else◌,
  length, is_some,
}
use ahsir.Prelude.Text.{Text, text, is_empty, Text-discrete}
use ahsir.Prelude.Table.{Table, get, put, delete}

-- The process of a command that started is published, and its agent desired.
unfoldable pub publish : AgentConfig → ℕ → Text → Scheduler → Scheduler
publish cfg attempts token s =
    let c : AgentConfig = record cfg { internal_token = token; admin_token = s.admin_token } in
    let p : Process = record {
      id = length s.launched;
      cfg = c;
      stopping = false;
      restart_attempts = attempts;
      internal_token = token;
      health_failed = none;
    } in
    record s {
      agents = put Text-discrete cfg.name p s.agents;
      desired = put Text-discrete cfg.name c s.desired;
      launched = p ∷ s.launched;
    }

-- `cmd.Start`
unfoldable pub launch : Env → AgentConfig → ℕ → Text → Scheduler → Option StartError × Scheduler
unfolding publish
launch e cfg attempts token s =
    if e.starts then (none, publish cfg attempts token s) else (some not_started, s)

unfoldable pub with_token : Env → AgentConfig → ℕ → Scheduler → Option StartError × Scheduler
unfolding launch
with_token e cfg attempts s =
    if is_empty cfg.internal_token
    then elim e.token [ none ↦ (some no_token, s) | some t ↦ launch e cfg attempts t s ]
    else launch e cfg attempts cfg.internal_token s

-- What follows the choice of the port.
unfoldable pub on_port :
    Env → AgentConfig → ℕ → Scheduler → PortChoice → Option StartError × Scheduler
unfolding with_token
on_port e cfg attempts s (chosen port) = with_token e (record cfg { port = port }) attempts s
on_port e cfg attempts s (refused err) = (some err, s)

-- The process is asked to stop and killed.
unfoldable pub put_down : Text → Process → Scheduler → Scheduler
put_down name p s = record s {
  agents = put Text-discrete name (record p { stopping = true }) s.agents;
  killed = s.killed ++ (p.id ∷ []);
}

pub data Refusal : Type 0 where
  not_running : Refusal
  is_running : Refusal
  already_running : Refusal
  no_name : Refusal
  no_workspace : Refusal
  not_found : Refusal
  start_failed : StartError → Refusal

pub data Answer : Type 0 where
  answered : ℕ → Answer
  denied : Refusal → Answer

unfoldable pub port_of : Text → Scheduler → ℕ
port_of name s = elim (get Text-discrete name s.agents) [ none ↦ 0 | some p ↦ p.cfg.port ]

unfoldable pub start_ends : Text → Option StartError × Scheduler → Answer × Scheduler
unfolding port_of
start_ends name (none, s) = (answered (port_of name s), s)
start_ends name (some err, s) = (denied (start_failed err), s)

unfoldable pub forget : Text → Scheduler → Scheduler
forget name s = record s {
  desired = delete Text-discrete name s.desired;
  idle_stopped = delete Text-discrete name s.idle_stopped;
}

unfoldable pub kill_all : Table Text Process → Scheduler → Scheduler
kill_all [] s = s
kill_all ((name, p) ∷ m) s = kill_all m (record s { killed = s.killed ++ (p.id ∷ []) })

unfoldable pub stop : Scheduler → Scheduler
unfolding kill_all
stop s = record (kill_all s.agents s) {
  agents = [];
  desired = [];
  idle_stopped = [];
  alive = false;
  running = false;
}

-- `delete(s.desired, name)` for each process
unfoldable pub undesire : Table Text Process → Table Text AgentConfig → Table Text AgentConfig
undesire [] d = d
undesire ((name, p) ∷ m) d = undesire m (delete Text-discrete name d)

unfoldable pub abort_start : Scheduler → Scheduler
unfolding kill_all undesire
abort_start s = record (kill_all s.agents s) {
  agents = [];
  desired = undesire s.agents s.desired;
  alive = false;
}

unfoldable pub is_configuration_error : StartError → Bool
is_configuration_error (invalid_configuration f) = true
is_configuration_error _ = false

-- What the loop of `Start` does with the result of one agent.
unfoldable pub booted :
    Option StartError × Scheduler
    → (Scheduler → Option StartError × Scheduler)
    → Option StartError × Scheduler
unfolding is_configuration_error abort_start
booted (none, s) go = go s
booted (some err, s) go = if is_configuration_error err then go s else (some err, abort_start s)

unfoldable pub boot_ends : Option StartError × Scheduler → Option Refusal × Scheduler
boot_ends (none, s) = (none, s)
boot_ends (some err, s) = (some (start_failed err), s)

module _ (h : Host) where
  unfoldable pub reject : Env → AgentConfig → Fault → Scheduler → Scheduler
  unfolding set_lifecycle
  reject e cfg f s =
      set_lifecycle h.fields e.now cfg.name LifecycleState.invalid_config f.code
        (h.message (invalid_configuration f)) 0 none
        (record s { desired = put Text-discrete cfg.name cfg s.desired })

  unfoldable pub start_agent_locked :
      Env → AgentConfig → ℕ → Scheduler → Option StartError × Scheduler
  unfolding reject resolve_port on_port
  start_agent_locked e cfg attempts s = elim (e.invalid cfg) [
    | some f ↦ (some (invalid_configuration f), reject e cfg f s)
    | none ↦
        let c = resolve_port h e cfg s in on_port e cfg attempts (record s { next_port = c.1 }) c.0
  ]

  unfoldable pub start_agent : Env → AgentConfig → Scheduler → Answer × Scheduler
  unfolding start_ends start_agent_locked
  start_agent e cfg s =
      if not s.running
      then (denied not_running, s)
      else if is_empty cfg.name
      then (denied no_name, s)
      else if is_empty cfg.workspace
      then (denied no_workspace, s)
      else if is_some (get Text-discrete cfg.name s.agents)
      then (denied already_running, s)
      else start_ends cfg.name (start_agent_locked e cfg 0 s)

  unfoldable pub show_stopped : Env → Text → Scheduler → Scheduler
  unfolding set_lifecycle
  show_stopped e name s =
      set_lifecycle h.fields e.now name LifecycleState.stopped (text "operator-stopped")
        (text "stopped by operator") 0 none s

  unfoldable pub stop_agent : Env → Text → Scheduler → Scheduler
  unfolding forget show_stopped put_down
  stop_agent e name s = elim (get Text-discrete name s.agents) [
    | none ↦
        if is_some (get Text-discrete name s.desired)
          || is_some (get Text-discrete name s.lifecycles)
        then show_stopped e name (forget name s)
        else forget name s
    | some p ↦
        let s1 = put_down name p (show_stopped e name (forget name s)) in
        record s1 { unregistered = s1.unregistered ++ (name ∷ []) }
  ]

  -- The end of `RestartAgent`, once the old process is gone; `cfg` is what `desired` held.
  unfoldable pub restart_ends : Env → AgentConfig → Scheduler → Answer × Scheduler
  unfolding start_agent
  restart_ends e cfg s = start_agent e (record cfg { port = 0 }) s

  -- The agents of the configuration; each start meets its own environment.
  unfoldable pub start_agents :
      (ℕ → Env) → List AgentConfig → ℕ → Scheduler → Option StartError × Scheduler
  unfolding booted start_agent_locked
  start_agents e [] i s = (none, record s { running = true })
  start_agents e (c ∷ cs) i s =
      let go : Scheduler → Option StartError × Scheduler =
        λ (t : Scheduler). start_agents e cs (suc i) t in
      if is_empty c.remote then booted (start_agent_locked (e i) c 0 s) go else go s

  -- `Start`, once the token is read and the listener is bound.
  unfoldable pub start : Text → (ℕ → Env) → Scheduler → Option Refusal × Scheduler
  unfolding start_agents boot_ends
  start token e s =
      if s.running
      then (some is_running, s)
      else boot_ends
          (start_agents e s.configured 0 (record s { alive = true; admin_token = token }))
