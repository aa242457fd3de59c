-- ===== src/Scheduler/Supervisor/Monitor.antt =====
-- What happens to a process: its exit, its failing health and the restarts
-- (internal/scheduler/scheduler.go).
use ahsir.Scheduler.Supervisor.Ports.{StartError, Env, Host}
use ahsir.Scheduler.Supervisor.State.{
  AgentConfig, LifecycleState, Process, set_lifecycle, SupervisorConfig, Timer, Scheduler,
}
use ahsir.Scheduler.Supervisor.Launch.{start_agent_locked, is_configuration_error}
use ahsir.Prelude.{
  ℕ, zero, suc, ◌+◌, ◌-◌, ◌*◌, not, ◌&&◌, ◌||◌, Option, none, some, List, [], ◌∷◌, ◌++◌, ltb, leb,
  ◌==◌, if◌then◌else◌, is_some,
}
use ahsir.Prelude.Text.{Text, text, Text-discrete, text_eq}
use ahsir.Prelude.Table.{get, put, delete}

unfoldable pub doubled : ℕ → ℕ → ℕ → ℕ
doubled max zero delay = if ltb max delay then max else delay
doubled max (suc k) delay =
    let rest = doubled max k (delay * 2) in if leb max (delay * 2) then max else rest

unfoldable pub restart_backoff : SupervisorConfig → ℕ → ℕ
unfolding doubled
restart_backoff v attempt =
    let initial = if v.initial_backoff == 0 then 1000000000 else v.initial_backoff in
    let max = if v.max_backoff == 0 then 30000000000 else v.max_backoff in
    doubled max (attempt - 1) initial

-- How a process ended, with the text of its error; an idle exit carries the exit code of that.
pub data Exit : Type 0 where
  idle_exit : Exit
  other_exit : Text → Exit

-- The process that a monitor watches, if it is still the one that the scheduler has.
unfoldable pub current : Text → ℕ → Scheduler → Option Process
current name id s = elim (get Text-discrete name s.agents) [
  | none ↦ none
  | some p ↦ if p.id == id then some p else none
]

unfoldable pub schedule_restart : Text → ℕ → ℕ → Scheduler → Scheduler
schedule_restart name attempt due s = record s {
  timers = record { agent = name; attempt = attempt; due = due } ∷ s.timers;
}

-- The timers without one for this agent and attempt.
unfoldable pub take_timer : Text → ℕ → List Timer → List Timer
take_timer name attempt [] = []
take_timer name attempt (t ∷ ts) =
    let rest = take_timer name attempt ts in
    if text_eq t.agent name && t.attempt == attempt then ts else t ∷ rest

module _ (h : Host) where
  unfoldable pub scale_to_zero : Env → Text → AgentConfig → Scheduler → Scheduler
  unfolding set_lifecycle
  scale_to_zero e name cfg s =
      set_lifecycle h.fields e.now name LifecycleState.idle (text "scale-to-zero")
        (text "idle timeout elapsed; wakeable on next request") 0 none
        (record s { idle_stopped = put Text-discrete name cfg s.idle_stopped })

  unfoldable pub crashed : Env → Text → Process → Text → Scheduler → Scheduler
  unfolding set_lifecycle schedule_restart restart_backoff
  crashed e name p detail s =
      let attempt = p.restart_attempts + 1 in
      let due = e.now + restart_backoff s.supervisor attempt in
      schedule_restart name attempt due (elim p.health_failed [
        | none ↦
            set_lifecycle h.fields e.now name LifecycleState.restart_backoff (text "process-exit")
              (text "process exited: " ++ detail) attempt (some due) s
        | some reason ↦
            set_lifecycle h.fields e.now name LifecycleState.health_failed (text "health-threshold")
              reason attempt (some due) s
      ])

  unfoldable pub monitor_ends : Env → Text → Process → Exit → Scheduler → Scheduler
  unfolding scale_to_zero crashed
  monitor_ends e name p x s =
      if p.stopping || not s.alive || not s.supervisor.enabled
      then s
      else elim (get Text-discrete name s.desired) [
        | none ↦ s
        | some cfg ↦ elim x [
          | idle_exit ↦ scale_to_zero e name cfg s
          | other_exit detail ↦ crashed e name p detail s
        ]
      ]

  unfoldable pub monitor_agent : Env → Text → ℕ → Exit → Scheduler → Scheduler
  unfolding current monitor_ends
  monitor_agent e name id x s = elim (current name id s) [
    | none ↦ s
    | some p ↦ monitor_ends e name p x (record s { agents = delete Text-discrete name s.agents })
  ]

  unfoldable pub fail_health : Env → Text → Process → Text → Scheduler → Scheduler
  unfolding set_lifecycle
  fail_health e name p detail s =
      let reason = text "health check failed: " ++ detail in
      let s1 =
        set_lifecycle h.fields e.now name LifecycleState.health_failed (text "health-threshold")
          reason p.restart_attempts none s in
      record s1 {
        agents = put Text-discrete name (record p { health_failed = some reason }) s.agents;
        killed = s.killed ++ (p.id ∷ []);
      }

  unfoldable pub restart_unhealthy_agent : Env → Text → ℕ → Text → Scheduler → Scheduler
  unfolding current fail_health
  restart_unhealthy_agent e name id detail s = elim (current name id s) [
    | none ↦ s
    | some p ↦
        if p.stopping || not s.alive || not s.supervisor.enabled
        then s
        else fail_health e name p detail s
  ]

  unfoldable pub restart_fails : Env → Text → ℕ → StartError → Scheduler → Scheduler
  unfolding set_lifecycle schedule_restart restart_backoff
  restart_fails e name attempt err s =
      let next = attempt + 1 in
      let due = e.now + restart_backoff s.supervisor next in
      schedule_restart name next due (
        set_lifecycle h.fields e.now name LifecycleState.restart_backoff (text "process-exit")
          (text "restart failed: " ++ h.message err) next (some due) s)

  unfoldable pub restarted : Env → Text → ℕ → Option StartError × Scheduler → Scheduler
  unfolding is_configuration_error restart_fails
  restarted e name attempt (none, s) = s
  restarted e name attempt (some err, s) =
      if is_configuration_error err then s else restart_fails e name attempt err s

  -- The goroutine of `scheduleRestartLocked`, when its timer fires.
  unfoldable pub restart_due : Env → Text → ℕ → Scheduler → Scheduler
  unfolding take_timer restarted start_agent_locked
  restart_due e name attempt s =
      let s1 : Scheduler = record s { timers = take_timer name attempt s.timers } in
      if not s.alive then s1 else elim (get Text-discrete name s.desired) [
        | none ↦ s1
        | some cfg ↦
            if is_some (get Text-discrete name s.agents)
              || is_some (get Text-discrete name s.idle_stopped)
            then s1
            else restarted e name attempt (start_agent_locked h e cfg attempt s1)
      ]
