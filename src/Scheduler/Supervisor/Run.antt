-- ===== src/Scheduler/Supervisor/Run.antt =====
-- Histories of the supervisor: the calls, the exits, the timers and the wakes, in any order.
use ahsir.Scheduler.Supervisor.Instances.{start_or_wake_instance}
use ahsir.Prelude.{Bool, ℕ, List, [], ◌∷◌}
use ahsir.Scheduler.Supervisor.Launch.{stop, restart_ends, stop_agent, start_agent, start}
use ahsir.Scheduler.Supervisor.Wake.{
  rollback_ends, rollback_begins, ensure_awake_once, ensure_agent, Card,
}
use ahsir.Scheduler.Supervisor.Monitor.{restart_due, restart_unhealthy_agent, monitor_agent, Exit}
use ahsir.Scheduler.Supervisor.State.{AgentConfig, Scheduler}
use ahsir.Scheduler.Supervisor.Ports.{Env, Host}
use ahsir.Prelude.Text.{Text}

pub data Event : Type 0 where
  boots : Text → (ℕ → Env) → Event
  starts_agent : Env → AgentConfig → Event
  ensures : Env → AgentConfig → Card → Event
  stops_agent : Env → Text → Event
  restarts : Env → AgentConfig → Event
  exits : Env → Text → ℕ → Exit → Event
  unhealthy : Env → Text → ℕ → Text → Event
  fires : Env → Text → ℕ → Event
  wakes : Env → Text → Event
  rolls_back : Text → ℕ → Event
  rolled_back : Text → Event
  brings : Env → Bool → Text → ℕ → Event
  stops : Event

module _ (h : Host) where
  unfoldable pub step : Event → Scheduler → Scheduler
  unfolding start start_agent ensure_agent stop_agent restart_ends monitor_agent
      restart_unhealthy_agent restart_due ensure_awake_once rollback_begins rollback_ends
      start_or_wake_instance stop
  step (boots token e) s = (start h token e s).1
  step (starts_agent e cfg) s = (start_agent h e cfg s).1
  step (ensures e cfg card) s = (ensure_agent h e cfg card s).1
  step (stops_agent e name) s = stop_agent h e name s
  step (restarts e cfg) s = (restart_ends h e cfg s).1
  step (exits e name id x) s = monitor_agent h e name id x s
  step (unhealthy e name id detail) s = restart_unhealthy_agent h e name id detail s
  step (fires e name attempt) s = restart_due h e name attempt s
  step (wakes e name) s = (ensure_awake_once h e name s).1
  step (rolls_back name id) s = rollback_begins name id s
  step (rolled_back name) s = rollback_ends name s
  step (brings e scaffolded base idx) s = (start_or_wake_instance h e scaffolded base idx s).1
  step stops s = stop s

  unfoldable pub run : List Event → Scheduler → Scheduler
  unfolding step
  run [] s = s
  run (x ∷ xs) s = run xs (step x s)
