-- ===== src/Scheduler/Supervisor/Instances.antt =====
-- The runtime instances of a card as processes (internal/scheduler/scheduler.go, instance.go).
use ahsir.Scheduler.Supervisor.Ports.{Env, Host, StartError}
use ahsir.Scheduler.Supervisor.State.{AgentConfig, Scheduler}
use ahsir.Scheduler.Supervisor.Wake.{ensure_awake_once, Wait, healthy, failed}
use ahsir.Prelude.Decimal.{decimal}
use ahsir.Scheduler.Supervisor.Launch.{start_agent_locked}
use ahsir.Scheduler.Instance.Names.{instance_name}
use ahsir.Prelude.{ℕ, Bool, not, Option, none, some, [], ◌++◌, ◌==◌, if◌then◌else◌, is_some}
use ahsir.Prelude.Text.{Text, text, Text-discrete}
use ahsir.Prelude.Table.{get}

-- What `startOrWakeInstance` comes to before it waits for health.
pub data Brought : Type 0 where
  ready : Brought
  not_running : Brought
  not_found : Brought
  not_scaffolded : Brought
  waits : Wait → Brought

unfoldable pub brought : Text → Option StartError × Scheduler → Brought × Scheduler
brought name (some err, s) = (waits (failed err), s)
brought name (none, s) =
    (elim (get Text-discrete name s.agents) [ none ↦ ready | some p ↦ waits (healthy p.id) ], s)

unfoldable pub woken : Wait × Scheduler → Brought × Scheduler
woken r = (waits r.0, r.1)

module _ (h : Host) where
  unfoldable pub instance_workspace : Text → ℕ → Text
  unfolding decimal
  instance_workspace base idx = if idx == 0 then base else h.join base (text "inst-" ++ decimal idx)

  unfoldable pub derive_instance_config : AgentConfig → ℕ → AgentConfig
  unfolding instance_workspace instance_name
  derive_instance_config base idx = record base {
    name = instance_name base.name idx;
    workspace = instance_workspace base.workspace idx;
    port = 0;
    internal_token = [];
  }

  -- A new process for the instance; `scaffolded` is whether its workspace could be made.
  unfoldable pub spawn_instance : Env → Bool → Text → ℕ → Scheduler → Brought × Scheduler
  unfolding derive_instance_config brought start_agent_locked
  spawn_instance e scaffolded base idx s = elim (get Text-discrete base s.desired) [
    | none ↦ (not_found, s)
    | some c ↦
        if not scaffolded
        then (not_scaffolded, s)
        else brought (instance_name base idx)
            (start_agent_locked h e (derive_instance_config c idx) 0 s)
  ]

  unfoldable pub start_or_wake_instance : Env → Bool → Text → ℕ → Scheduler → Brought × Scheduler
  unfolding spawn_instance ensure_awake_once instance_name woken
  start_or_wake_instance e scaffolded base idx s =
      if not s.running
      then (not_running, s)
      else if is_some (get Text-discrete (instance_name base idx) s.agents)
      then (ready, s)
      else if is_some (get Text-discrete (instance_name base idx) s.idle_stopped)
      then woken (ensure_awake_once h e (instance_name base idx) s)
      else spawn_instance e scaffolded base idx s
