-- ===== src/Scheduler/Supervisor/Keeps.antt =====
-- What a property of the scheduler must stand to be kept by every event.
use ahsir.Scheduler.Supervisor.Launch.{publish}
use ahsir.Prelude.{ℕ, ◌≡◌, true, some, []}
use ahsir.Scheduler.Supervisor.Free.{Free}
use ahsir.Scheduler.Supervisor.State.{AgentConfig, Process, Scheduler}
use ahsir.Prelude.Text.{Text, Text-discrete}
use ahsir.Prelude.Table.{get, put, delete}

-- The tables of agents and the processes launched are the same.
pub record Same (s t : Scheduler) : Type 0 where
  pub agents : t.agents ≡ s.agents
  pub desired : t.desired ≡ s.desired
  pub idle_stopped : t.idle_stopped ≡ s.idle_stopped
  pub launched : t.launched ≡ s.launched

-- A process that is marked keeps its configuration, and stays marked.
pub record Marks (p q : Process) : Type 0 where
  pub cfg : q.cfg ≡ p.cfg
  pub id : q.id ≡ p.id
  pub stopping : p.stopping ≡ true → q.stopping ≡ true

-- What an invariant must stand, where agents of the allowed names may be started.
pub record Keeps (Inv : Scheduler → Type 0) (Allowed : Text → Type 0) : Type 0 where
  pub same : {s t : Scheduler} → Same s t → Inv s → Inv t
  pub desired :
      (s : Scheduler) (m : Text) (c : AgentConfig)
      → get Text-discrete m s.desired ≡ some c
      → Inv s
      → Allowed m × (c.name ≡ m)
  pub idle :
      (s : Scheduler) (m : Text) (c : AgentConfig)
      → get Text-discrete m s.idle_stopped ≡ some c
      → Inv s
      → Allowed m × (c.name ≡ m)
  pub publishes :
      (cfg : AgentConfig) (attempts : ℕ) (token : Text) (s : Scheduler)
      → Allowed cfg.name
      → Free cfg.port cfg.name s
      → Inv s
      → Inv (publish cfg attempts token s)
  pub wants :
      (cfg : AgentConfig) (s : Scheduler)
      → Allowed cfg.name
      → Inv s
      → Inv (record s { desired = put Text-discrete cfg.name cfg s.desired })
  pub marks :
      (m : Text) (p q : Process) (s : Scheduler)
      → get Text-discrete m s.agents ≡ some p
      → Marks p q
      → Inv s
      → Inv (record s { agents = put Text-discrete m q s.agents })
  pub drops :
      (m : Text) (s : Scheduler)
      → Inv s
      → Inv (record s { agents = delete Text-discrete m s.agents })
  pub sleeps :
      (m : Text) (c : AgentConfig) (s : Scheduler)
      → get Text-discrete m s.desired ≡ some c
      → Inv s
      → Inv (record s { idle_stopped = put Text-discrete m c s.idle_stopped })
  pub wakes :
      (m : Text) (s : Scheduler)
      → Inv s
      → Inv (record s { idle_stopped = delete Text-discrete m s.idle_stopped })
  pub forgets :
      (m : Text) (s : Scheduler)
      → Inv s
      → Inv (record s { desired = delete Text-discrete m s.desired })
  pub drops_all : (s : Scheduler) → Inv s → Inv (record s { agents = [] })
  pub clears : (s : Scheduler) → Inv s → Inv (record s { desired = []; idle_stopped = [] })
