-- ===== src/Scheduler/Supervisor/Scan.antt =====
-- What the choice of a dynamic port gives.
use ahsir.Scheduler.Supervisor.Probes.{Taken, Usable}
use ahsir.Scheduler.Supervisor.Ports.{
  PortChoice, no_ports, StartError, refused, in_use, evict_stale_local_agent, port_reserved, chosen,
  Env, Host,
}
use ahsir.Scheduler.Supervisor.State.{Scheduler, AgentConfig}
use ahsir.Prelude.{ℕ, ◌≤◌, ◌≡◌, false, some, ◌≢◌}

-- What a dynamic choice may come to.
pub data Resolved (h : Host) (e : Env) (cfg : AgentConfig) (s : Scheduler)
    : PortChoice → Type 0 where
  found : (p : ℕ) → Usable h e cfg s p → Resolved h e cfg s (chosen p)
  none_left :
      ((p : ℕ) → s.port_range.start ≤ p → p ≤ s.port_range.end → Taken h e cfg s p)
      → Resolved h e cfg s (refused no_ports)
  probe_fails :
      (p : ℕ) (err : StartError)
      → s.port_range.start ≤ p
      → p ≤ s.port_range.end
      → port_reserved p s ≡ false
      → evict_stale_local_agent h e (record cfg { port = p }) ≡ some err
      → ((q : ℕ) → err ≢ in_use q)
      → Resolved h e cfg s (refused err)
