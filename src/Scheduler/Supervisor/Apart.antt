-- ===== src/Scheduler/Supervisor/Apart.antt =====
-- No two processes of the scheduler's table of agents share a port.
use mathlib.Core.Path.{subst}
use ahsir.Scheduler.Supervisor.Run.{
  brings, Event, run, boots, starts_agent, ensures, restarts, stops_agent, exits, unhealthy, fires,
  wakes, rolls_back, rolled_back, stops,
}
use ahsir.Scheduler.Supervisor.Always.{run-Inv}
use ahsir.Scheduler.Supervisor.Keeps.{Same, Keeps}
use ahsir.Scheduler.Supervisor.Kept.{Permits}
use ahsir.Scheduler.Supervisor.State.{
  PortRange, set_lifecycle, SupervisorConfig, new_scheduler, list_configured, Scheduler, Process,
  AgentConfig,
}
use ahsir.Prelude.{All, ℕ, ◌≡◌, refl, sym, ap, ◌∙◌, ◌≢◌, some, List, [], ◌∷◌, arith}
use ahsir.Scheduler.Supervisor.Ports.{Host}
use ahsir.Scheduler.Supervisor.Launch.{publish}
use ahsir.Prelude.Text.{Text, Text-discrete}
use ahsir.Prelude.Table.{Table, get, put, delete, get-put, get-delete}

-- Every configuration is stored under its name.
abbrev pub Named : Table Text AgentConfig → Type 0
Named d = (m : Text) (c : AgentConfig) → get Text-discrete m d ≡ some c → c.name ≡ m

pub put-Named :
    (m : Text) (c : AgentConfig) (d : Table Text AgentConfig)
    → c.name ≡ m
    → Named d
    → Named (put Text-discrete m c d)
put-Named m c d e n x v q = elim (Text-discrete m x) [
  | yes s ↦ ground (arith, get-put Text-discrete m x c d)
  | no s ↦ n x v (ground (arith, get-put Text-discrete m x c d))
]

pub delete-Named :
    (m : Text) (d : Table Text AgentConfig) → Named d → Named (delete Text-discrete m d)
delete-Named m d n x v q = elim (Text-discrete m x) [
  | yes s ↦ ground (arith, get-delete Text-discrete m x d)
  | no s ↦ n x v (ground (arith, get-delete Text-discrete m x d))
]

pub nil-Named : Named []
unfolding get
nil-Named m c q = cc

-- Processes with one port are one.
abbrev pub Apart : Table Text Process → Type 0
Apart a =
    (m n : Text) (p q : Process)
    → get Text-discrete m a ≡ some p
    → get Text-discrete n a ≡ some q
    → p.cfg.port ≡ q.cfg.port
    → m ≡ n

put-Apart :
    (m : Text) (p : Process) (a : Table Text Process)
    → ((n : Text) (q : Process) → n ≢ m → get Text-discrete n a ≡ some q → q.cfg.port ≢ p.cfg.port)
    → Apart a
    → Apart (put Text-discrete m p a)
put-Apart m p a free apart x y u v e f same = elim (Text-discrete m x) [
  | yes s ↦ elim (Text-discrete m y) [
    | yes t ↦ sym s ∙ t
    | no t ↦ absurd (
        free y v (λ (z : y ≡ m). t (sym z)) (ground (arith, get-put Text-discrete m y p a))
          (ground (arith, get-put Text-discrete m x p a)))
  ]
  | no s ↦ elim (Text-discrete m y) [
    | yes t ↦ absurd (
        free x u (λ (z : x ≡ m). s (sym z)) (ground (arith, get-put Text-discrete m x p a))
          (ground (arith, get-put Text-discrete m y p a)))
    | no t ↦
        apart x y u v (ground (arith, get-put Text-discrete m x p a))
          (ground (arith, get-put Text-discrete m y p a)) same
  ]
]

delete-Apart : (m : Text) (a : Table Text Process) → Apart a → Apart (delete Text-discrete m a)
delete-Apart m a apart x y u v e f same =
    apart x y u v (ground (arith, get-delete Text-discrete m x a))
      (ground (arith, get-delete Text-discrete m y a)) same

pub record IsSound (s : Scheduler) : Type 0 where
  pub apart : Apart s.agents
  pub named : Named s.desired
  pub idle_named : Named s.idle_stopped

IsSound-Keeps : Keeps IsSound (λ _. Unit {0})
unfolding publish get
IsSound-Keeps = record {
  same = λ {s} {t} e i. record {
    apart = subst Apart (sym e.agents) i.apart;
    named = subst Named (sym e.desired) i.named;
    idle_named = subst Named (sym e.idle_stopped) i.idle_named;
  };
  desired = λ s m c e i. (tt, i.named m c e);
  idle = λ s m c e i. (tt, i.idle_named m c e);
  publishes = λ cfg attempts token s a free i. record {
    apart = put-Apart cfg.name _ s.agents free i.apart;
    named = put-Named cfg.name _ s.desired refl i.named;
    idle_named = i.idle_named;
  };
  wants = λ cfg s a i. record {
    apart = i.apart;
    named = put-Named cfg.name cfg s.desired refl i.named;
    idle_named = i.idle_named;
  };
  marks = λ m p q s e k i. record {
    apart =
        put-Apart m q s.agents
          (λ n r d f same. d (i.apart n m r p f e (same ∙ ap (λ (c : AgentConfig). c.port) k.cfg)))
          i.apart;
    named = i.named;
    idle_named = i.idle_named;
  };
  drops = λ m s i. record {
    apart = delete-Apart m s.agents i.apart;
    named = i.named;
    idle_named = i.idle_named;
  };
  sleeps = λ m c s e i. record {
    apart = i.apart;
    named = i.named;
    idle_named = put-Named m c s.idle_stopped (i.named m c e) i.idle_named;
  };
  wakes = λ m s i. record {
    apart = i.apart;
    named = i.named;
    idle_named = delete-Named m s.idle_stopped i.idle_named;
  };
  forgets = λ m s i. record {
    apart = i.apart;
    named = delete-Named m s.desired i.named;
    idle_named = i.idle_named;
  };
  drops_all =
      λ s i. record { apart = λ m n p q e f same. cc; named = i.named; idle_named = i.idle_named };
  clears = λ s i. record { apart = i.apart; named = nil-Named; idle_named = nil-Named };
}

listed-Same :
    (h : Host) (now : ℕ) (cs : List AgentConfig) (s : Scheduler)
    → Same s (list_configured h.fields now cs s)
unfolding list_configured set_lifecycle
listed-Same h now [] s = record {
  agents = refl;
  desired = refl;
  idle_stopped = refl;
  launched = refl;
}
listed-Same h now (c ∷ cs) s =
    let r = listed-Same h now cs _ in
    record {
      agents = r.agents;
      desired = r.desired;
      idle_stopped = r.idle_stopped;
      launched = r.launched;
    }

permitted : (vs : List Event) → All (Permits (λ _. Unit {0})) vs
permitted [] = tt
permitted (boots token e ∷ vs) = (λ m. tt, permitted vs)
permitted (starts_agent e cfg ∷ vs) = (tt, permitted vs)
permitted (ensures e cfg card ∷ vs) = (tt, permitted vs)
permitted (restarts e cfg ∷ vs) = (tt, permitted vs)
permitted (stops_agent e name ∷ vs) = (tt, permitted vs)
permitted (exits e name id x ∷ vs) = (tt, permitted vs)
permitted (unhealthy e name id detail ∷ vs) = (tt, permitted vs)
permitted (fires e name attempt ∷ vs) = (tt, permitted vs)
permitted (wakes e name ∷ vs) = (tt, permitted vs)
permitted (rolls_back name id ∷ vs) = (tt, permitted vs)
permitted (rolled_back name ∷ vs) = (tt, permitted vs)
permitted (brings e scaffolded base idx ∷ vs) = (tt, permitted vs)
permitted (stops ∷ vs) = (tt, permitted vs)

pub run-IsSound :
    (h : Host) (v : SupervisorConfig) (r : PortRange) (cs : List AgentConfig) (now : ℕ)
    (vs : List Event)
    → IsSound (run h vs (new_scheduler h.fields v r cs now))
unfolding new_scheduler get
run-IsSound h v r cs now vs =
    run-Inv h IsSound (λ _. Unit {0}) IsSound-Keeps vs _ (permitted vs)
      (IsSound-Keeps.same (listed-Same h now cs _)
        (record { apart = λ m n p q e f same. cc; named = nil-Named; idle_named = nil-Named }))

-- Whatever has happened, the processes that the scheduler's table of agents holds under different
-- names have different ports. A process that another has replaced in the table is not meant, though
-- it may still run.
pub run-Apart :
    (h : Host) (v : SupervisorConfig) (r : PortRange) (cs : List AgentConfig) (now : ℕ)
    (vs : List Event) (m n : Text) (p q : Process)
    → let s = run h vs (new_scheduler h.fields v r cs now) in
      get Text-discrete m s.agents ≡ some p
      → get Text-discrete n s.agents ≡ some q
      → p.cfg.port ≡ q.cfg.port
      → m ≡ n
run-Apart h v r cs now vs m n p q = (run-IsSound h v r cs now vs).apart m n p q
