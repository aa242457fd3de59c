-- ===== src/Scheduler/Supervisor/Down.antt =====
-- An agent that an operator stopped stays down.
use ahsir.Scheduler.Supervisor.Stopped.{
  put_down-IsDown, forgot-IsDown, shown-IsDown, IsDown-Keeps, IsDown, launches,
}
use ahsir.Scheduler.Supervisor.Launch.{stop_agent}
use ahsir.Prelude.Table.{get, delete, get-delete}
use ahsir.Prelude.{
  if_keeps, All, ℕ, ◌≡◌, ◌≢◌, inl, inr, true, ◌||◌, none, some, List, arith, is_some, Option-cases,
}
use ahsir.Scheduler.Supervisor.Apart.{run-IsSound, IsSound}
use ahsir.Scheduler.Supervisor.Always.{run-Inv}
use ahsir.Scheduler.Supervisor.State.{
  new_scheduler, PortRange, SupervisorConfig, AgentConfig, Scheduler, Process,
}
use ahsir.Scheduler.Supervisor.Kept.{Permits}
use ahsir.Scheduler.Supervisor.Ports.{Env, Host}
use ahsir.Scheduler.Supervisor.Run.{Event, run}
use ahsir.Prelude.Text.{Text, Text-discrete}

stop_agent-IsDown :
    (h : Host) (e : Env) (n : Text) (s : Scheduler)
    → IsSound s
    → IsDown n (launches n s) (stop_agent h e n s)
unfolding stop_agent
stop_agent-IsDown h e n s i =
    let a : get Text-discrete n (delete Text-discrete n s.desired) ≡ none =
      ground (arith, get-delete Text-discrete n n s.desired) in
    let b : get Text-discrete n (delete Text-discrete n s.idle_stopped) ≡ none =
      ground (arith, get-delete Text-discrete n n s.idle_stopped) in
    let up =
      is_some (get Text-discrete n s.desired) || is_some (get Text-discrete n s.lifecycles) in
    elim (Option-cases (get Text-discrete n s.agents)) [
      | inl gone ↦
          let ends : (p : Process) → get Text-discrete n s.agents ≡ some p → p.stopping ≡ true =
            λ p f. cc in
          rw (gone, stop_agent)
            (if_keeps (IsDown n (launches n s)) up (shown-IsDown h e n s i a b ends)
              (forgot-IsDown h e n s i a b ends))
      | inr (p, here) ↦ rw (here, stop_agent) (put_down-IsDown h e n s i a b p)
    ]

-- A stopped agent stays down through every later history that does not start it again: nothing
-- wants it, it is not to be woken, its process, while there is one, has been told to stop, and none
-- is launched.
pub stays_down :
    (h : Host) (v : SupervisorConfig) (r : PortRange) (cs : List AgentConfig) (now : ℕ)
    (before after : List Event) (e : Env) (n : Text)
    → All (Permits (λ m. m ≢ n)) after
    → let s = run h before (new_scheduler h.fields v r cs now) in
      let t = run h after (stop_agent h e n s) in
      (get Text-discrete n t.desired ≡ none)
      × (get Text-discrete n t.idle_stopped ≡ none)
      × ((p : Process) → get Text-discrete n t.agents ≡ some p → p.stopping ≡ true)
      × (launches n t ≡ launches n s)
stays_down h v r cs now before after e n a =
    let s = run h before (new_scheduler h.fields v r cs now) in
    let d =
      run-Inv h (IsDown n (launches n s)) (λ m. m ≢ n) (IsDown-Keeps n (launches n s)) after _ a
        (stop_agent-IsDown h e n s (run-IsSound h v r cs now before)) in
    (d.undesired, d.asleep, d.ends, d.history)
