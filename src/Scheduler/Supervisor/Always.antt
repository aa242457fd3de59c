-- ===== src/Scheduler/Supervisor/Always.antt =====
-- Exits, timers, wakes and registrations keep what the elementary changes keep; so do histories.
use mathlib.Core.Path.{subst}
use ahsir.Scheduler.Supervisor.Instances.{
  Brought, woken, derive_instance_config, spawn_instance, start_or_wake_instance, brought,
}
use ahsir.Scheduler.Instance.Names.{instance_name}
use ahsir.Prelude.{
  Bool, All, if_keeps, ℕ, ◌≡◌, refl, sym, inl, inr, not, ◌&&◌, ◌||◌, Option, none, some, List, [],
  ◌∷◌, ◌++◌, arith, is_some, Option-cases,
}
use ahsir.Scheduler.Supervisor.Run.{
  brings, Event, run, step, boots, starts_agent, ensures, restarts, stops_agent, exits, unhealthy,
  fires, wakes, rolls_back, rolled_back, stops,
}
use ahsir.Scheduler.Supervisor.Wake.{
  card_matches, compatible_registration, ensure_registered, workspace_taken, Ensured, Card, Wait,
  ensure_new, ensure_desired, ensure_agent, ensure_started, rollback_ends, wake_ends,
  ensure_awake_once, rollback_begins,
}
use ahsir.Scheduler.Supervisor.Keeps.{Keeps}
use ahsir.Scheduler.Supervisor.Kept.{
  stop-Inv, stop_agent-Inv, show-Inv, locked-Inv, start_agent-Inv, marked-Inv, start-Inv, Permits,
  put_down-Inv,
}
use ahsir.Scheduler.Supervisor.Monitor.{
  Exit, take_timer, scale_to_zero, restart_fails, schedule_restart, restart_due, fail_health,
  restarted, monitor_agent, restart_unhealthy_agent, current, crashed, monitor_ends, idle_exit,
  other_exit,
}
use ahsir.Scheduler.Supervisor.Launch.{is_configuration_error, restart_ends}
use ahsir.Scheduler.Supervisor.State.{AgentConfig, set_lifecycle, Process, Scheduler}
use ahsir.Scheduler.Supervisor.Ports.{StartError, Env, Host}
use ahsir.Prelude.Text.{Text, text, is_empty, Text-discrete}
use ahsir.Prelude.Table.{get}

module _ (h : Host) (Inv : Scheduler → Type 0) (Allowed : Text → Type 0)
    (k : Keeps Inv Allowed) where
  crashed-Inv :
      (e : Env) (name : Text) (p : Process) (detail : Text) (s : Scheduler)
      → Inv s
      → Inv (crashed h e name p detail s)
  unfolding crashed schedule_restart set_lifecycle
  crashed-Inv e name p detail s i = elim (Option-cases p.health_failed) [
    | inl n ↦
        rw n (
          k.same (record { agents = refl; desired = refl; idle_stopped = refl; launched = refl }) i)
    | inr (r, q) ↦
        rw q (
          k.same (record { agents = refl; desired = refl; idle_stopped = refl; launched = refl }) i)
  ]

  monitor_ends-Inv :
      (e : Env) (name : Text) (p : Process) (x : Exit) (s : Scheduler)
      → Inv s
      → Inv (monitor_ends h e name p x s)
  unfolding monitor_ends scale_to_zero
  monitor_ends-Inv e name p idle_exit s i = elim (Option-cases (get Text-discrete name s.desired)) [
    | inl n ↦
        rw (n, monitor_ends)
          (if_keeps Inv (p.stopping || not s.alive || not s.supervisor.enabled) i i)
    | inr (c, q) ↦
        rw (q, monitor_ends)
          (if_keeps Inv (p.stopping || not s.alive || not s.supervisor.enabled) i
            (show-Inv h Inv Allowed k _ _ _ _ _ _ _ _ (k.sleeps name c s q i)))
  ]
  monitor_ends-Inv e name p (other_exit detail) s i =
      elim (Option-cases (get Text-discrete name s.desired)) [
        | inl n ↦
            rw (n, monitor_ends)
              (if_keeps Inv (p.stopping || not s.alive || not s.supervisor.enabled) i i)
        | inr (c, q) ↦
            rw (q, monitor_ends)
              (if_keeps Inv (p.stopping || not s.alive || not s.supervisor.enabled) i
                (crashed-Inv e name p detail s i))
      ]

  monitor_agent-Inv :
      (e : Env) (name : Text) (id : ℕ) (x : Exit) (s : Scheduler)
      → Inv s
      → Inv (monitor_agent h e name id x s)
  unfolding monitor_agent
  monitor_agent-Inv e name id x s i = elim (Option-cases (current name id s)) [
    | inl n ↦ rw (n, monitor_agent) i
    | inr (p, q) ↦ rw (q, monitor_agent) (monitor_ends-Inv e name p x _ (k.drops name s i))
  ]

  current-get :
      (name : Text) (id : ℕ) (s : Scheduler) (p : Process)
      → current name id s ≡ some p
      → get Text-discrete name s.agents ≡ some p
  unfolding current
  current-get name id s p q = elim (Option-cases (get Text-discrete name s.agents)) [
    | inl n ↦ ground arith
    | inr (r, e) ↦ ground arith
  ]

  fail_health-Inv :
      (e : Env) (name : Text) (p : Process) (detail : Text) (s : Scheduler)
      → get Text-discrete name s.agents ≡ some p
      → Inv s
      → Inv (fail_health h e name p detail s)
  unfolding fail_health set_lifecycle
  fail_health-Inv e name p detail s q i =
      marked-Inv h Inv Allowed k name p
        (record p { health_failed = some (text "health check failed: " ++ detail) }) s _ q
        (record { cfg = refl; id = refl; stopping = λ x. x })
        (record { agents = refl; desired = refl; idle_stopped = refl; launched = refl }) i

  unhealthy-Inv :
      (e : Env) (name : Text) (id : ℕ) (detail : Text) (s : Scheduler)
      → Inv s
      → Inv (restart_unhealthy_agent h e name id detail s)
  unfolding restart_unhealthy_agent
  unhealthy-Inv e name id detail s i = elim (Option-cases (current name id s)) [
    | inl n ↦ rw (n, restart_unhealthy_agent) i
    | inr (p, q) ↦
        rw (q, restart_unhealthy_agent)
          (if_keeps Inv (p.stopping || not s.alive || not s.supervisor.enabled) i
            (fail_health-Inv e name p detail s (current-get name id s p q) i))
  ]

  restarted-Inv :
      (e : Env) (name : Text) (attempt : ℕ) (r : Option StartError × Scheduler)
      → Inv r.1
      → Inv (restarted h e name attempt r)
  unfolding restarted restart_fails schedule_restart set_lifecycle
  restarted-Inv e name attempt (none, s) i = i
  restarted-Inv e name attempt (some err, s) i =
      if_keeps Inv (is_configuration_error err) i
        (k.same (record { agents = refl; desired = refl; idle_stopped = refl; launched = refl }) i)

  renamed : (a b : Text) → a ≡ b → Allowed b → Allowed a
  renamed a b e x = subst Allowed (sym e) x

  restart_due-Inv :
      (e : Env) (name : Text) (attempt : ℕ) (s : Scheduler)
      → Inv s
      → Inv (restart_due h e name attempt s)
  unfolding restart_due
  restart_due-Inv e name attempt s i =
      let s1 : Scheduler = record s { timers = take_timer name attempt s.timers } in
      let j : Inv s1 =
        k.same (record { agents = refl; desired = refl; idle_stopped = refl; launched = refl }) i in
      elim (Option-cases (get Text-discrete name s.desired)) [
        | inl n ↦ rw (n, restart_due) (if_keeps Inv (not s.alive) j j)
        | inr (c, q) ↦
            let a = k.desired s name c q i in
            rw (q, restart_due)
              (if_keeps Inv (not s.alive) j (
                if_keeps Inv
                  (is_some (get Text-discrete name s.agents)
                    || is_some (get Text-discrete name s.idle_stopped))
                  j
                  (restarted-Inv e name attempt _
                    (locked-Inv h Inv Allowed k e c attempt s1 (renamed c.name name a.1 a.0) j))))
      ]

  wake_ends-Inv :
      (name : Text) (r : Option StartError × Scheduler) → Inv r.1 → Inv (wake_ends name r).1
  unfolding wake_ends
  wake_ends-Inv name (none, s) i = k.wakes name s i
  wake_ends-Inv name (some err, s) i = i

  ensure_awake_once-Inv :
      (e : Env) (name : Text) (s : Scheduler) → Inv s → Inv (ensure_awake_once h e name s).1
  unfolding ensure_awake_once
  ensure_awake_once-Inv e name s i =
      let P : Wait × Scheduler → Type 0 = λ (r : Wait × Scheduler). Inv r.1 in
      let up = not s.running || is_some (get Text-discrete name s.agents) in
      elim (Option-cases (get Text-discrete name s.idle_stopped)) [
        | inl n ↦ rw (n, ensure_awake_once) (if_keeps P up i i)
        | inr (c, q) ↦
            let a = k.idle s name c q i in
            rw (q, ensure_awake_once)
              (if_keeps P up i (
                wake_ends-Inv name _ (
                  locked-Inv h Inv Allowed k e (record c { port = 0 }) 0 s
                    (renamed c.name name a.1 a.0) i)))
      ]

  rollback_begins-Inv :
      (name : Text) (id : ℕ) (s : Scheduler) → Inv s → Inv (rollback_begins name id s)
  unfolding rollback_begins
  rollback_begins-Inv name id s i = elim (Option-cases (current name id s)) [
    | inl n ↦ rw (n, rollback_begins) i
    | inr (p, q) ↦
        rw (q, rollback_begins)
          (put_down-Inv h Inv Allowed k name p s (current-get name id s p q) i)
  ]

  rollback_ends-Inv : (name : Text) (s : Scheduler) → Inv s → Inv (rollback_ends name s)
  unfolding rollback_ends
  rollback_ends-Inv name s i =
      let up = is_some (get Text-discrete name s.agents) in
      let gone : (t : Scheduler)
          → Inv t
          → Inv (record t { unregistered = t.unregistered ++ (name ∷ []) }) =
        λ t j.
          k.same (record { agents = refl; desired = refl; idle_stopped = refl; launched = refl })
            j in
      elim (Option-cases (get Text-discrete name s.desired)) [
        | inl n ↦ rw (n, rollback_ends) (if_keeps Inv up i (gone s i))
        | inr (c, q) ↦
            let j = if_keeps Inv (s.running && not up) (k.sleeps name c s q i) i in
            rw (q, rollback_ends) (if_keeps Inv up j (gone _ j))
      ]

  ensure_started-Inv :
      (name : Text) (r : Option StartError × Scheduler) → Inv r.1 → Inv (ensure_started name r).1
  unfolding ensure_started
  ensure_started-Inv name (none, s) i = i
  ensure_started-Inv name (some err, s) i = i

  ensure_desired-Inv :
      (e : Env) (name : Text) (c : AgentConfig) (s : Scheduler)
      → Allowed c.name
      → Inv s
      → Inv (ensure_desired h e name c s).1
  unfolding ensure_desired
  ensure_desired-Inv e name c s a i = elim (Option-cases (get Text-discrete name s.agents)) [
    | inr (p, q) ↦ rw (q, ensure_desired) i
    | inl n ↦
        rw (n, ensure_desired)
          (if_keeps (λ (r : Ensured × Scheduler). Inv r.1)
            (is_some (get Text-discrete name s.idle_stopped)) i
            (ensure_started-Inv name _ (locked-Inv h Inv Allowed k e c 0 s a i)))
  ]

  ensure_registered-Inv :
      (e : Env) (cfg : AgentConfig) (card : Card) (s : Scheduler)
      → Allowed cfg.name
      → Inv s
      → Inv (ensure_registered h e cfg card s).1
  unfolding ensure_registered ensure_new
  ensure_registered-Inv e cfg card s a i =
      let P : Ensured × Scheduler → Type 0 = λ (r : Ensured × Scheduler). Inv r.1 in
      elim (Option-cases (get Text-discrete cfg.name s.desired)) [
        | inl n ↦
            rw (n, ensure_registered)
              (if_keeps P (card.given && not card.written) i
                (ensure_started-Inv cfg.name _ (locked-Inv h Inv Allowed k e cfg 0 s a i)))
        | inr (c, q) ↦
            let b = k.desired s cfg.name c q i in
            rw (q, ensure_registered)
              (if_keeps P (not card.given) i (
                if_keeps P (not (compatible_registration h c cfg && card_matches card)) i
                  (ensure_desired-Inv e cfg.name c s (renamed c.name cfg.name b.1 b.0) i)))
      ]

  ensure_agent-Inv :
      (e : Env) (cfg : AgentConfig) (card : Card) (s : Scheduler)
      → Allowed cfg.name
      → Inv s
      → Inv (ensure_agent h e cfg card s).1
  unfolding ensure_agent
  ensure_agent-Inv e cfg card s a i =
      let P : Ensured × Scheduler → Type 0 = λ (r : Ensured × Scheduler). Inv r.1 in
      if_keeps P (not s.running) i (
        if_keeps P (is_empty cfg.name) i (
          if_keeps P (is_empty cfg.workspace) i
            (if_keeps P (workspace_taken h cfg s) i (ensure_registered-Inv e cfg card s a i))))

  brought-Inv : (name : Text) (r : Option StartError × Scheduler) → Inv r.1 → Inv (brought name r).1
  unfolding brought
  brought-Inv name (none, s) i = i
  brought-Inv name (some err, s) i = i

  instance-Inv :
      (e : Env) (scaffolded : Bool) (base : Text) (idx : ℕ) (s : Scheduler)
      → Allowed (instance_name base idx)
      → Inv s
      → Inv (start_or_wake_instance h e scaffolded base idx s).1
  unfolding start_or_wake_instance spawn_instance derive_instance_config woken
  instance-Inv e scaffolded base idx s a i =
      let P : Brought × Scheduler → Type 0 = λ (r : Brought × Scheduler). Inv r.1 in
      let name = instance_name base idx in
      if_keeps P (not s.running) i (
        if_keeps P (is_some (get Text-discrete name s.agents)) i (
          if_keeps P (is_some (get Text-discrete name s.idle_stopped))
            (ensure_awake_once-Inv e name s i)
            (elim (Option-cases (get Text-discrete base s.desired)) [
              | inl n ↦ rw (n, spawn_instance) i
              | inr (c, q) ↦
                  let b = k.desired s base c q i in
                  let ok : Allowed (instance_name c.name idx) =
                    subst (λ (x : Text). Allowed (instance_name x idx)) (sym b.1) a in
                  rw (q, spawn_instance)
                    (if_keeps P (not scaffolded) i (
                      brought-Inv name _
                        (locked-Inv h Inv Allowed k e (derive_instance_config h c idx) 0 s ok i)))
            ])))

  pub step-Inv : (v : Event) (s : Scheduler) → Permits Allowed v → Inv s → Inv (step h v s)
  unfolding step restart_ends
  step-Inv (boots token e) s a i = start-Inv h Inv Allowed k token e s a i
  step-Inv (starts_agent e cfg) s a i = start_agent-Inv h Inv Allowed k e cfg s a i
  step-Inv (ensures e cfg card) s a i = ensure_agent-Inv e cfg card s a i
  step-Inv (stops_agent e name) s a i = stop_agent-Inv h Inv Allowed k e name s i
  step-Inv (restarts e cfg) s a i =
      start_agent-Inv h Inv Allowed k e (record cfg { port = 0 }) s a i
  step-Inv (exits e name id x) s a i = monitor_agent-Inv e name id x s i
  step-Inv (unhealthy e name id detail) s a i = unhealthy-Inv e name id detail s i
  step-Inv (fires e name attempt) s a i = restart_due-Inv e name attempt s i
  step-Inv (wakes e name) s a i = ensure_awake_once-Inv e name s i
  step-Inv (rolls_back name id) s a i = rollback_begins-Inv name id s i
  step-Inv (rolled_back name) s a i = rollback_ends-Inv name s i
  step-Inv (brings e scaffolded base idx) s a i = instance-Inv e scaffolded base idx s a i
  step-Inv stops s a i = stop-Inv h Inv Allowed k s i

  pub run-Inv :
      (vs : List Event) (s : Scheduler) → All (Permits Allowed) vs → Inv s → Inv (run h vs s)
  unfolding run
  run-Inv [] s a i = i
  run-Inv (v ∷ vs) s a i = run-Inv vs (step h v s) a.1 (step-Inv v s a.0 i)
