-- ===== src/Scheduler/Supervisor/Kept.antt =====
-- Starts and stops keep what the elementary changes keep.
use mathlib.Core.Path.{subst}
use ahsir.Scheduler.Supervisor.Keeps.{Same, Marks, Keeps}
use ahsir.Prelude.{
  if_keeps, ℕ, suc, ◌≡◌, refl, sym, ap, inl, inr, true, not, ◌||◌, Option, none, some, List, [],
  ◌∷◌, is_some, Option-cases,
}
use ahsir.Scheduler.Instance.Names.{instance_name}
use ahsir.Scheduler.Supervisor.Run.{brings, Event, boots, starts_agent, ensures, restarts}
use ahsir.Scheduler.Supervisor.Launch.{
  Refusal, is_configuration_error, kill_all, abort_start, start, undesire, booted, start_agents,
  boot_ends, show_stopped, stop, put_down, stop_agent, Answer, forget, start_agent_locked, reject,
  start_agent, start_ends,
}
use ahsir.Scheduler.Supervisor.Started.{
  start_agent_locked-Started, Started, rejected, failed, started,
}
use ahsir.Scheduler.Supervisor.Ports.{StartError, Env, Host}
use ahsir.Scheduler.Supervisor.State.{
  LifecycleState, AgentConfig, set_lifecycle, Process, Scheduler,
}
use ahsir.Prelude.Text.{Text, is_empty, Text-discrete}
use ahsir.Prelude.Table.{Table, get, put}

-- The starts that an event makes are of allowed names.
abbrev pub Permits : (Text → Type 0) → Event → Type 0
Permits Allowed (boots token e) = (m : Text) → Allowed m
Permits Allowed (starts_agent e cfg) = Allowed cfg.name
Permits Allowed (ensures e cfg card) = Allowed cfg.name
Permits Allowed (restarts e cfg) = Allowed cfg.name
Permits Allowed (brings e scaffolded base idx) = Allowed (instance_name base idx)
Permits Allowed _ = Unit

module _ (h : Host) (Inv : Scheduler → Type 0) (Allowed : Text → Type 0)
    (k : Keeps Inv Allowed) where
  pub show-Inv :
      (now : ℕ) (name : Text) (st : LifecycleState) (code reason : Text) (attempt : ℕ)
      (at : Option ℕ) (s : Scheduler)
      → Inv s
      → Inv (set_lifecycle h.fields now name st code reason attempt at s)
  unfolding set_lifecycle
  show-Inv now name st code reason attempt at s i =
      k.same (record { agents = refl; desired = refl; idle_stopped = refl; launched = refl }) i

  pub Started-Inv :
      (e : Env) (cfg : AgentConfig) (attempts : ℕ) (s : Scheduler)
      {r : Option StartError × Scheduler}
      → Allowed cfg.name
      → Inv s
      → Started h e cfg attempts s r
      → Inv r.1
  unfolding reject
  Started-Inv e cfg attempts s a i (rejected f) = show-Inv _ _ _ _ _ _ _ _ (k.wants cfg s a i)
  Started-Inv e cfg attempts s a i (failed err next) =
      k.same (record { agents = refl; desired = refl; idle_stopped = refl; launched = refl }) i
  Started-Inv e cfg attempts s a i (started port next token free) =
      k.publishes (record cfg { port = port }) attempts token (record s { next_port = next }) a free
        (k.same (record { agents = refl; desired = refl; idle_stopped = refl; launched = refl }) i)

  pub locked-Inv :
      (e : Env) (cfg : AgentConfig) (attempts : ℕ) (s : Scheduler)
      → Allowed cfg.name
      → Inv s
      → Inv (start_agent_locked h e cfg attempts s).1
  locked-Inv e cfg attempts s a i =
      Started-Inv e cfg attempts s a i (start_agent_locked-Started h e cfg attempts s)

  start_ends-snd : (name : Text) (r : Option StartError × Scheduler) → (start_ends name r).1 ≡ r.1
  unfolding start_ends
  start_ends-snd name (none, s) = refl
  start_ends-snd name (some err, s) = refl

  pub start_agent-Inv :
      (e : Env) (cfg : AgentConfig) (s : Scheduler)
      → Allowed cfg.name
      → Inv s
      → Inv (start_agent h e cfg s).1
  unfolding start_agent
  start_agent-Inv e cfg s a i =
      let P : Answer × Scheduler → Type 0 = λ (r : Answer × Scheduler). Inv r.1 in
      if_keeps P (not s.running) i (
        if_keeps P (is_empty cfg.name) i (
          if_keeps P (is_empty cfg.workspace) i (
            if_keeps P (is_some (get Text-discrete cfg.name s.agents)) i (
              subst Inv (sym (start_ends-snd cfg.name (start_agent_locked h e cfg 0 s)))
                (locked-Inv e cfg 0 s a i)))))

  pub marked-Inv :
      (name : Text) (p q : Process) (s t : Scheduler)
      → get Text-discrete name s.agents ≡ some p
      → Marks p q
      → Same (record s { agents = put Text-discrete name q s.agents }) t
      → Inv s
      → Inv t
  marked-Inv name p q s t e m same i = k.same same (k.marks name p q s e m i)

  pub put_down-Inv :
      (name : Text) (p : Process) (s : Scheduler)
      → get Text-discrete name s.agents ≡ some p
      → Inv s
      → Inv (put_down name p s)
  unfolding put_down
  put_down-Inv name p s e i =
      marked-Inv name p (record p { stopping = true }) s _ e
        (record { cfg = refl; id = refl; stopping = λ x. refl })
        (record { agents = refl; desired = refl; idle_stopped = refl; launched = refl }) i

  forget-Inv : (name : Text) (s : Scheduler) → Inv s → Inv (forget name s)
  unfolding forget
  forget-Inv name s i = k.wakes name _ (k.forgets name s i)

  shown-Inv :
      (e : Env) (name : Text) (s : Scheduler) → Inv s → Inv (show_stopped h e name (forget name s))
  unfolding show_stopped
  shown-Inv e name s i = show-Inv _ _ _ _ _ _ _ _ (forget-Inv name s i)

  pub stop_agent-Inv : (e : Env) (name : Text) (s : Scheduler) → Inv s → Inv (stop_agent h e name s)
  unfolding stop_agent show_stopped forget set_lifecycle
  stop_agent-Inv e name s i = elim (Option-cases (get Text-discrete name s.agents)) [
    | inl n ↦
        rw (n, stop_agent)
          (if_keeps Inv
            (is_some (get Text-discrete name s.desired)
              || is_some (get Text-discrete name s.lifecycles))
            (shown-Inv e name s i) (forget-Inv name s i))
    | inr (p, q) ↦
        rw (q, stop_agent)
          (k.same (record { agents = refl; desired = refl; idle_stopped = refl; launched = refl })
            (put_down-Inv name p (show_stopped h e name (forget name s)) q (shown-Inv e name s i)))
  ]

  kill_all-Inv : (m : Table Text Process) (s : Scheduler) → Inv s → Inv (kill_all m s)
  unfolding kill_all
  kill_all-Inv [] s i = i
  kill_all-Inv ((name, p) ∷ m) s i =
      kill_all-Inv m _
        (k.same (record { agents = refl; desired = refl; idle_stopped = refl; launched = refl }) i)

  pub stop-Inv : (s : Scheduler) → Inv s → Inv (stop s)
  unfolding stop
  stop-Inv s i =
      k.same (record { agents = refl; desired = refl; idle_stopped = refl; launched = refl })
        (k.clears _ (k.drops_all _ (kill_all-Inv s.agents s i)))

  undesire-Inv :
      (m : Table Text Process) (s : Scheduler)
      → Inv s
      → Inv (record s { desired = undesire m s.desired })
  unfolding undesire
  undesire-Inv [] s i = i
  undesire-Inv ((name, p) ∷ m) s i = undesire-Inv m _ (k.forgets name s i)

  kill_all-desired : (m : Table Text Process) (s : Scheduler) → (kill_all m s).desired ≡ s.desired
  unfolding kill_all
  kill_all-desired [] s = refl
  kill_all-desired ((name, p) ∷ m) s = kill_all-desired m _

  abort-Inv : (s : Scheduler) → Inv s → Inv (abort_start s)
  unfolding abort_start
  abort-Inv s i =
      k.same
        (record {
          agents = refl;
          desired = ap (undesire s.agents) (sym (kill_all-desired s.agents s));
          idle_stopped = refl;
          launched = refl;
        })
        (k.drops_all _ (undesire-Inv s.agents _ (kill_all-Inv s.agents s i)))

  booted-Inv :
      (r : Option StartError × Scheduler) (go : Scheduler → Option StartError × Scheduler)
      → Inv r.1
      → ((t : Scheduler) → Inv t → Inv (go t).1)
      → Inv (booted r go).1
  unfolding booted
  booted-Inv (none, s) go i f = f s i
  booted-Inv (some err, s) go i f =
      if_keeps (λ (r : Option StartError × Scheduler). Inv r.1) (is_configuration_error err) (f s i)
        (abort-Inv s i)

  start_agents-Inv :
      (e : ℕ → Env) (cs : List AgentConfig) (n : ℕ) (s : Scheduler)
      → ((m : Text) → Allowed m)
      → Inv s
      → Inv (start_agents h e cs n s).1
  unfolding start_agents
  start_agents-Inv e [] n s all i =
      k.same (record { agents = refl; desired = refl; idle_stopped = refl; launched = refl }) i
  start_agents-Inv e (c ∷ cs) n s all i =
      let go : (t : Scheduler) → Inv t → Inv (start_agents h e cs (suc n) t).1 =
        λ t j. start_agents-Inv e cs (suc n) t all j in
      if_keeps (λ (r : Option StartError × Scheduler). Inv r.1) (is_empty c.remote)
        (booted-Inv _ (λ (t : Scheduler). start_agents h e cs (suc n) t)
          (locked-Inv (e n) c 0 s (all c.name) i) go)
        (go s i)

  boot_ends-snd : (r : Option StartError × Scheduler) → (boot_ends r).1 ≡ r.1
  unfolding boot_ends
  boot_ends-snd (none, s) = refl
  boot_ends-snd (some err, s) = refl

  pub start-Inv :
      (token : Text) (e : ℕ → Env) (s : Scheduler)
      → ((m : Text) → Allowed m)
      → Inv s
      → Inv (start h token e s).1
  unfolding start
  start-Inv token e s all i =
      if_keeps (λ (r : Option Refusal × Scheduler). Inv r.1) s.running i
        (subst Inv (sym (boot_ends-snd _)) (
          start_agents-Inv e s.configured 0 _ all (
            k.same (record { agents = refl; desired = refl; idle_stopped = refl; launched = refl })
              i)))
