-- ===== src/Scheduler/Supervisor/Wake.antt =====
-- Waking and registering agents, by their critical sections (internal/scheduler/scheduler.go):
-- `ensureAwakeOnce`, `rollbackFailedWake`, `EnsureAgent`.
use ahsir.Scheduler.Supervisor.Launch.{start_agent_locked, put_down}
use ahsir.Scheduler.Supervisor.State.{instance_cap, AgentConfig, Scheduler}
use ahsir.Scheduler.Supervisor.Ports.{same_clean_path, Env, StartError, Host}
use ahsir.Scheduler.Supervisor.Monitor.{current}
use ahsir.Prelude.{
  ℕ, Bool, false, not, ◌&&◌, ◌||◌, Option, none, some, [], ◌∷◌, ◌++◌, ◌==◌, if◌then◌else◌, any,
  is_some,
}
use ahsir.Prelude.Text.{Text, is_empty, Text-discrete, text_eq}
use ahsir.Prelude.Table.{get, put, delete}

-- What a call waits for after its first critical section.
pub data Wait : Type 0 where
  over : Wait
  failed : StartError → Wait
  healthy : ℕ → Wait

unfoldable pub wake_ends : Text → Option StartError × Scheduler → Wait × Scheduler
wake_ends name (some err, s) = (failed err, s)
wake_ends name (none, s) =
    let s1 : Scheduler = record s { idle_stopped = delete Text-discrete name s.idle_stopped } in
    (elim (get Text-discrete name s.agents) [ none ↦ over | some p ↦ healthy p.id ], s1)

-- The first critical section of `rollbackFailedWake`.
unfoldable pub rollback_begins : Text → ℕ → Scheduler → Scheduler
unfolding current put_down
rollback_begins name id s = elim (current name id s) [ none ↦ s | some p ↦ put_down name p s ]

-- Its end, once the process is gone.
unfoldable pub rollback_ends : Text → Scheduler → Scheduler
rollback_ends name s =
    let up = is_some (get Text-discrete name s.agents) in
    let s1 : Scheduler = elim (get Text-discrete name s.desired) [
      | none ↦ s
      | some cfg ↦
          if s.running && not up
          then record s { idle_stopped = put Text-discrete name cfg s.idle_stopped }
          else s
    ] in
    if up then s1 else record s1 { unregistered = s1.unregistered ++ (name ∷ []) }

-- The card that a registration brings: whether there is one, whether the card on disk is the same
-- where it can be read, and whether it can be written.
pub record Card : Type 0 where
  pub given : Bool
  pub matches : Option Bool
  pub written : Bool

pub data Refused : Type 0 where
  not_running : Refused
  no_name : Refused
  no_workspace : Refused
  exists : Refused
  incompatible : Refused
  card_failed : Refused
  not_started : StartError → Refused

pub data Ensured : Type 0 where
  denied : Refused → Ensured
  await_running : ℕ → Ensured
  await_wake : Ensured
  await_started : ℕ → Ensured

unfoldable pub ensure_started : Text → Option StartError × Scheduler → Ensured × Scheduler
ensure_started name (some err, s) = (denied (not_started err), s)
ensure_started name (none, s) =
    (elim (get Text-discrete name s.agents) [ none ↦ await_wake | some p ↦ await_started p.id ], s)

unfoldable pub or_workspace : AgentConfig → Text
or_workspace c = if is_empty c.workdir then c.workspace else c.workdir

unfoldable pub card_matches : Card → Bool
card_matches c = elim c.matches [ none ↦ false | some b ↦ b ]

module _ (h : Host) where
  unfoldable pub ensure_awake_once : Env → Text → Scheduler → Wait × Scheduler
  unfolding wake_ends start_agent_locked
  ensure_awake_once e name s =
      if not s.running || is_some (get Text-discrete name s.agents)
      then (over, s)
      else elim (get Text-discrete name s.idle_stopped) [
        | none ↦ (over, s)
        | some cfg ↦ wake_ends name (start_agent_locked h e (record cfg { port = 0 }) 0 s)
      ]

  unfoldable pub compatible_registration : AgentConfig → AgentConfig → Bool
  unfolding instance_cap same_clean_path or_workspace
  compatible_registration existing requested =
      instance_cap existing == instance_cap requested
      && same_clean_path h existing.workspace requested.workspace
      && same_clean_path h (or_workspace existing) (or_workspace requested)
      && (requested.port == 0 || existing.port == requested.port)

  -- Another agent that is desired has the workspace.
  unfoldable pub workspace_taken : AgentConfig → Scheduler → Bool
  unfolding same_clean_path
  workspace_taken cfg s =
      any
        (λ (e : Text × AgentConfig).
          not (text_eq e.0 cfg.name) && same_clean_path h e.1.workspace cfg.workspace)
        s.desired

  unfoldable pub ensure_desired : Env → Text → AgentConfig → Scheduler → Ensured × Scheduler
  unfolding ensure_started start_agent_locked
  ensure_desired e name existing s = elim (get Text-discrete name s.agents) [
    | some p ↦ (await_running p.id, s)
    | none ↦
        if is_some (get Text-discrete name s.idle_stopped)
        then (await_wake, s)
        else ensure_started name (start_agent_locked h e existing 0 s)
  ]

  unfoldable pub ensure_new : Env → AgentConfig → Card → Scheduler → Ensured × Scheduler
  unfolding ensure_started start_agent_locked
  ensure_new e cfg card s =
      if card.given && not card.written
      then (denied card_failed, s)
      else ensure_started cfg.name (start_agent_locked h e cfg 0 s)

  -- A name that is desired is left as it is, where the request fits.
  unfoldable pub ensure_registered : Env → AgentConfig → Card → Scheduler → Ensured × Scheduler
  unfolding compatible_registration card_matches ensure_desired ensure_new
  ensure_registered e cfg card s = elim (get Text-discrete cfg.name s.desired) [
    | none ↦ ensure_new e cfg card s
    | some existing ↦
        if not card.given
        then (denied exists, s)
        else if not (compatible_registration existing cfg && card_matches card)
        then (denied incompatible, s)
        else ensure_desired e cfg.name existing s
  ]

  -- `EnsureAgent` up to its wait.
  unfoldable pub ensure_agent : Env → AgentConfig → Card → Scheduler → Ensured × Scheduler
  unfolding workspace_taken ensure_registered
  ensure_agent e cfg card s =
      if not s.running
      then (denied not_running, s)
      else if is_empty cfg.name
      then (denied no_name, s)
      else if is_empty cfg.workspace
      then (denied no_workspace, s)
      else if workspace_taken cfg s
      then (denied incompatible, s)
      else ensure_registered e cfg card s
