-- ===== src/Scheduler/Supervisor/Ports.antt =====
-- Ports: the cursor over the range, the reservations and the probe of the listener
-- (internal/scheduler/scheduler.go, config.go).
use ahsir.Scheduler.Supervisor.State.{Scheduler, Process, PortRange, AgentConfig}
use ahsir.Prelude.{
  ℕ, zero, suc, ◌+◌, ◌-◌, Bool, true, false, not, ◌&&◌, ◌||◌, Option, none, some, List, ltb, leb,
  ◌==◌, if◌then◌else◌, any, is_some,
}
use ahsir.Scheduler.Rooms.Roundtable.{contains}
use ahsir.Prelude.Text.{Text, text, is_empty, Text-discrete, text_eq}
use ahsir.Prelude.Table.{Table, get}

pub record Fault : Type 0 where
  pub code : Text
  pub detail : Text

pub data StartError : Type 0 where
  invalid_configuration : Fault → StartError
  no_ports : StartError
  bad_range : StartError
  reserved : ℕ → StartError
  inspect_failed : ℕ → StartError
  in_use : ℕ → StartError
  evict_failed : ℕ → StartError
  no_token : StartError
  not_started : StartError

-- What listens on a port, as the operating system tells; `evicted` is whether it could be killed.
pub data Listener : Type 0 where
  unknown : Listener
  closed : Listener
  listening : Text → Text → Bool → Listener

-- What one call meets: the verdict on the configuration, the listeners, a random token, whether
-- the command starts, and the time.
pub record Env : Type 0 where
  pub invalid : AgentConfig → Option Fault
  pub listener : ℕ → Listener
  pub token : Option Text
  pub starts : Bool
  pub now : ℕ

-- The text functions of the Go library and of the file system, and the wording of errors.
pub record Host : Type 0 where
  pub fields : Text → List Text
  pub lower : Text → Text
  pub trim : Text → Text
  pub absolute : Text → Text
  pub canonical : Text → Text
  pub join : Text → Text → Text
  pub message : StartError → Text

unfoldable pub is_valid_range : PortRange → Bool
is_valid_range r = ltb 0 r.start && leb r.end 65535 && leb r.start r.end

-- The next candidate, and the cursor after it.
unfoldable pub allocate_port : PortRange → ℕ → Option (ℕ × ℕ)
unfolding is_valid_range
allocate_port r next =
    let port = if ltb next r.start || ltb r.end next then r.start else next in
    if is_valid_range r then some (port, if port == r.end then r.start else port + 1) else none

unfoldable pub holds_port : ℕ → Table Text Process → Bool
holds_port port m = any (λ (e : Text × Process). e.1.cfg.port == port) m

unfoldable pub wants_port : ℕ → Scheduler → Bool
wants_port port s =
    any
      (λ (e : Text × AgentConfig).
        not (is_some (get Text-discrete e.0 s.idle_stopped)) && e.1.port == port)
      s.desired

unfoldable pub pins_port : ℕ → List AgentConfig → Bool
pins_port port cs = any (λ (c : AgentConfig). ltb 0 c.port && c.port == port) cs

unfoldable pub port_reserved : ℕ → Scheduler → Bool
unfolding holds_port wants_port pins_port
port_reserved port s = holds_port port s.agents || wants_port port s || pins_port port s.configured

unfoldable pub port_reserved_by_other : ℕ → Text → Scheduler → Bool
port_reserved_by_other port name s =
    any (λ (e : Text × Process). not (text_eq e.0 name) && e.1.cfg.port == port) s.agents
    || any
        (λ (e : Text × AgentConfig).
          not (text_eq e.0 name)
          && not (is_some (get Text-discrete e.0 s.idle_stopped))
          && e.1.port == port)
        s.desired
    || any (λ (c : AgentConfig). not (text_eq c.name name) && ltb 0 c.port && c.port == port)
        s.configured

pub data PortChoice : Type 0 where
  chosen : ℕ → PortChoice
  refused : StartError → PortChoice

-- What follows the probe of a candidate.
unfoldable pub probed : ℕ → PortChoice × ℕ → ℕ → Option StartError → PortChoice × ℕ
probed port rest next none = (chosen port, next)
probed port rest next (some (in_use p)) = rest
probed port rest next (some err) = (refused err, next)

module _ (h : Host) where
  unfoldable pub same_clean_path : Text → Text → Bool
  same_clean_path a b =
      if is_empty a || is_empty b then false else text_eq (h.canonical a) (h.canonical b)

  unfoldable pub is_stale_local_agent : Text → Text → AgentConfig → Bool
  unfolding same_clean_path
  is_stale_local_agent command cwd cfg =
      if not (contains (text "ahsir-agent") (h.lower command))
      then false
      else if is_empty (h.trim cfg.workspace)
      then true
      else contains (h.absolute (h.trim cfg.workspace)) command
        || same_clean_path cwd (h.absolute (h.trim cfg.workspace))

  unfoldable pub evict_stale_local_agent : Env → AgentConfig → Option StartError
  unfolding is_stale_local_agent
  evict_stale_local_agent e cfg = if cfg.port == 0 then none else elim (e.listener cfg.port) [
    | unknown ↦ some (inspect_failed cfg.port)
    | closed ↦ none
    | listening command cwd evicted ↦
        if is_stale_local_agent command cwd cfg
        then if evicted then none else some (evict_failed cfg.port)
        else some (in_use cfg.port)
  ]

  -- `for range candidateCount`
  unfoldable pub scan_ports : ℕ → Env → AgentConfig → Scheduler → ℕ → PortChoice × ℕ
  unfolding allocate_port port_reserved evict_stale_local_agent probed
  scan_ports zero e cfg s next = (refused no_ports, next)
  scan_ports (suc k) e cfg s next = elim (allocate_port s.port_range next) [
    | none ↦ (refused bad_range, next)
    | some c ↦
        let rest = scan_ports k e cfg s c.1 in
        if port_reserved c.0 s
        then rest
        else probed c.0 rest c.1 (evict_stale_local_agent e (record cfg { port = c.0 }))
  ]

  unfoldable pub pinned_port : Env → AgentConfig → Scheduler → PortChoice
  unfolding evict_stale_local_agent
  pinned_port e cfg s =
      if port_reserved_by_other cfg.port cfg.name s
      then refused (reserved cfg.port)
      else elim (evict_stale_local_agent e cfg) [ none ↦ chosen cfg.port | some err ↦ refused err ]

  -- The port, and the cursor.
  unfoldable pub resolve_port : Env → AgentConfig → Scheduler → PortChoice × ℕ
  unfolding scan_ports pinned_port
  resolve_port e cfg s =
      if cfg.port == 0
      then scan_ports (s.port_range.end + 1 - s.port_range.start) e cfg s s.next_port
      else (pinned_port e cfg s, s.next_port)
