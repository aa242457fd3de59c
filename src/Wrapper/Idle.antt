-- ===== src/Wrapper/Idle.antt =====
-- The idle monitor (internal/wrapper/idle_monitor.go, and EnableIdleReaper of
-- session_pool.go). A timeout that is not positive is 0.
-- `timer` says that `m.timer` is set: its callback has not yet run. `exits` counts the calls of
-- `onReap`. The callback of a timer that was stopped too late may run at any time.
pub mod Safety
use ahsir.Prelude.{
  ◌&&◌, not, is_some, ◌%◌, ℕ_discrete, ◌==◌, ◌||◌, ◌+◌, length, if◌then◌else◌, [], ◌∷◌, ℕ, ◌≡◌,
  none, some, Option, arith, refl, true, false, Bool, suc, zero, List,
}
use ahsir.Prelude.Table.{put, get, delete, Table}

-- 2 ^ 64
abbrev u64 : ℕ
u64 = 18446744073709551616

pub record IdleMonitor : Type 0 where
  pub timeout : ℕ
  pub inflight : Table ℕ Unit
  pub next_id : ℕ
  pub timer : Bool
  pub reaped : Bool
  pub exits : ℕ

unfoldable pub new_idle_monitor : ℕ → IdleMonitor
new_idle_monitor timeout = record {
  timeout = timeout;
  inflight = [];
  next_id = 0;
  timer = false;
  reaped = false;
  exits = 0;
}

-- The id is what the release closure holds; without one the turn is refused.
unfoldable pub turn_started : IdleMonitor → IdleMonitor × Option ℕ
turn_started m = if m.reaped then (m, none) else (
  record m {
    timer = false;
    next_id = (m.next_id + 1) % u64;
    inflight = put ℕ_discrete m.next_id tt m.inflight;
  },
  some m.next_id,
)

abbrev is_idle : IdleMonitor → Bool
is_idle m = length m.inflight == 0

unfoldable pub arm_locked : IdleMonitor → IdleMonitor
arm_locked m = if m.timeout == 0 then m else record m { timer = true }

-- `EnableIdleReaper`, which sets no monitor without a timeout.
unfoldable pub enable_idle_reaper : ℕ → Option IdleMonitor
unfolding arm_locked new_idle_monitor
enable_idle_reaper timeout =
    if timeout == 0 then none else some (arm_locked (new_idle_monitor timeout))

unfoldable pub turn_ended : ℕ → IdleMonitor → IdleMonitor
turn_ended id m =
    let q = record m { inflight = delete ℕ_discrete id m.inflight } in
    if is_some (get ℕ_discrete id m.inflight)
    then (if is_idle q && not q.reaped then arm_locked q else q)
    else m

-- `confirmed` is what `confirmIdle` answers, true without one.
unfoldable pub fire : Bool → IdleMonitor → IdleMonitor
fire confirmed m =
    if m.reaped || not (is_idle m)
    then m
    else (if confirmed then record m { reaped = true; exits = suc m.exits } else arm_locked m)

pub data Event : Type 0 where
  starts : Event
  ends : ℕ → Event
  fires : Bool → Event

unfoldable pub happen : Event → IdleMonitor → IdleMonitor
happen starts m = (turn_started m).0
happen (ends id) m = turn_ended id m
happen (fires confirmed) m = fire confirmed m

unfoldable pub happen_all : List Event → IdleMonitor → IdleMonitor
happen_all [] m = m
happen_all (e ∷ es) m = happen_all es (happen e m)
