-- ===== src/Wrapper/Idle/Safety.antt =====
-- The idle monitor never gives up an agent at work, and never forgets an idle one.
use ahsir.Prelude.{◌<◌, if◌then◌else◌, ◌≡◌, Option, true, false}
use ahsir.Wrapper.Idle.{is_idle, IdleMonitor}
use ahsir.Prelude.Table.{Table}

-- Reaped once at most and with no turn in flight; an idle monitor with a timeout has a timer.
pub record Safe (m : IdleMonitor) : Type 0 where
  pub once : m.exits ≡ (if m.reaped then 1 else 0)
  pub at_rest : m.reaped ≡ true → is_idle m ≡ true
  pub waiting : m.reaped ≡ false → is_idle m ≡ true → 0 < m.timeout → m.timer ≡ true
