-- ===== src/Scheduler/Supervisor.antt =====
-- The supervisor of the agents' processes (internal/scheduler/scheduler.go).
pub mod State
pub mod Ports
pub mod Launch
pub mod Monitor
pub mod Wake
pub mod Instances
pub mod Pools
pub mod Run
pub mod Free
pub mod Probes
pub mod Scan
pub mod Started
pub mod Keeps
pub mod Kept
pub mod Always
pub mod Apart
pub mod Stopped
pub mod Down
pub mod Backoff
pub mod Dial
pub mod Tokens
