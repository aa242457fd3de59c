-- ===== src/Wrapper.antt =====
-- The agent process (internal/wrapper): the turn gate, the idle monitor, the session pool, the task
-- store and the lifecycle of sessions.
pub mod Gate
pub mod Pool
pub mod Idle
pub mod Tasks
pub mod Lifecycle
