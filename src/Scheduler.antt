-- ===== src/Scheduler.antt =====
-- The scheduler process (internal/scheduler): the invocation ledger, the instance pools, the live
-- event hub, the rooms and the supervisor of processes.
pub mod Ledger
pub mod Instance
pub mod Live
pub mod Rooms
pub mod Supervisor
