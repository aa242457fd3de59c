-- ===== src/Scheduler/Rooms.antt =====
-- Rooms of agents and their log (internal/scheduler/rooms.go, roomstore.go).
pub mod Room
pub mod Relay
pub mod Schedule
pub mod Parks
pub mod Log
pub mod Seen
pub mod History
pub mod Restart
pub mod Reload
pub mod Driven
pub mod Halted
pub mod Roundtable
pub mod Rounds
pub mod Mentions
