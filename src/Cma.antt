-- ===== src/Cma.antt =====
-- The managed-agents facade (internal/cmagateway): outcomes.
pub mod Outcome
pub mod Request
pub mod Turn
pub mod Loop
pub mod Moves
pub mod Steps
pub mod Ends
pub mod Rounds
pub mod Runs
pub mod Delivery
pub mod Recovery
pub mod Recovered
