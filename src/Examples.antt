-- ===== src/Examples.antt =====
-- Concrete inputs of the theorems.
mod Pools
mod Turns
mod Ledgers
mod Rest
mod Rooms
mod Supervisors
mod Outcomes
mod Lifecycles
