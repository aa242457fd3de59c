-- ===== src/Wrapper/Lifecycle.antt =====
-- The lifecycle of an agent's sessions: the store of its state, and the controller that runs the
-- turns (internal/wrapper/lifecycle_store.go, lifecycle.go).
pub mod Store
pub mod Controller
pub mod Effects
pub mod Truth
pub mod Marks
pub mod Ready
pub mod Turns
pub mod Once
pub mod Closed
pub mod Kept
pub mod Bounds
