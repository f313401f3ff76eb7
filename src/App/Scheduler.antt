-- ===== src/App/Scheduler.antt =====
-- crates/flowspec-app/src/scheduler.rs: how the events of a run are handled.
pub mod Types
pub mod Request
pub mod Events
pub mod Commands
pub mod Drive
pub mod Hooks
pub mod Tasks
pub mod Invariant
pub mod Durable
pub mod Final
