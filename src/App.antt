-- ===== src/App.antt =====
-- crates/flowspec-app/src: what is stored of a run, and what is done with it.
pub mod Ports
pub mod Wire
pub mod Mutations
pub mod Scheduler
pub mod Store
pub mod Recovery
pub mod Split
pub mod UseCases
