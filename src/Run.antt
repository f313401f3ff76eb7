-- ===== src/Run.antt =====
-- crates/flowspec-domain/src/run: the state of a run, its phase, and the engine.
pub mod Types
pub mod Derive
pub mod Engine
