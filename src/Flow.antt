-- ===== src/Flow.antt =====
-- crates/flowspec-domain/src/flow: flow definitions, their graph, and the flow-load rules.
pub mod Types
pub mod Dag
pub mod Schema
pub mod References
pub mod Predecessors
pub mod Validate
