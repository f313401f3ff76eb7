-- ===== src/App/UseCases.antt =====
-- crates/flowspec-app/src/use_cases and crates/flowspec-app/src/flow_source.rs: what the MCP server
-- and the platform connector call. A use case that changes a run writes to the store and submits an
-- event; `submit` of the scheduler is what that does to the store.
pub mod Approvals
pub mod StartFlow
pub mod Queries
pub mod Status
pub mod Snapshot
pub mod Flows
use flowspec_devkitd.Base.{Text, codes}
use flowspec_devkitd.Run.Types.{Event, RunPhase, StepStatus}
use flowspec_devkitd.App.Store.{StateStore}

-- `Scheduler::submit` for the use cases: the store behind a run's event and all that follows.
abbrev pub Submit : StateStore → Type 0
Submit S = Text → Event → S.State → S.State

-- What serde prints for a phase and for a status.
pub status_str_phase : RunPhase → Text
status_str_phase RunPhase.running = codes "running"
status_str_phase RunPhase.completed = codes "completed"
status_str_phase RunPhase.failed = codes "failed"
status_str_phase RunPhase.cancelled = codes "cancelled"

pub status_str : StepStatus → Text
status_str StepStatus.pending = codes "pending"
status_str StepStatus.running = codes "running"
status_str StepStatus.waiting_approval = codes "waiting_approval"
status_str StepStatus.waiting_on_subflow = codes "waiting_on_subflow"
status_str StepStatus.completed = codes "completed"
status_str StepStatus.failed = codes "failed"
status_str StepStatus.failed_rejected = codes "failed_rejected"
status_str StepStatus.skipped = codes "skipped"
status_str StepStatus.cancelled = codes "cancelled"
