-- ===== src/Run/Types.antt =====
-- crates/flowspec-domain/src/run/types.rs: the dynamic state of a run, events and commands.
use flowspec_devkitd.Base.{
  ℕ, Bool, true, false, Text, List, [], ◌∷◌, Option, none, find?, ◌==◌, if◌then◌else◌,
}
use flowspec_devkitd.Json.{Value}
use flowspec_devkitd.Flow.Types.{HookCall}

-- An instant; the engine only stores it.
abbrev pub Timestamp : Type 0
Timestamp = ℕ

pub data RunPhase : Type 0 where
  running completed failed cancelled : RunPhase

-- `==` of phases.
abbrev pub same_phase : RunPhase → RunPhase → Bool
same_phase RunPhase.running RunPhase.running = true
same_phase RunPhase.completed RunPhase.completed = true
same_phase RunPhase.failed RunPhase.failed = true
same_phase RunPhase.cancelled RunPhase.cancelled = true
same_phase _ _ = false

pub data StepStatus : Type 0 where
  pending running waiting_approval waiting_on_subflow : StepStatus
  completed failed failed_rejected skipped cancelled : StepStatus

unfoldable pub is_terminal : StepStatus → Bool
is_terminal StepStatus.completed = true
is_terminal StepStatus.failed = true
is_terminal StepStatus.failed_rejected = true
is_terminal StepStatus.skipped = true
is_terminal StepStatus.cancelled = true
is_terminal _ = false

unfoldable pub is_active : StepStatus → Bool
is_active StepStatus.running = true
is_active StepStatus.waiting_approval = true
is_active StepStatus.waiting_on_subflow = true
is_active _ = false

-- The tests `== StepStatus::Completed`, `== StepStatus::Cancelled` and
-- `matches!(_, Failed | FailedRejected)`.
unfoldable pub is_completed : StepStatus → Bool
is_completed StepStatus.completed = true
is_completed _ = false

unfoldable pub is_cancelled : StepStatus → Bool
is_cancelled StepStatus.cancelled = true
is_cancelled _ = false

unfoldable pub is_failure : StepStatus → Bool
is_failure StepStatus.failed = true
is_failure StepStatus.failed_rejected = true
is_failure _ = false

pub data ApprovalStatus : Type 0 where
  pending approved rejected : ApprovalStatus

pub record StepRun : Type 0 where
  pub step_id : Text
  pub status : StepStatus
  pub attempt : ℕ
  pub started_at : Option Timestamp
  pub completed_at : Option Timestamp
  pub input_resolved : Option Text
  pub output : Option Value
  pub approval_status : Option ApprovalStatus
  pub feedback : Option Text
  pub approval_comment : Option Text
  pub failure_reason : Option Text
  pub child_run_id : Option Text

-- `StepRun::pending`.
abbrev pub pending_run : Text → StepRun
pending_run step_id = record {
  step_id = step_id;
  status = StepStatus.pending;
  attempt = 0;
  started_at = none;
  completed_at = none;
  input_resolved = none;
  output = none;
  approval_status = none;
  feedback = none;
  approval_comment = none;
  failure_reason = none;
  child_run_id = none;
}

pub record RunState : Type 0 where
  pub steps : List StepRun
  pub created_at : Option Timestamp
  pub cancelled : Bool
  pub inputs : Value
  pub trigger : Value

abbrev pub find_run : List StepRun → Text → Option StepRun
find_run runs id = find? (λ s. s.step_id == id) runs

-- `RunState::step`.
abbrev pub state_step : RunState → Text → Option StepRun
state_step state id = find_run state.steps id

-- `if let Some(existing) = state.step_mut(id) { *existing = f(existing) }`: the first match.
unfoldable pub modify_run : (StepRun → StepRun) → Text → List StepRun → List StepRun
modify_run f id [] = []
modify_run f id (s ∷ r) = if s.step_id == id then f s ∷ r else s ∷ modify_run f id r

pub data Event : Type 0 where
  run_started : Event
  step_completed : (step_id : Text) (output : Value) → Event
  step_failed : (step_id reason : Text) → Event
  step_approved : (step_id : Text) (comment : Option Text) → Event
  step_rejected : (step_id feedback : Text) → Event
  subflow_finished : (step_id : Text) (phase : RunPhase) (outputs : Option Value) → Event
  run_deadline_exceeded : Event
  cancel_requested : Event

pub record StepActivation : Type 0 where
  pub step_id : Text
  pub attempt : ℕ
  pub input : Text

pub data HookPhase : Type 0 where
  before_run after_run : HookPhase
  before_step after_step : (step_id : Text) → HookPhase

pub data Command : Type 0 where
  activate_steps : List StepActivation → Command
  wait_approval : (step_id : Text) → Command
  start_child_run : (step_id : Text) → Command
  run_hooks : HookPhase → List HookCall → Command
  cancel_steps : List Text → Command
  mark_step_status : (step_id : Text) → StepStatus → Command
  mark_run_terminal : RunPhase → Command

pub data EngineError : Type 0 where
  illegal_transition : (step : Text) (from to : StepStatus) → EngineError
  unknown_step : Text → EngineError
