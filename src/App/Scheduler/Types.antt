-- ===== src/App/Scheduler/Types.antt =====
-- The data of crates/flowspec-app/src/scheduler.rs. What the scheduler does besides writing to the
-- store (starting and aborting tasks, cancelling jobs) is a list of effects.
use flowspec_devkitd.Base.{ℕ, Text, codes, List, Option}
use flowspec_devkitd.Json.{Value}
use flowspec_devkitd.Flow.Types.{HookCall}
use flowspec_devkitd.Run.Types.{Command, Event, StepActivation, HookPhase}
use flowspec_devkitd.App.Mutations.{StoreError}

pub record SchedulerConfig : Type 0 where
  pub poll_interval_secs : ℕ
  pub deadline_margin_secs : ℕ
  pub default_step_timeout_secs : ℕ
  pub max_step_output_kb : ℕ
  pub executor_cli_tool : Text

-- `SchedulerConfig::default`.
abbrev pub default_config : SchedulerConfig
default_config = record {
  poll_interval_secs = 5;
  deadline_margin_secs = 30;
  default_step_timeout_secs = 3600;
  max_step_output_kb = 256;
  executor_cli_tool = codes "agent-run";
}

pub record StartRequest : Type 0 where
  pub tool : Text
  pub args : Value
  pub timeout_seconds : Option ℕ

-- `SchedulerError`, or a panic of the task.
pub data SchedulerError : Type 0 where
  store : StoreError → SchedulerError
  engine : Text → SchedulerError
  panicked : SchedulerError

-- What happens outside the store.
pub data Effect : Type 0 where
  spawn_step : StepActivation → StartRequest → Effect
  spawn_hooks : Event → HookPhase → List HookCall → List Command → Effect
  cancel_job : (job_id : Text) → Effect
  abort_step : (step_id : Text) (attempt : ℕ) → Effect
  clear_liveness : (step_id : Text) → Effect
  abort_deadline : Effect
