-- ===== src/App/UseCases/Status.antt =====
-- `get_run_status` of crates/flowspec-app/src/use_cases/queries.rs.
use mathlib.Core.Option
use mathlib.Core.Option.{get_or}
use flowspec_devkitd.Base.{
  ℕ, Bool, true, false, Text, codes, ◌==◌, List, map, filter, any, Option, none, some, is_none,
  if◌then◌else◌, Result, ok, ◌>>=◌,
}
use flowspec_devkitd.Json.{string}
use flowspec_devkitd.Flow.Types.{SerdeJson}
use flowspec_devkitd.Run.Types.{StepStatus, Timestamp, state_step}
use flowspec_devkitd.Run.Derive.{active_steps}
use flowspec_devkitd.App.Ports.{JobFailure, StepRecord, RunRecord, latest_steps, run_state}
use flowspec_devkitd.App.Wire.{OutputSummary, summarize_output}
use flowspec_devkitd.App.Mutations.{HookRunRecord, HookStatus, PortHookPhase}
use flowspec_devkitd.App.Store.{StateStore}
use flowspec_devkitd.App.UseCases.{status_str, status_str_phase}
use flowspec_devkitd.App.UseCases.Queries.{QueryError, from_store}

pub record HookInfo : Type 0 where
  pub hook : Text
  pub phase : Text
  pub status : Text
  pub job_id : Option Text
  pub failure_summary : Option OutputSummary
  pub failure : Option JobFailure
  pub started_at : Timestamp
  pub completed_at : Option Timestamp

pub record ActiveStepInfo : Type 0 where
  pub step_id : Text
  pub status : Text
  pub last_poll_ago_secs : Option ℕ

pub record StepInfo : Type 0 where
  pub step_id : Text
  pub status : Text
  pub attempt : ℕ
  pub output_summary : Option OutputSummary
  pub failure_reason : Option Text
  pub failure : Option JobFailure
  pub failed_in : Option Text
  pub hooks : List HookInfo
  pub feedback : Option Text
  pub last_poll_ago_secs : Option ℕ
  pub started_at : Option Timestamp
  pub completed_at : Option Timestamp

pub record RunStatus : Type 0 where
  pub run_id : Text
  pub flow_name : Text
  pub flow_version : Text
  pub phase : Text
  pub active_steps : List ActiveStepInfo
  pub steps : List StepInfo
  pub run_hooks : List HookInfo
  pub created_at : Timestamp
  pub updated_at : Timestamp

abbrev output_summary_max_chars : ℕ
output_summary_max_chars = 500

status_str_hook_phase : PortHookPhase → Text
status_str_hook_phase PortHookPhase.before_run = codes "before_run"
status_str_hook_phase PortHookPhase.after_run = codes "after_run"
status_str_hook_phase PortHookPhase.before_step = codes "before_step"
status_str_hook_phase PortHookPhase.after_step = codes "after_step"

status_str_hook_status : HookStatus → Text
status_str_hook_status HookStatus.completed = codes "completed"
status_str_hook_status HookStatus.failed = codes "failed"
status_str_hook_status HookStatus.skipped = codes "skipped"

abbrev is_failed_hook : HookRunRecord → Bool
is_failed_hook h = elim h.status [ HookStatus.failed ↦ true | _ ↦ false ]

-- `step_id.as_deref() == Some(id)`.
abbrev is_of_step : Text → HookRunRecord → Bool
is_of_step id h = elim h.step_id [ none ↦ false | some i ↦ i == id ]

-- Where a failed step failed: in a hook if any hook of the step has failed.
failed_in : StepStatus → List HookRunRecord → Option Text
failed_in StepStatus.failed hooks =
    some (if any is_failed_hook hooks then codes "after_hook" else codes "step")
failed_in _ hooks = none

-- `get_run_status`, with the liveness probe as a function that knows nothing if there is none.
module _ (json : SerdeJson) (last_poll : Text → Text → Option ℕ) where
  pub hook_info : HookRunRecord → HookInfo
  unfolding status_str_hook_phase status_str_hook_status summarize_output
  hook_info h = record {
    hook = h.hook;
    phase = status_str_hook_phase h.phase;
    status = status_str_hook_status h.status;
    job_id = h.job_id;
    failure_summary =
        Option.map (λ r. summarize_output json (string r) output_summary_max_chars)
          h.failure_reason;
    failure = h.failure_detail;
    started_at = h.started_at;
    completed_at = h.completed_at;
  }

  active_info : Text → RunRecord → Text → ActiveStepInfo
  unfolding status_str run_state
  active_info run_id run step_id = record {
    step_id = step_id;
    status =
        get_or (Option.map (λ s. status_str s.status) (state_step (run_state run) step_id))
          (codes "unknown");
    last_poll_ago_secs = last_poll run_id step_id;
  }

  step_info : Text → List HookRunRecord → StepRecord → StepInfo
  unfolding status_str failed_in hook_info summarize_output
  step_info run_id hook_runs s =
      let step_hooks = filter (is_of_step s.run.step_id) hook_runs in
      record {
        step_id = s.run.step_id;
        status = status_str s.run.status;
        attempt = s.run.attempt;
        output_summary =
            Option.map (λ o. summarize_output json o output_summary_max_chars) s.run.output;
        failure_reason = s.run.failure_reason;
        failure = s.failure_detail;
        failed_in = failed_in s.run.status step_hooks;
        hooks = map hook_info step_hooks;
        feedback = s.run.feedback;
        last_poll_ago_secs = last_poll run_id s.run.step_id;
        started_at = s.run.started_at;
        completed_at = s.run.completed_at;
      }

  abbrev run_status : Text → RunRecord → List HookRunRecord → RunStatus
  run_status run_id run hook_runs = record {
    run_id = run_id;
    flow_name = run.flow_name;
    flow_version = run.flow_version;
    phase = status_str_phase run.phase;
    active_steps = map (active_info run_id run) (active_steps (run_state run));
    steps = map (step_info run_id hook_runs) (latest_steps run.steps);
    run_hooks = map hook_info (filter (λ h. is_none h.step_id) hook_runs);
    created_at = run.created_at;
    updated_at = run.updated_at;
  }

  unfoldable pub get_run_status : (S : StateStore) → Text → S.State → Result QueryError RunStatus
  unfolding active_info step_info hook_info status_str_phase active_steps run_state
  get_run_status S run_id s = from_store (S.load_run s run_id) >>= λ run.
      from_store (S.list_hook_runs s run_id) >>= λ hook_runs. ok (run_status run_id run hook_runs)
