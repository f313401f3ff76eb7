-- ===== src/App/Recovery.antt =====
-- crates/flowspec-app/src/recovery.rs: what to do at boot with the runs that were in flight.
pub mod Laws
use flowspec_devkitd.Base.{
  ℕ, Bool, true, false, ◌&&◌, not, Text, List, [], ◌∷◌, ◌++◌, Option, none, some, if◌then◌else◌,
  is_empty, flat_map,
}
use flowspec_devkitd.Run.Types.{StepStatus, is_active}
use flowspec_devkitd.App.Ports.{StepRecord, RunRecord, latest_steps}

pub data RecoveryReason : Type 0 where
  interrupted : RecoveryReason

pub data RecoveryAction : Type 0 where
  reattach_step : (run_id step_id : Text) (attempt : ℕ) (job_id : Text) → RecoveryAction
  fail_step : (run_id step_id : Text) (attempt : ℕ) (reason : RecoveryReason) → RecoveryAction
  leave_waiting_approval : (run_id step_id : Text) (attempt : ℕ) → RecoveryAction
  recheck_subflow : (run_id step_id : Text) (attempt : ℕ) (child_run_id : Text) → RecoveryAction
  reissue_run_started : (run_id : Text) → RecoveryAction

-- `if let Some(id) = ... { the action } else { FailStep }`.
or_fail : Option Text → (Text → RecoveryAction) → RecoveryAction → RecoveryAction
or_fail none act fallback = fallback
or_fail (some id) act fallback = act id

-- The `match status` of the loop over steps.
action_for : Text → StepRecord → StepStatus → List RecoveryAction
unfolding or_fail
action_for run_id step StepStatus.running =
    or_fail step.job_id (reattach_step run_id step.run.step_id step.run.attempt)
      (fail_step run_id step.run.step_id step.run.attempt interrupted)
    ∷ []
action_for run_id step StepStatus.waiting_approval =
    leave_waiting_approval run_id step.run.step_id step.run.attempt ∷ []
action_for run_id step StepStatus.waiting_on_subflow =
    or_fail step.run.child_run_id (recheck_subflow run_id step.run.step_id step.run.attempt)
      (fail_step run_id step.run.step_id step.run.attempt interrupted)
    ∷ []
action_for run_id step _ = []

pub step_actions : Text → StepRecord → List RecoveryAction
unfolding action_for is_active
step_actions run_id step =
    if not (is_active step.run.status) then [] else action_for run_id step step.run.status

pub run_actions : RunRecord → List RecoveryAction
unfolding step_actions
run_actions run =
    let actions = flat_map (step_actions run.run_id) (latest_steps run.steps) in
    if is_empty actions && is_empty run.steps then reissue_run_started run.run_id ∷ [] else actions

unfoldable pub recovery_plan : List RunRecord → List RecoveryAction
unfolding run_actions
recovery_plan runs = flat_map run_actions runs
