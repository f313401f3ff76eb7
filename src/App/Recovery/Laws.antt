-- ===== src/App/Recovery/Laws.antt =====
-- Which attempts the recovery plan acts on, and which runs it leaves without an action.
use flowspec_devkitd.Base.{ℕ, Bool, Text, Option, none, some}
use flowspec_devkitd.Run.Types.{is_active}
use flowspec_devkitd.App.Ports.{StepRecord}
use flowspec_devkitd.App.Recovery.{RecoveryAction}

abbrev pub is_in_flight : StepRecord → Bool
is_in_flight step = is_active step.run.status

-- The step and the attempt that an action is about.
abbrev pub attempt_of : RecoveryAction → Option (Text × ℕ)
attempt_of (RecoveryAction.reattach_step run_id step_id attempt job_id) = some (step_id, attempt)
attempt_of (RecoveryAction.fail_step run_id step_id attempt reason) = some (step_id, attempt)
attempt_of (RecoveryAction.leave_waiting_approval run_id step_id attempt) = some (step_id, attempt)
attempt_of (RecoveryAction.recheck_subflow run_id step_id attempt child) = some (step_id, attempt)
attempt_of (RecoveryAction.reissue_run_started run_id) = none

abbrev pub record_attempt : StepRecord → Option (Text × ℕ)
record_attempt step = some (step.run.step_id, step.run.attempt)
