-- ===== src/App/Mutations.antt =====
-- crates/flowspec-app/src/ports.rs: the batched writes to a run, and the rows of the hook and event
-- tables. The effect of one write on a run is `apply_mutation` of
-- crates/flowspec-app/src/testkit.rs.
use flowspec_devkitd.Base.{
  ℕ, Bool, true, not, ◌&&◌, Text, codes, ◌==◌, List, [], ◌∷◌, ◌++◌, filter, any, Option, some, eqb,
  if◌then◌else◌, Result, ok, err, ◌>>=◌,
}
use flowspec_devkitd.Base.Decimal.{print_nat}
use flowspec_devkitd.Json.{Value}
use flowspec_devkitd.Run.Types.{RunPhase, StepStatus, ApprovalStatus, Timestamp}
use flowspec_devkitd.App.Ports.{JobFailure, StepRecord, RunRecord}

-- `HookPhase` of ports.rs, which scheduler.rs calls `PortHookPhase`.
pub data PortHookPhase : Type 0 where
  before_run after_run before_step after_step : PortHookPhase

pub data HookStatus : Type 0 where
  completed failed skipped : HookStatus

pub record HookRunRecord : Type 0 where
  pub hook : Text
  pub phase : PortHookPhase
  pub step_id : Option Text
  pub status : HookStatus
  pub started_at : Timestamp
  pub completed_at : Option Timestamp
  pub args_resolved : Option Value
  pub output_ref : Option Text
  pub failure_reason : Option Text
  pub failure_detail : Option JobFailure
  pub job_id : Option Text

pub data RunEventType : Type 0 where
  run_started step_activated step_started step_stream_delta step_completed : RunEventType
  step_failed step_waiting_approval step_waiting_on_subflow approval_resolved : RunEventType
  run_completed run_failed run_cancelled : RunEventType

-- An outbox entry, to which the store has not given a sequence yet.
pub record RunEventRecord : Type 0 where
  pub event_type : RunEventType
  pub step_id : Option Text
  pub timestamp : Timestamp
  pub payload : Value

pub record StoredRunEvent : Type 0 where
  pub sequence : ℕ
  pub event_type : RunEventType
  pub step_id : Option Text
  pub timestamp : Timestamp
  pub payload : Value

pub data Mutation : Type 0 where
  insert_step_run : StepRecord → Mutation
  set_step_status : (step_id : Text) (attempt : ℕ) → StepStatus → Mutation
  set_step_output : (step_id : Text) (attempt : ℕ) → Value → Mutation
  set_job_id : (step_id : Text) (attempt : ℕ) (job_id : Option Text) → Mutation
  set_approval :
      (step_id : Text) (attempt : ℕ) → ApprovalStatus → (comment feedback : Option Text) → Mutation
  set_step_failure : (step_id : Text) (attempt : ℕ) (reason : Text) → Mutation
  set_step_failure_detail : (step_id : Text) (attempt : ℕ) (detail : JobFailure) → Mutation
  set_step_timestamps :
      (step_id : Text) (attempt : ℕ) (started_at completed_at : Option Timestamp) → Mutation
  set_child_run_id : (step_id : Text) (attempt : ℕ) (child_run_id : Option Text) → Mutation
  set_run_phase : RunPhase → Mutation
  set_run_cancelled : Mutation
  record_hook_run : HookRunRecord → Mutation
  append_event : RunEventRecord → Mutation

pub data StoreError : Type 0 where
  not_found : Text → StoreError
  duplicate : Text → StoreError
  serialization : Text → StoreError
  backend : Text → StoreError

-- The test of `find_step`, and of `retain` in `InsertStepRun`.
abbrev pub is_attempt : Text → ℕ → StepRecord → Bool
is_attempt step_id attempt s = s.run.step_id == step_id && eqb s.run.attempt attempt

-- The write through the reference that `find_step` returns: the first match.
pub modify_attempt : Text → ℕ → (StepRecord → StepRecord) → List StepRecord → List StepRecord
modify_attempt step_id attempt f [] = []
modify_attempt step_id attempt f (s ∷ r) =
    if is_attempt step_id attempt s then f s ∷ r else s ∷ modify_attempt step_id attempt f r

missing_step : RunRecord → Text → ℕ → StoreError
missing_step run step_id attempt = not_found (
    codes "step not found in run "
    ++ (run.run_id ++ (codes ": " ++ (step_id ++ (codes " attempt " ++ print_nat attempt)))))

-- `find_step(run, step_id, attempt)?` and a write to what it finds.
unfoldable pub update_attempt :
    RunRecord → Text → ℕ → (StepRecord → StepRecord) → Result StoreError RunRecord
unfolding modify_attempt missing_step
update_attempt run step_id attempt f =
    if any (is_attempt step_id attempt) run.steps
    then ok (record run { steps = modify_attempt step_id attempt f run.steps })
    else err (missing_step run step_id attempt)

unfoldable pub apply_mutation : Mutation → RunRecord → Result StoreError RunRecord
unfolding update_attempt
apply_mutation (insert_step_run step) run = ok (record run {
  steps = filter (λ s. not (is_attempt step.run.step_id step.run.attempt s)) run.steps ++ step ∷ [];
})
apply_mutation (set_step_status step_id attempt status) run =
    update_attempt run step_id attempt λ s. record s { run = record s.run { status = status } }
apply_mutation (set_step_output step_id attempt output) run =
    update_attempt run step_id attempt λ s. record s { run = record s.run { output = some output } }
apply_mutation (set_job_id step_id attempt job_id) run =
    update_attempt run step_id attempt λ s. record s { job_id = job_id }
apply_mutation (set_approval step_id attempt status comment feedback) run =
    update_attempt run step_id attempt λ s. record s {
      run = record s.run {
        approval_status = some status;
        approval_comment = comment;
        feedback = feedback;
      };
    }
apply_mutation (set_step_failure step_id attempt reason) run =
    update_attempt run step_id attempt
      λ s. record s { run = record s.run { failure_reason = some reason } }
apply_mutation (set_step_timestamps step_id attempt started_at completed_at) run =
    update_attempt run step_id attempt
      λ s. record s { run = record s.run { started_at = started_at; completed_at = completed_at } }
apply_mutation (set_child_run_id step_id attempt child_run_id) run =
    update_attempt run step_id attempt
      λ s. record s { run = record s.run { child_run_id = child_run_id } }
apply_mutation (set_run_phase phase) run = ok (record run { phase = phase })
apply_mutation set_run_cancelled run = ok (record run { cancelled = true })
apply_mutation (set_step_failure_detail step_id attempt detail) run =
    update_attempt run step_id attempt λ s. record s { failure_detail = some detail }
apply_mutation (record_hook_run _) run = ok run
apply_mutation (append_event _) run = ok run

-- The loop over the batch, on the scratch copy of the run.
unfoldable pub apply_all : List Mutation → RunRecord → Result StoreError RunRecord
unfolding apply_mutation
apply_all [] run = ok run
apply_all (m ∷ ms) run = apply_mutation m run >>= λ run'. apply_all ms run'
