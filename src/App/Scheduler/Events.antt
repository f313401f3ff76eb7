-- ===== src/App/Scheduler/Events.antt =====
-- The mutations that crates/flowspec-app/src/scheduler.rs derives from the event that it handles.
use flowspec_devkitd.Base.{
  ℕ, Text, codes, ◌==◌, List, [], ◌∷◌, ◌++◌, find?, Option, none, some, if◌then◌else◌, Result, ok,
  err,
}
use flowspec_devkitd.Json.{Value, null, string, object, end, field}
use flowspec_devkitd.Run.Types.{Event, ApprovalStatus, Timestamp}
use flowspec_devkitd.App.Ports.{StepRecord, RunRecord, latest_steps}
use flowspec_devkitd.App.Mutations.{Mutation, RunEventType, append_event}
use flowspec_devkitd.App.Scheduler.Types.{SchedulerError, engine}

-- `event_mutation`: the timestamp is always the present.
abbrev pub event_mutation : Timestamp → RunEventType → Option Text → Value → Mutation
event_mutation now event_type step_id payload =
    append_event
      (record { event_type = event_type; step_id = step_id; timestamp = now; payload = payload })

abbrev pub reason_payload : Text → Value
reason_payload reason = object (field (codes "reason") (string reason) end)

-- `step_completed_output(..).unwrap_or(Value::Null)`.
unfoldable pub step_completed_output : Event → Text → Value
step_completed_output (Event.step_completed id output) step_id =
    if id == step_id then output else null
step_completed_output _ step_id = null

-- `step_failed_payload(..).unwrap_or(Value::Null)`.
unfoldable pub step_failed_payload : Event → Text → Value
step_failed_payload (Event.step_failed id reason) step_id =
    if id == step_id then reason_payload reason else null
step_failed_payload _ step_id = null

-- `add_event_data`: what it pushes.
unfoldable pub event_data : Event → Text → ℕ → List Mutation
event_data (Event.step_completed id output) step_id attempt =
    if id == step_id then Mutation.set_step_output step_id attempt output ∷ [] else []
event_data (Event.step_failed id reason) step_id attempt =
    if id == step_id then Mutation.set_step_failure step_id attempt reason ∷ [] else []
event_data (Event.step_approved id comment) step_id attempt =
    if id == step_id
    then Mutation.set_approval step_id attempt ApprovalStatus.approved comment none ∷ []
    else []
event_data (Event.step_rejected id feedback) step_id attempt =
    if id == step_id
    then Mutation.set_approval step_id attempt ApprovalStatus.rejected none (some feedback) ∷ []
    else []
event_data _ step_id attempt = []

abbrev pub latest_step : RunRecord → Text → Option StepRecord
latest_step run step_id = find? (λ s. s.run.step_id == step_id) (latest_steps run.steps)

unfoldable pub step_attempt : RunRecord → Text → Result SchedulerError ℕ
step_attempt run step_id = elim (latest_step run step_id) [
  | none ↦ err (engine (codes "step " ++ (step_id ++ codes " not found")))
  | some s ↦ ok s.run.attempt
]
