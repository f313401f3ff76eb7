-- ===== src/App/Ports.antt =====
-- crates/flowspec-app/src/ports.rs: the stored records of runs and steps.
use flowspec_devkitd.Base.{
  ℕ, Bool, Text, List, [], ◌∷◌, map, Option, none, some, if◌then◌else◌, ltb, text_le,
}
use flowspec_devkitd.Base.Map.{Map, get, insert}
use flowspec_devkitd.Json.{Value}
use flowspec_devkitd.Flow.Types.{FlowDefinition}
use flowspec_devkitd.Run.Types.{RunPhase, RunState, StepRun, Timestamp}

-- crates/flowspec-app/src/wire.rs. The exit code is an `i32`, kept as its bit pattern.
pub record JobFailure : Type 0 where
  pub kind : Text
  pub exit_code : Option ℕ
  pub stdout : Option Text
  pub stderr : Option Text

pub record StepRecord : Type 0 where
  pub run : StepRun
  pub job_id : Option Text
  pub with_resolved : Option Value
  pub failure_detail : Option JobFailure

pub record RunRecord : Type 0 where
  pub run_id : Text
  pub flow_name : Text
  pub flow_version : Text
  pub definition : FlowDefinition
  pub inputs : Value
  pub trigger : Value
  pub phase : RunPhase
  pub cancelled : Bool
  pub created_at : Timestamp
  pub updated_at : Timestamp
  pub idempotency_key : Option Text
  pub steps : List StepRecord

-- `or_insert(step)`, then the replacement by a later attempt.
pub newer : Option StepRecord → StepRecord → StepRecord
newer none step = step
newer (some entry) step = if ltb entry.run.attempt step.run.attempt then step else entry

pub latest_from : Map StepRecord → List StepRecord → Map StepRecord
unfolding newer
latest_from latest [] = latest
latest_from latest (step ∷ rest) =
    latest_from (insert latest step.run.step_id (newer (get latest step.run.step_id) step)) rest

pub insert_by_id : StepRecord → List StepRecord → List StepRecord
insert_by_id s [] = s ∷ []
insert_by_id s (t ∷ r) =
    if text_le s.run.step_id t.run.step_id then s ∷ t ∷ r else t ∷ insert_by_id s r

-- `sort_by_key(|s| s.run.step_id)`. The keys of a `HashMap` differ, so its order does not matter.
pub sort_by_id : List StepRecord → List StepRecord
unfolding insert_by_id
sort_by_id [] = []
sort_by_id (s ∷ r) = insert_by_id s (sort_by_id r)

-- The most recent attempt of each step id.
unfoldable pub latest_steps : List StepRecord → List StepRecord
unfolding latest_from sort_by_id
latest_steps steps = sort_by_id (map (λ e. e.1) (latest_from [] steps))

-- Only the latest attempt of a step is visible to the engine.
unfoldable pub run_state : RunRecord → RunState
unfolding latest_steps
run_state record_ = record {
  steps = map (λ s. s.run) (latest_steps record_.steps);
  created_at = some record_.created_at;
  cancelled = record_.cancelled;
  inputs = record_.inputs;
  trigger = record_.trigger;
}
