-- ===== src/Examples.antt =====
-- A flow, the states of its run, and stored records, on which the theorems are evaluated.
pub mod Engine
pub mod Graph
pub mod Rules
pub mod Store
pub mod Stored
pub mod Scheduler
pub mod Platform
use flowspec_devkitd.Base.{ℕ, Bool, true, false, Text, codes, List, [], ◌∷◌, Option, none, some}
use flowspec_devkitd.Json.{Value, null, string}
use flowspec_devkitd.Flow.Types.{
  FlowDefinition, Step, StepType, CliWith, SerdeJson, RouteTarget, one, HookCall, HookCondition,
}
use flowspec_devkitd.Run.Types.{StepRun, StepStatus, RunState, pending_run}

-- A `with:` payload that is a string is read as the input template of a cli step.
abbrev cli_with : Value → Option CliWith
cli_with (string input) =
    some (record { cli = codes "claude"; role = none; input = input; output = none; extra = [] })
cli_with _ = none

abbrev pub sample_json : SerdeJson
sample_json = record {
  to_string = λ v. codes "null";
  cli_from_value = cli_with;
  subflow_from_value = λ v. none;
}

abbrev pub cli_step : Text → Text → Step
cli_step id input = record {
  id = id;
  step_type = StepType.cli;
  with_value = string input;
  human_loop = false;
  timeout = some (codes "10m");
  retries = 0;
  reject_input = none;
  before = [];
  after = [];
  on_success = none;
  on_failure = none;
  on_approve = none;
  on_reject = none;
  needs = [];
}

abbrev pub to_step : Text → Option RouteTarget
to_step id = some (one id)

abbrev pub plan_id : Text
plan_id = codes "plan"

abbrev pub review_id : Text
review_id = codes "review"

abbrev pub build_id : Text
build_id = codes "build"

-- plan → review → (approved) build → done; a rejected review is started again.
abbrev pub plan_step : Step
plan_step = record (cli_step plan_id (codes "plan it")) { on_success = to_step review_id }

abbrev pub review_step : Step
review_step = record (cli_step review_id (codes "check {{steps.plan.output}}")) {
  human_loop = true;
  on_approve = to_step build_id;
  on_reject = to_step review_id;
}

abbrev pub build_step : Step
build_step = record (cli_step build_id (codes "build {{steps.review.output}}")) {
  on_success = to_step (codes "done");
  retries = 1;
  needs = review_id ∷ [];
}

abbrev pub notify_hook : HookCall
notify_hook = record {
  hook = codes "notify";
  args = [];
  timeout = none;
  when = some HookCondition.always;
  always_continue = true;
}

abbrev pub flow_of : List Step → FlowDefinition
flow_of steps = record {
  name = codes "release";
  version = codes "1";
  description = none;
  inputs = [];
  outputs = [];
  defaults = record { cli = none; provider = none; model = none };
  timeout = some (codes "2h");
  lifecycle = record { before_run = []; after_run = notify_hook ∷ [] };
  metadata = [];
  flowspec_version = none;
  steps = steps;
}

abbrev pub release : FlowDefinition
release = flow_of (plan_step ∷ review_step ∷ build_step ∷ [])

abbrev pub run_with : Text → StepStatus → StepRun
run_with id status = record (pending_run id) {
  status = status;
  attempt = 1;
  output = some (string (codes "out"));
}

abbrev pub state_of : List StepRun → RunState
state_of runs = record {
  steps = runs;
  created_at = some 0;
  cancelled = false;
  inputs = null;
  trigger = null;
}

-- The review waits for an approval.
abbrev pub waiting : RunState
waiting =
    state_of
      (run_with plan_id StepStatus.completed ∷ run_with review_id StepStatus.waiting_approval ∷ [])

-- The build runs in its second attempt.
abbrev pub building : RunState
building = state_of (
    run_with plan_id StepStatus.completed
    ∷ run_with review_id StepStatus.completed
    ∷ record (run_with build_id StepStatus.running) { attempt = 2 }
    ∷ [])
