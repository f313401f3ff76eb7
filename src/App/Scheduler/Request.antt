-- ===== src/App/Scheduler/Request.antt =====
-- `build_step_request` and the first loop of `activate_steps` of
-- crates/flowspec-app/src/scheduler.rs: what a job is started with.
use mathlib.Core.Option
use mathlib.Core.Option.{get_or}
use flowspec_devkitd.Base.{
  ℕ, Text, codes, List, [], ◌∷◌, ◌++◌, Option, none, some, Result, ok, err, ◌>>=◌, returns, panics,
}
use flowspec_devkitd.Json.{Value, Fields, null, string, object, end, set_field, or_insert_field}
use flowspec_devkitd.Flow.Types.{
  FlowDefinition, Step, StepWith, CliWith, SerdeJson, kind, flow_step,
}
use flowspec_devkitd.Flow.Schema.{parse_duration}
use flowspec_devkitd.Template.{
  TemplateContext, TemplateError, unresolvable_reference, unstructured_output, unterminated,
  build_context, resolve_value,
}
use flowspec_devkitd.Run.Types.{StepStatus, StepActivation, Timestamp, pending_run}
use flowspec_devkitd.App.Ports.{StepRecord, RunRecord, run_state}
use flowspec_devkitd.App.Scheduler.Types.{
  SchedulerConfig, StartRequest, SchedulerError, engine, panicked,
}

unfoldable pub template_error_text : TemplateError → Text
template_error_text (unresolvable_reference reference step) =
    codes "unresolvable reference '" ++ (reference ++ (codes "' in step '" ++ (step ++ codes "'")))
template_error_text (unstructured_output reference step) =
    codes "step '"
    ++ (step
        ++ (codes "' output is unstructured text; cannot resolve '"
            ++ (reference ++ codes "' into it")))
template_error_text (unterminated step) =
    codes "unterminated template expression in step '" ++ (step ++ codes "': missing closing }}")

abbrev pub option_field : Fields → Text → Option Text → Fields
option_field fs k none = fs
option_field fs k (some v) = set_field fs k (string v)

abbrev pub default_field : Fields → Text → Option Text → Fields
default_field fs k none = fs
default_field fs k (some v) = or_insert_field fs k (string v)

abbrev pub set_fields : Fields → List (Text × Value) → Fields
set_fields fs [] = fs
set_fields fs ((k, v) ∷ r) = set_fields (set_field fs k v) r

-- The object that `build_step_request` resolves.
unfoldable pub request_fields : FlowDefinition → CliWith → Text → Fields
unfolding set_field or_insert_field
request_fields flow w input =
    let cli = set_field end (codes "cli") (string w.cli) in
    let role = option_field cli (codes "role") w.role in
    let input' = set_field role (codes "input") (string input) in
    let output = option_field input' (codes "output") w.output in
    let extra = set_fields output w.extra in
    default_field
      (default_field (default_field extra (codes "cli") flow.defaults.cli) (codes "provider")
        flow.defaults.provider)
      (codes "model") flow.defaults.model

-- `step.timeout.and_then(parse_duration).or(default)`.
unfoldable pub step_timeout : SchedulerConfig → Option Text → Result SchedulerError (Option ℕ)
step_timeout config none = ok (some config.default_step_timeout_secs)
step_timeout config (some t) = elim (parse_duration t) [
  | panics ↦ err panicked
  | returns secs ↦ ok (Option.or_else secs (some config.default_step_timeout_secs))
]

map_template_error {ℓ} : {A : Type ℓ} → Result TemplateError A → Result SchedulerError A
map_template_error (ok a) = ok a
map_template_error (err e) = err (engine (template_error_text e))

-- `args` with the step and the flow, if it is an object.
abbrev pub with_origin : Text → Text → Value → Value
with_origin step_id flow_name (object fs) =
    object
      (set_field (set_field fs (codes "step") (string step_id)) (codes "flow") (string flow_name))
with_origin step_id flow_name v = v

abbrev pub running_run : Timestamp → Text → ℕ → Option Text → StepRecord
running_run now step_id attempt input = record {
  run = record (pending_run step_id) {
    status = StepStatus.running;
    attempt = attempt;
    started_at = some now;
    input_resolved = input;
  };
  job_id = none;
  with_resolved = none;
  failure_detail = none;
}

abbrev pub activation_of :
    Timestamp → RunRecord → StepActivation → Value × Text × Option ℕ → StepRecord × StartRequest
activation_of now run a (resolved, tool, timeout) = (
  record (running_run now a.step_id a.attempt (some a.input)) { with_resolved = some resolved },
  record {
    tool = tool;
    args = with_origin a.step_id run.definition.name resolved;
    timeout_seconds = timeout;
  },
)

module _ (json : SerdeJson) (config : SchedulerConfig) where
  -- The payload with its templates resolved, and the timeout; the tool is always the executor.
  unfoldable pub build_step_request :
      Step
      → TemplateContext
      → FlowDefinition
      → Text
      → Result SchedulerError (Value × Text × Option ℕ)
  unfolding map_template_error
  build_step_request step ctx flow input = elim (kind json step) [
    | none ↦ err (engine (codes "step " ++ (step.id ++ codes " is not executable")))
    | some (StepWith.subflow _) ↦
        err (engine (codes "step " ++ (step.id ++ codes " is not executable")))
    | some (StepWith.cli w) ↦
        map_template_error (resolve_value json ctx step.id (object (request_fields flow w input)))
        >>= λ resolved. step_timeout config step.timeout >>= λ timeout.
            ok (resolved, config.executor_cli_tool, timeout)
  ]

  pub or_unknown_step : Text → Option Step → Result SchedulerError Step
  or_unknown_step id none = err (engine (codes "unknown step " ++ id))
  or_unknown_step id (some step) = ok step

  -- The row and the request of one activation.
  unfoldable pub build_activation :
      Timestamp → RunRecord → StepActivation → Result SchedulerError (StepRecord × StartRequest)
  unfolding or_unknown_step
  build_activation now run a =
      or_unknown_step a.step_id (flow_step run.definition a.step_id) >>= λ step.
      build_step_request step (build_context run.definition (run_state run) null) run.definition
        a.input
      >>= λ built. ok (activation_of now run a built)

  -- The loop over the activations.
  unfoldable pub build_activations :
      Timestamp
      → RunRecord
      → List StepActivation
      → Result SchedulerError (List (StepActivation × StepRecord × StartRequest))
  unfolding build_activation
  build_activations now run [] = ok []
  build_activations now run (a ∷ r) = build_activation now run a >>= λ (row, request).
      build_activations now run r >>= λ later. ok ((a, row, request) ∷ later)
