-- ===== src/Examples/Store.antt =====
-- The theorems on phases, stored runs, templates and command lists, at samples.
use mathlib.Core.Option
use flowspec_devkitd.Template.Fuel.{resolve_loop_fuel}
use flowspec_devkitd.Base.{
  ◌≡◌, ◌++◌, false, Text, codes, List, [], ◌∷◌, map, any, none, some, if◌then◌else◌, ◌==◌, ℕ, arith,
}
use flowspec_devkitd.Base.Map.{get}
use flowspec_devkitd.Json.{null, string}
use flowspec_devkitd.Run.Types.{Command, RunPhase, StepStatus, HookPhase, state_step}
use flowspec_devkitd.Run.Derive.{phase}
use flowspec_devkitd.App.Ports.{StepRecord, RunRecord}
use flowspec_devkitd.App.Split.{split_at_hooks}
use flowspec_devkitd.App.Split.Laws.{rest_of, is_run_hooks, split_at_hooks_lem}
use flowspec_devkitd.Template.{build_context, TemplateContext, resolve_loop}
use flowspec_devkitd.Template.Context.{build_context-steps}
use flowspec_devkitd.Examples.{
  release, waiting, run_with, plan_id, build_id, notify_hook, sample_json,
}

abbrev pub stored : Text → StepStatus → ℕ → StepRecord
stored id status attempt = record {
  run = record (run_with id status) { attempt = attempt };
  job_id = some (codes "job-1");
  with_resolved = none;
  failure_detail = none;
}

-- The build has failed once and runs again.
abbrev pub interrupted_run : RunRecord
interrupted_run = record {
  run_id = codes "run-1";
  flow_name = codes "release";
  flow_version = codes "1";
  definition = release;
  inputs = null;
  trigger = null;
  phase = RunPhase.running;
  cancelled = false;
  created_at = 0;
  updated_at = 9;
  idempotency_key = none;
  steps =
      stored plan_id StepStatus.completed 1
      ∷ stored build_id StepStatus.failed 1
      ∷ stored build_id StepStatus.running 2
      ∷ [];
}

abbrev ending : List Command
ending =
    Command.mark_step_status build_id StepStatus.completed
    ∷ Command.run_hooks HookPhase.after_run (notify_hook ∷ [])
    ∷ Command.mark_run_terminal RunPhase.completed
    ∷ []

split_at_hooks_lem_example :
    ((split_at_hooks ending).0 ++ rest_of (split_at_hooks ending).1 ≡ ending)
    × (any is_run_hooks (split_at_hooks ending).0 ≡ false)
split_at_hooks_lem_example = split_at_hooks_lem ending

build_context-steps_example : get (build_context release waiting null).steps plan_id ≡ (
    if any (λ s. s.id == plan_id) release.steps
    then Option.map
        (λ run. record {
          output = run.output;
          feedback = Option.map string run.feedback;
          approval_comment = Option.map string run.approval_comment;
          run = none;
        })
        (state_step waiting plan_id)
    else none)
build_context-steps_example = build_context-steps release waiting null plan_id

abbrev sample_context : TemplateContext
sample_context = build_context release waiting null

abbrev greeting : Text
greeting = codes "a {{ steps.plan.output }} b"

resolve_loop_fuel_example :
    resolve_loop sample_json sample_context build_id 27 [] greeting
    ≡ resolve_loop sample_json sample_context build_id 99 [] greeting
resolve_loop_fuel_example =
    resolve_loop_fuel sample_json sample_context build_id 27 99 [] greeting (omega arith)
      (omega arith)
