-- ===== src/Examples/Engine.antt =====
-- The theorems on the engine, at one run of the sample flow.
use flowspec_devkitd.Flow.Dag.{entry_steps, steps_with_incoming_edges}
use flowspec_devkitd.Base.Map.{get, insert}
use flowspec_devkitd.Base.Strings.{trim, split_once, contains, split}
use flowspec_devkitd.Template.{resolve, whole_span, resolve_path, build_context, render_value}
use flowspec_devkitd.Flow.Types.{Step, FlowDefinition, kind}
use mathlib.Core.Option
use mathlib.Core.List.Memᴰ
use flowspec_devkitd.Run.Engine.Activation.{is_ready}
use flowspec_devkitd.Json.{null}
use flowspec_devkitd.Base.{
  ◌≡◌, ◌≢◌, ◌⊎◌, refl, codes, List, [], ◌∷◌, none, ok, Memᴰ, arith, filter, ◌==◌, map,
  if◌then◌else◌,
}
use flowspec_devkitd.Run.Types.{
  RunState, Command, RunPhase, StepStatus, Event, is_active, is_terminal,
}
use flowspec_devkitd.Run.Engine.{
  decide, upsert_step, activate_targets, route_targets, activate_target, needs_satisfied,
  activate_step, resolve_input, terminal_commands_if_done,
}
use flowspec_devkitd.Run.Engine.Skipped.{skip, never_run, terminal_commands_if_done-marked}
use flowspec_devkitd.Run.Derive.Phase.{all_terminal}
use flowspec_devkitd.Run.Engine.Commands.{marked_by, started_by, ended_by}
use flowspec_devkitd.Run.Engine.Effect.{effect, Achieves, approved_state, decide-Achieves}
use flowspec_devkitd.Run.Engine.Progress.{
  decide-progress, decide-IsConsistent, start_lem, IsConsistent,
}
use flowspec_devkitd.Run.Engine.Readiness.{Ready, decide-Ready}
use flowspec_devkitd.Run.Engine.Failure.{decide-fails_run}
use flowspec_devkitd.Examples.{
  run_with, state_of, flow_of, cli_step, to_step, sample_json, release, waiting, building, plan_id,
  review_id, build_id, review_step, build_step,
}

abbrev approval : Event
approval = Event.step_approved review_id none

abbrev approval_commands : List Command
approval_commands =
    Command.mark_step_status review_id StepStatus.completed
    ∷ Command.activate_steps
        (record { step_id = build_id; attempt = 1; input = codes "build out" } ∷ [])
    ∷ []

decide-approval : decide sample_json release waiting approval 0 ≡ ok approval_commands
unfolding decide ◌==◌ activate_targets route_targets activate_target needs_satisfied upsert_step
    activate_step kind resolve_input resolve whole_span Option.bind trim split_once resolve_path get
    insert split build_context render_value
decide-approval = refl

decide-Achieves_example :
    Achieves release review_id (effect waiting review_step approval) approval_commands
unfolding ◌==◌
decide-Achieves_example =
    decide-Achieves sample_json release waiting approval 0 review_id review_step approval_commands
      refl refl decide-approval

decide-IsConsistent_example : IsConsistent approval_commands
decide-IsConsistent_example =
    decide-IsConsistent sample_json release waiting approval 0 approval_commands decide-approval

decide-progress_example : (started_by approval_commands ≢ []) ⊎ (ended_by approval_commands ≢ [])
unfolding ◌==◌ upsert_step is_terminal
decide-progress_example =
    decide-progress sample_json release waiting approval 0 review_id review_step approval_commands
      refl refl decide-approval refl

decide-Ready_example :
    Memᴰ build_id (build_id ∷ []) × Ready release (approved_state waiting review_id none) build_id
unfolding ◌==◌ route_targets
decide-Ready_example =
    decide-Ready sample_json release waiting approval 0 review_id review_step approval_commands
      (approved_state waiting review_id none) review_step.on_approve build_id refl refl
      decide-approval refl (Memᴰ.head refl)

abbrev start_commands : List Command
start_commands =
    Command.activate_steps (record { step_id = plan_id; attempt = 1; input = codes "plan it" } ∷ [])
    ∷ []

decide_start : decide sample_json release (state_of []) Event.run_started 0 ≡ ok start_commands
unfolding decide activate_targets entry_steps get steps_with_incoming_edges ◌==◌ insert
    activate_target needs_satisfied activate_step kind resolve_input resolve whole_span Option.bind
    trim contains
decide_start = refl

start_lem_example :
    (started_by start_commands ≡ filter (is_ready release (state_of [])) (entry_steps release))
    × (ended_by start_commands ≡ [])
start_lem_example = start_lem sample_json release (state_of []) 0 start_commands decide_start

decide-fails_run_example :
    (cs : List Command) × (decide sample_json release building
        (Event.step_failed build_id (codes "exit 1"))
        0
      ≡ ok cs)
    × (started_by cs ≡ [])
    × (ended_by cs ≡ RunPhase.failed ∷ [])
unfolding ◌==◌ is_active is_terminal
decide-fails_run_example =
    decide-fails_run sample_json release building build_id (codes "exit 1") 0 build_step refl refl
      (omega arith) refl refl

-- Two steps whose templates name nothing.
abbrev plain_plan : Step
plain_plan = record (cli_step plan_id (codes "plan it")) { on_success = to_step build_id }

abbrev plain_build : Step
plain_build = cli_step build_id (codes "build it")

abbrev plain : FlowDefinition
plain = flow_of (plain_plan ∷ plain_build ∷ [])

completion : Event
completion = Event.step_completed plan_id null

-- Only the plan has run, and it has failed.
abbrev plan_failed : RunState
plan_failed = state_of (run_with plan_id StepStatus.failed ∷ [])

terminal_commands_if_done-marked_example :
    marked_by (terminal_commands_if_done release plan_failed)
    ≡ (if all_terminal plan_failed then map skip (never_run release plan_failed) else [])
terminal_commands_if_done-marked_example = terminal_commands_if_done-marked release plan_failed

-- The marked steps are the review and the build.
skipped_steps :
    map skip (never_run release plan_failed)
    ≡ (review_id, StepStatus.skipped) ∷ (build_id, StepStatus.skipped) ∷ []
unfolding ◌==◌
skipped_steps = refl
