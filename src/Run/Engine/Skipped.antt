-- ===== src/Run/Engine/Skipped.antt =====
-- What the end of a run marks: the steps that never ran.
use flowspec_devkitd.Base.{
  not, ◌≡◌, refl, Text, List, [], ◌∷◌, map, filter, flat_map-append, append-nil, arith,
  if◌then◌else◌, is_some,
}
use flowspec_devkitd.Flow.Types.{FlowDefinition, Step, HookCall}
use flowspec_devkitd.Run.Types.{Command, RunState, RunPhase, StepStatus, HookPhase, state_step}
use flowspec_devkitd.Run.Derive.{phase}
use flowspec_devkitd.Run.Derive.Phase.{all_terminal}
use flowspec_devkitd.Run.Engine.{
  finish_commands, terminal_commands_if_done, hooks_command, due_hooks,
}
use flowspec_devkitd.Run.Engine.Commands.{marked, marked_by}

-- The steps of the flow that have no run.
abbrev pub never_run : FlowDefinition → RunState → List Step
never_run flow state = filter (λ s. not (is_some (state_step state s.id))) flow.steps

abbrev pub skip : Step → Text × StepStatus
skip s = (s.id, StepStatus.skipped)

marked-skips :
    (steps : List Step)
    → marked_by (map (λ (s : Step). Command.mark_step_status s.id StepStatus.skipped) steps)
      ≡ map skip steps
marked-skips [] = refl
marked-skips (s ∷ r) = ground (arith, marked-skips r)

marked-hooks_command : (at : HookPhase) (hs : List HookCall) → marked_by (hooks_command at hs) ≡ []
marked-hooks_command at [] = refl
marked-hooks_command at (h ∷ hs) = refl

module _ (flow : FlowDefinition) where
  marked-finish_commands : (p : RunPhase) → marked_by (finish_commands flow p) ≡ []
  unfolding finish_commands
  marked-finish_commands RunPhase.running = refl
  marked-finish_commands p =
      let hooks = hooks_command HookPhase.after_run (due_hooks flow p) in
      ground (
        arith,
        marked-hooks_command HookPhase.after_run (due_hooks flow p),
        flat_map-append marked hooks (Command.mark_run_terminal p ∷ []),
      )

  -- Once every step that has a run is terminal, exactly the steps of the flow without a run are
  -- marked, each as skipped and in the order of the flow; before that, none is marked.
  pub terminal_commands_if_done-marked :
      (state : RunState)
      → marked_by (terminal_commands_if_done flow state)
        ≡ (if all_terminal state then map skip (never_run flow state) else [])
  unfolding terminal_commands_if_done
  terminal_commands_if_done-marked state =
      let skips =
        map (λ (s : Step). Command.mark_step_status s.id StepStatus.skipped)
          (never_run flow state) in
      ground (
        arith,
        marked-skips (never_run flow state),
        append-nil (map skip (never_run flow state)),
        marked-finish_commands (phase state),
        flat_map-append marked skips (finish_commands flow (phase state)),
      )
