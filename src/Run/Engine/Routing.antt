-- ===== src/Run/Engine/Routing.antt =====
-- What each step event starts and ends: the routes are followed in the state that the event leads
-- to, and the run ends when nothing starts and every step is terminal.
use flowspec_devkitd.Base.{
  not, ◌≡◌, refl, ◌≢◌, inl, inr, Text, List, [], ◌∷◌, map, filter, flat_map-append, is_empty,
  List-cases, Option, arith, if◌then◌else◌, is_some, ok, >>=-eq-ok,
}
use flowspec_devkitd.Flow.Types.{FlowDefinition, Step, SerdeJson, RouteTarget}
use flowspec_devkitd.Run.Types.{Command, RunState, state_step, RunPhase, StepStatus, HookPhase}
use flowspec_devkitd.Run.Derive.{phase}
use flowspec_devkitd.Run.Derive.Phase.{all_terminal, phase-eq-running}
use flowspec_devkitd.Run.Engine.{
  finish_commands, terminal_commands_if_done, activate_targets, context, route_targets,
  route_onward, finish_commands, hooks_command, due_hooks,
}
use flowspec_devkitd.Run.Engine.Commands.{
  started, ended, started_by, ended_by, started-hooks_command, ended-hooks_command,
}
use flowspec_devkitd.Run.Engine.Activation.{is_ready, activate_targets-started}

-- The targets of a route that are started in a state.
abbrev pub ready_targets : FlowDefinition → RunState → Option RouteTarget → List Text
ready_targets flow state route = filter (is_ready flow state) (route_targets route)

-- The phases in which the run ends if nothing is started.
abbrev pub final_phases : RunState → List RunPhase
final_phases state = if all_terminal state then phase state ∷ [] else []

started-skips :
    (steps : List Step)
    → (started_by (map (λ (s : Step). Command.mark_step_status s.id StepStatus.skipped) steps) ≡ [])
      × (ended_by (map (λ (s : Step). Command.mark_step_status s.id StepStatus.skipped) steps) ≡ [])
started-skips [] = (refl, refl)
started-skips (s ∷ r) = started-skips r

module _ (flow : FlowDefinition) where
  started-finish :
      (p : RunPhase)
      → (started_by (finish_commands flow p) ≡ [])
        × (p ≢ RunPhase.running → ended_by (finish_commands flow p) ≡ p ∷ [])
  unfolding finish_commands
  started-finish RunPhase.running = (refl, λ h. absurd (h refl))
  started-finish p =
      let hooks = hooks_command HookPhase.after_run (due_hooks flow p) in
      ground (
        arith,
        started-hooks_command HookPhase.after_run (due_hooks flow p),
        ended-hooks_command HookPhase.after_run (due_hooks flow p),
        flat_map-append started hooks (Command.mark_run_terminal p ∷ []),
        flat_map-append ended hooks (Command.mark_run_terminal p ∷ []),
      )

  pub started-terminal :
      (state : RunState)
      → (started_by (terminal_commands_if_done flow state) ≡ [])
        × (ended_by (terminal_commands_if_done flow state) ≡ final_phases state)
  unfolding terminal_commands_if_done
  started-terminal state =
      let unrun = filter (λ (s : Step). not (is_some (state_step state s.id))) flow.steps in
      let skips = map (λ (s : Step). Command.mark_step_status s.id StepStatus.skipped) unrun in
      let last = finish_commands flow (phase state) in
      ground (
        arith,
        started-skips unrun,
        started-finish (phase state),
        phase-eq-running state,
        flat_map-append started skips last,
        flat_map-append ended skips last,
      )

module _ (json : SerdeJson) (flow : FlowDefinition) where
  -- A route starts its ready targets; the run ends exactly if there are none and all is terminal.
  pub route_onward_lem :
      (state : RunState) (route : Option RouteTarget) (cs : List Command)
      → route_onward json flow state route ≡ ok cs
      → (started_by cs ≡ ready_targets flow state route)
        × (ended_by cs
            ≡ (if is_empty (ready_targets flow state route) then final_phases state else []))
  unfolding route_onward
  route_onward_lem state route cs h =
      let (activations, p, q) =
        >>=-eq-ok (activate_targets json flow state (context flow state) (route_targets route)) _
          h in
      let (s, e, n) =
        activate_targets-started json flow state _ (route_targets route) activations p in
      elim (List-cases activations) [
        | inl z ↦ ground (arith, started-terminal flow state)
        | inr (x, r, z) ↦ ground arith
      ]
