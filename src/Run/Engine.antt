-- ===== src/Run/Engine.antt =====
-- crates/flowspec-domain/src/run/engine.rs: `decide` turns an event into commands. Nothing is
-- executed here.
pub mod Commands
pub mod Activation
pub mod Routing
pub mod Effect
pub mod Progress
pub mod Readiness
pub mod Failure
pub mod Runnable
pub mod Skipped
use mathlib.Core.Option
use mathlib.Core.Option.{get_or}
use flowspec_devkitd.Base.{
  ℕ, ◌+◌, ◌%◌, ◌^◌, Bool, true, false, not, ◌&&◌, Text, codes, ◌==◌, List, [], ◌∷◌, ◌++◌, map,
  Option, none, some, if◌then◌else◌, leb, filter, all, is_empty, is_some, Result, ok, err, ◌>>=◌,
}
use flowspec_devkitd.Json.{Value, null}
use flowspec_devkitd.Flow.Types.{
  FlowDefinition, Step, StepWith, SerdeJson, RouteTarget, HookCall, HookCondition, as_slice,
  done_target, flow_step, kind,
}
use flowspec_devkitd.Flow.Dag.{entry_steps, is_self_reject_loop}
use flowspec_devkitd.Run.Types.{
  RunPhase, StepStatus, StepRun, RunState, ApprovalStatus, Event, Command, HookPhase,
  StepActivation, EngineError, unknown_step, Timestamp, is_terminal, is_active, is_completed,
  pending_run, find_run, state_step, modify_run,
}
use flowspec_devkitd.Run.Derive.{phase}
use flowspec_devkitd.Template.{TemplateContext, build_context, resolve}

abbrev pub Decision : Type 0
Decision = Result EngineError (List Command)

abbrev pub u32_mod : ℕ
u32_mod = 2 ^ 32

-- `attempt + 1` on `u32`, as a release build wraps it.
unfoldable pub next_attempt : ℕ → ℕ
next_attempt attempt = (attempt + 1) % u32_mod

abbrev pub or_unknown {ℓ} : {A : Type ℓ} → Option A → Text → Result EngineError A
or_unknown none id = err (unknown_step id)
or_unknown (some a) id = ok a

-- `map_err(|_| EngineError::UnknownStep(id))`.
abbrev pub map_err {ℓ κ} :
    {E : Type κ} {A : Type ℓ} → Result E A → EngineError → Result EngineError A
map_err (ok a) e = ok a
map_err (err _) e = err e

abbrev pub is_subflow : Option StepWith → Bool
is_subflow (some (StepWith.subflow _)) = true
is_subflow _ = false

abbrev pub input_template : Option StepWith → Text
input_template (some (StepWith.cli w)) = w.input
input_template _ = []

unfoldable pub needs_satisfied : FlowDefinition → RunState → Step → Bool
unfolding is_completed
needs_satisfied flow state step =
    all
      (λ needed.
        is_some (flow_step flow needed)
        && get_or (Option.map (λ s. is_completed s.status) (state_step state needed)) false)
      step.needs

unfoldable pub route_targets : Option RouteTarget → List Text
unfolding as_slice
route_targets none = []
route_targets (some route) = as_slice route

unfoldable pub active_step_ids_excluding : RunState → Text → List Text
unfolding is_active
active_step_ids_excluding state excluding =
    map (λ s. s.step_id)
      (filter (λ s. not (s.step_id == excluding) && is_active s.status) state.steps)

pub all_activated_terminal : RunState → Bool
unfolding is_terminal
all_activated_terminal state = all (λ s. is_terminal s.status) state.steps

pub hook_condition_met : HookCondition → RunPhase → Bool
hook_condition_met HookCondition.always p = true
hook_condition_met HookCondition.succeeded RunPhase.completed = true
hook_condition_met HookCondition.failed RunPhase.failed = true
hook_condition_met HookCondition.cancelled RunPhase.cancelled = true
hook_condition_met _ _ = false

-- `if !hooks.is_empty() { commands.push(RunHooks { phase, hooks }) }`.
abbrev pub hooks_command : HookPhase → List HookCall → List Command
hooks_command at [] = []
hooks_command at (h ∷ hs) = Command.run_hooks at (h ∷ hs) ∷ []

-- `when.unwrap_or_default()`: the default condition is `Succeeded`.
abbrev pub due_hooks : FlowDefinition → RunPhase → List HookCall
due_hooks flow p =
    filter (λ h. hook_condition_met (get_or h.when HookCondition.succeeded) p)
      flow.lifecycle.after_run

finish_commands : FlowDefinition → RunPhase → List Command
finish_commands flow RunPhase.running = []
finish_commands flow p =
    hooks_command HookPhase.after_run (due_hooks flow p) ++ Command.mark_run_terminal p ∷ []

-- Marks the steps that never ran as skipped, then ends the run.
pub terminal_commands_if_done : FlowDefinition → RunState → List Command
unfolding all_activated_terminal finish_commands hook_condition_met
terminal_commands_if_done flow state =
    if not (all_activated_terminal state)
    then []
    else map (λ s. Command.mark_step_status s.id StepStatus.skipped)
        (filter (λ s. not (is_some (state_step state s.id))) flow.steps)
      ++ finish_commands flow (phase state)

abbrev set_status : StepStatus → Option Value → StepRun → StepRun
set_status status none run = record run { status = status }
set_status status (some v) run = record run { status = status; output = some v }

unfoldable pub upsert_step : RunState → Text → StepStatus → Option Value → RunState
unfolding modify_run
upsert_step state id status output =
    if is_some (state_step state id)
    then record state { steps = modify_run (set_status status output) id state.steps }
    else let run = record (pending_run id) { status = status; output = output; attempt = 1 } in
      record state { steps = state.steps ++ run ∷ [] }

abbrev pub update_step : RunState → Text → (StepRun → StepRun) → RunState
update_step state id f = record state { steps = modify_run f id state.steps }

-- The loop that cancels every step that is still active.
pub cancel_active : RunState → RunState
unfolding is_active
cancel_active state = record state {
  steps =
      map (λ s. if is_active s.status then record s { status = StepStatus.cancelled } else s)
        state.steps;
}

-- `{phase:?}`.
phase_debug : RunPhase → Text
phase_debug RunPhase.running = codes "Running"
phase_debug RunPhase.completed = codes "Completed"
phase_debug RunPhase.failed = codes "Failed"
phase_debug RunPhase.cancelled = codes "Cancelled"

abbrev pub attempt_after : RunState → Text → ℕ
attempt_after state id = get_or (Option.map (λ s. next_attempt s.attempt) (state_step state id)) 1

abbrev pub context : FlowDefinition → RunState → TemplateContext
context flow state = build_context flow state null

-- `if !ids.is_empty() { commands.push(CancelSteps(ids)) }`.
abbrev pub cancel_command : List Text → List Command
cancel_command [] = []
cancel_command (id ∷ ids) = Command.cancel_steps (id ∷ ids) ∷ []

-- The state after a failure without a retry: the other active steps are cancelled.
pub failed_state : RunState → Text → Text → RunState
failed_state state id reason =
    update_step (cancel_active (upsert_step state id StepStatus.failed none)) id
      (λ s. record s { failure_reason = some reason })

abbrev pub current_attempt : RunState → Text → ℕ
current_attempt state id = get_or (Option.map (λ s. s.attempt) (state_step state id)) 1

pub rejected_state : RunState → Text → Text → RunState
rejected_state state id feedback =
    update_step (upsert_step state id StepStatus.failed_rejected none) id
      (λ s. record s { approval_status = some ApprovalStatus.rejected; feedback = some feedback })

module _ (json : SerdeJson) where
  unfoldable pub resolve_input : Step → TemplateContext → Result EngineError Text
  resolve_input step ctx =
      map_err (resolve json ctx step.id (input_template (kind json step))) (unknown_step step.id)

  reject_text : Option Text → Step → TemplateContext → Text → Result EngineError Text
  unfolding resolve_input
  reject_text (some template) step ctx feedback =
      map_err (resolve json ctx step.id template) (unknown_step step.id)
  reject_text none step ctx feedback =
      resolve_input step ctx >>= λ original. ok (original ++ (codes "\n\nFeedback: " ++ feedback))

  unfoldable pub resolve_reject_input : Step → TemplateContext → Text → Result EngineError Text
  unfolding reject_text
  resolve_reject_input step ctx feedback = reject_text step.reject_input step ctx feedback

  -- The `match step.kind()` of `activate_targets`. The input of a subflow step is not resolved.
  unfoldable pub activate_step :
      RunState → TemplateContext → Text → Step → Result EngineError Command
  activate_step state ctx target step =
      if is_subflow (kind json step)
      then ok (Command.start_child_run step.id)
      else (resolve_input step ctx >>= λ input. ok (
          Command.activate_steps (
            record { step_id = step.id; attempt = attempt_after state target; input = input }
            ∷ [])))

  module _ (flow : FlowDefinition) where
    -- What one target adds to the commands.
    unfoldable pub activate_target : RunState → TemplateContext → Text → Decision
    activate_target state ctx target =
        if target == done_target
        then ok []
        else (or_unknown (flow_step flow target) target >>= λ step.
            if not (needs_satisfied flow state step)
            then ok []
            else (activate_step state ctx target step >>= λ c. ok (c ∷ [])))

    unfoldable pub activate_targets : RunState → TemplateContext → List Text → Decision
    activate_targets state ctx [] = ok []
    activate_targets state ctx (target ∷ rest) = activate_target state ctx target >>= λ now.
        activate_targets state ctx rest >>= λ later. ok (now ++ later)

    pub on_run_started : RunState → Decision
    on_run_started state =
        activate_targets state (context flow state) (entry_steps flow) >>= λ activations.
        ok (hooks_command HookPhase.before_run flow.lifecycle.before_run ++ activations)

    -- `if activations.is_empty() { terminal_commands_if_done } else { activations }`.
    pub activations_or_finish : RunState → List Command → List Command
    activations_or_finish state [] = terminal_commands_if_done flow state
    activations_or_finish state (c ∷ cs) = c ∷ cs

    pub route_onward : RunState → Option RouteTarget → Decision
    unfolding activations_or_finish
    route_onward next_state route =
        activate_targets next_state (context flow next_state) (route_targets route)
        >>= λ activations. ok (activations_or_finish next_state activations)

    pub on_step_completed : RunState → Text → Value → Decision
    unfolding route_onward
    on_step_completed state id output = or_unknown (flow_step flow id) id >>= λ step.
        let hooks = hooks_command (HookPhase.after_step id) step.after in
        let next_state = upsert_step state id StepStatus.completed (some output) in
        if step.human_loop
        then ok (
            hooks
            ++ Command.mark_step_status id StepStatus.waiting_approval
              ∷ Command.wait_approval id
              ∷ [])
        else (route_onward next_state step.on_success >>= λ more.
            ok (hooks ++ Command.mark_step_status id StepStatus.completed ∷ more))

    pub on_step_failed : RunState → Text → Text → Decision
    unfolding route_onward failed_state
    on_step_failed state id reason = or_unknown (flow_step flow id) id >>= λ step.
        let attempt = current_attempt state id in
        if leb attempt step.retries
        then (resolve_input step (context flow state) >>= λ input. ok (
            (if is_subflow (kind json step)
              then Command.start_child_run id
              else Command.activate_steps
                  (record { step_id = id; attempt = next_attempt attempt; input = input } ∷ []))
            ∷ []))
        else (route_onward (failed_state state id reason) step.on_failure >>= λ more. ok (
            Command.mark_step_status id StepStatus.failed
              ∷ cancel_command (active_step_ids_excluding state id)
            ++ more))

    pub on_step_approved : RunState → Text → Option Text → Decision
    unfolding route_onward
    on_step_approved state id comment = or_unknown (flow_step flow id) id >>= λ step.
        let next_state = update_step (upsert_step state id StepStatus.completed none) id (λ s.
          record s {
            approval_status = some ApprovalStatus.approved;
            approval_comment = comment;
          }) in
        route_onward next_state step.on_approve >>= λ more.
        ok (Command.mark_step_status id StepStatus.completed ∷ more)

    -- The last write of the source, which sets the step to `Running` in a copy of the state that
    -- nothing reads again, is left out.
    pub on_step_rejected : RunState → Text → Text → Decision
    unfolding route_onward rejected_state
    on_step_rejected state id feedback = or_unknown (flow_step flow id) id >>= λ step.
        let next_state = rejected_state state id feedback in
        (if is_self_reject_loop step
          then (resolve_reject_input step (context flow next_state) feedback >>= λ input. ok (
              (if is_subflow (kind json step)
                then Command.start_child_run id
                else Command.activate_steps
                    (record { step_id = id; attempt = attempt_after state id; input = input } ∷ []))
              ∷ []))
          else route_onward next_state step.on_reject)
        >>= λ more. ok (Command.mark_step_status id StepStatus.failed_rejected ∷ more)

    pub on_subflow_finished : RunState → Text → RunPhase → Option Value → Decision
    unfolding on_step_completed on_step_failed phase_debug
    on_subflow_finished state id RunPhase.completed outputs =
        on_step_completed state id (get_or outputs null)
    on_subflow_finished state id p outputs =
        on_step_failed state id (codes "subflow ended in phase " ++ phase_debug p)

    pub on_deadline_exceeded : RunState → Decision
    on_deadline_exceeded state = ok (
        cancel_command (active_step_ids_excluding state [])
        ++ Command.mark_run_terminal RunPhase.failed ∷ [])

    pub on_cancel_requested : RunState → Decision
    on_cancel_requested state = ok (
        cancel_command (active_step_ids_excluding state [])
        ++ Command.mark_run_terminal RunPhase.cancelled ∷ [])

    unfoldable pub decide : RunState → Event → Timestamp → Decision
    unfolding on_run_started on_step_completed on_step_failed on_step_approved on_step_rejected
        on_subflow_finished on_deadline_exceeded on_cancel_requested
    decide state Event.run_started now = on_run_started state
    decide state (Event.step_completed id output) now = on_step_completed state id output
    decide state (Event.step_failed id reason) now = on_step_failed state id reason
    decide state (Event.step_approved id comment) now = on_step_approved state id comment
    decide state (Event.step_rejected id feedback) now = on_step_rejected state id feedback
    decide state (Event.subflow_finished id p outputs) now = on_subflow_finished state id p outputs
    decide state Event.run_deadline_exceeded now = on_deadline_exceeded state
    decide state Event.cancel_requested now = on_cancel_requested state
