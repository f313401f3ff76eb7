-- ===== src/Run/Engine/Effect.antt =====
-- An abstract view of the events about a step: the step waits for an approval, is started again, or
-- one of its routes is followed in the state that the event leads to.
use mathlib.Core.Option.{get_or, some-injective}
use flowspec_devkitd.Base.{
  ◌≡◌, refl, inl, inr, Text, codes, List, [], ◌∷◌, flat_map-append, is_empty, Option, none, some,
  arith, subst, if◌then◌else◌, leb, ok, Result-cases,
}
use flowspec_devkitd.Json.{Value, null}
use flowspec_devkitd.Flow.Types.{FlowDefinition, Step, SerdeJson, RouteTarget, flow_step}
use flowspec_devkitd.Flow.Dag.{is_self_reject_loop}
use flowspec_devkitd.Run.Types.{
  Command, RunState, RunPhase, StepStatus, ApprovalStatus, Event, HookPhase, Timestamp,
}
use flowspec_devkitd.Run.Engine.{
  decide, on_step_completed, on_step_failed, on_step_approved, on_step_rejected,
  on_subflow_finished, upsert_step, update_step, failed_state, rejected_state, current_attempt,
  route_onward, hooks_command, active_step_ids_excluding, cancel_command,
}
use flowspec_devkitd.Run.Engine.Commands.{
  started, ended, started_by, ended_by, started-hooks_command, ended-hooks_command,
}
use flowspec_devkitd.Run.Engine.Routing.{ready_targets, final_phases, route_onward_lem}

pub data Effect : Type 0 where
  waits : Effect
  restarts : Effect
  follows : RunState → Option RouteTarget → Effect

abbrev pub approved_state : RunState → Text → Option Text → RunState
approved_state state id comment =
    update_step (upsert_step state id StepStatus.completed none) id
      (λ s. record s { approval_status = some ApprovalStatus.approved; approval_comment = comment })

-- A completed step waits if a human has to approve it.
abbrev pub completed_effect : RunState → Step → Text → Value → Effect
completed_effect state step id output =
    if step.human_loop
    then waits
    else follows (upsert_step state id StepStatus.completed (some output)) step.on_success

-- A failed step is started again while it has retries left.
abbrev pub failed_effect : RunState → Step → Text → Text → Effect
failed_effect state step id reason =
    if leb (current_attempt state id) step.retries
    then restarts
    else follows (failed_state state id reason) step.on_failure

-- A rejected step is started again if it routes its rejection to itself.
abbrev pub rejected_effect : RunState → Step → Text → Text → Effect
rejected_effect state step id feedback =
    if is_self_reject_loop step
    then restarts
    else follows (rejected_state state id feedback) step.on_reject

-- A subflow that completed completes its step with its outputs, or with null; any other fails it.
abbrev pub finished_effect : RunState → Step → Text → RunPhase → Option Value → Effect
finished_effect state step id RunPhase.completed outputs =
    completed_effect state step id (get_or outputs null)
finished_effect state step id RunPhase.running outputs =
    failed_effect state step id (codes "subflow ended in phase Running")
finished_effect state step id RunPhase.failed outputs =
    failed_effect state step id (codes "subflow ended in phase Failed")
finished_effect state step id RunPhase.cancelled outputs =
    failed_effect state step id (codes "subflow ended in phase Cancelled")

-- The step that an event is about, and what the event does when that step is declared.
abbrev pub event_step : Event → Option Text
event_step (Event.step_completed id _) = some id
event_step (Event.step_failed id _) = some id
event_step (Event.step_approved id _) = some id
event_step (Event.step_rejected id _) = some id
event_step (Event.subflow_finished id _ _) = some id
event_step _ = none

abbrev pub effect : RunState → Step → Event → Effect
effect state step (Event.step_completed id output) = completed_effect state step id output
effect state step (Event.step_failed id reason) = failed_effect state step id reason
effect state step (Event.step_approved id comment) =
    follows (approved_state state id comment) step.on_approve
effect state step (Event.step_rejected id feedback) = rejected_effect state step id feedback
effect state step (Event.subflow_finished id p outputs) = finished_effect state step id p outputs
effect state step _ = waits

-- What an effect on the step `id` means for the commands.
abbrev pub Achieves : FlowDefinition → Text → Effect → List Command → Type 0
Achieves flow id waits cs = (started_by cs ≡ []) × (ended_by cs ≡ [])
Achieves flow id restarts cs = (started_by cs ≡ id ∷ []) × (ended_by cs ≡ [])
Achieves flow id (follows next route) cs =
    (started_by cs ≡ ready_targets flow next route)
    × (ended_by cs ≡ (if is_empty (ready_targets flow next route) then final_phases next else []))

pub started-cancel_command :
    (ids : List Text)
    → (started_by (cancel_command ids) ≡ []) × (ended_by (cancel_command ids) ≡ [])
started-cancel_command [] = (refl, refl)
started-cancel_command (_ ∷ _) = (refl, refl)

module _ (json : SerdeJson) (flow : FlowDefinition) (state : RunState) where
  module _ (id : Text) (step : Step) (declared : flow_step flow id ≡ some step) where
    completed-Achieves :
        (output : Value) (cs : List Command)
        → on_step_completed json flow state id output ≡ ok cs
        → Achieves flow id (completed_effect state step id output) cs
    unfolding on_step_completed
    completed-Achieves output cs h =
        let at = HookPhase.after_step id in
        let next = upsert_step state id StepStatus.completed (some output) in
        let hooks = hooks_command at step.after in
        elim (Result-cases (route_onward json flow next step.on_success)) [
          | inl (more, q) ↦
              let done = Command.mark_step_status id StepStatus.completed in
              let waiting =
                Command.mark_step_status id StepStatus.waiting_approval
                ∷ Command.wait_approval id
                ∷ [] in
              ground (
                arith,
                route_onward_lem json flow next step.on_success more q,
                started-hooks_command at step.after,
                ended-hooks_command at step.after,
                flat_map-append started hooks (done ∷ more),
                flat_map-append ended hooks (done ∷ more),
                flat_map-append started hooks waiting,
                flat_map-append ended hooks waiting,
              )
          | inr (x, q) ↦
              let waiting =
                Command.mark_step_status id StepStatus.waiting_approval
                ∷ Command.wait_approval id
                ∷ [] in
              ground (
                arith,
                started-hooks_command at step.after,
                ended-hooks_command at step.after,
                flat_map-append started hooks waiting,
                flat_map-append ended hooks waiting,
              )
        ]

    failed-Achieves :
        (reason : Text) (cs : List Command)
        → on_step_failed json flow state id reason ≡ ok cs
        → Achieves flow id (failed_effect state step id reason) cs
    unfolding on_step_failed
    failed-Achieves reason cs h =
        let next = failed_state state id reason in
        let cancels = cancel_command (active_step_ids_excluding state id) in
        elim (Result-cases (route_onward json flow next step.on_failure)) [
          | inl (more, q) ↦ ground (
            arith,
            route_onward_lem json flow next step.on_failure more q,
            started-cancel_command (active_step_ids_excluding state id),
            flat_map-append started cancels more,
            flat_map-append ended cancels more,
          )
          | inr (x, q) ↦ ground arith
        ]

    approved-Achieves :
        (comment : Option Text) (cs : List Command)
        → on_step_approved json flow state id comment ≡ ok cs
        → Achieves flow id (follows (approved_state state id comment) step.on_approve) cs
    unfolding on_step_approved
    approved-Achieves comment cs h =
        let next = approved_state state id comment in
        elim (Result-cases (route_onward json flow next step.on_approve)) [
          | inl (more, q) ↦ ground (arith, route_onward_lem json flow next step.on_approve more q)
          | inr (x, q) ↦ ground arith
        ]

    rejected-Achieves :
        (feedback : Text) (cs : List Command)
        → on_step_rejected json flow state id feedback ≡ ok cs
        → Achieves flow id (rejected_effect state step id feedback) cs
    unfolding on_step_rejected
    rejected-Achieves feedback cs h =
        let next = rejected_state state id feedback in
        elim (Result-cases (route_onward json flow next step.on_reject)) [
          | inl (more, q) ↦ ground (arith, route_onward_lem json flow next step.on_reject more q)
          | inr (x, q) ↦ ground arith
        ]

    finished-Achieves :
        (p : RunPhase) (outputs : Option Value) (cs : List Command)
        → on_subflow_finished json flow state id p outputs ≡ ok cs
        → Achieves flow id (finished_effect state step id p outputs) cs
    unfolding on_subflow_finished
    finished-Achieves RunPhase.completed outputs cs h =
        completed-Achieves (get_or outputs null) cs h
    finished-Achieves RunPhase.running outputs cs h = failed-Achieves _ cs h
    finished-Achieves RunPhase.failed outputs cs h = failed-Achieves _ cs h
    finished-Achieves RunPhase.cancelled outputs cs h = failed-Achieves _ cs h

for_declared :
    {i id : Text} (flow : FlowDefinition) (step : Step) (e : Effect) (cs : List Command)
    → i ≡ id
    → (flow_step flow i ≡ some step → Achieves flow i e cs)
    → flow_step flow id ≡ some step
    → Achieves flow id e cs
for_declared flow step e cs same =
    subst (λ j. flow_step flow j ≡ some step → Achieves flow j e cs) same

-- Whenever `decide` accepts an event about a declared step, the commands do what the abstract view
-- says: nothing is started and the run is not ended if the step waits, the step itself is started
-- if it restarts, and else exactly the ready targets of the route are started, and the run ends, in
-- its derived phase, exactly if there are none and every step is terminal.
pub decide-Achieves :
    (json : SerdeJson) (flow : FlowDefinition) (state : RunState) (event : Event) (now : Timestamp)
    (id : Text) (step : Step) (cs : List Command)
    → event_step event ≡ some id
    → flow_step flow id ≡ some step
    → decide json flow state event now ≡ ok cs
    → Achieves flow id (effect state step event) cs
unfolding decide
decide-Achieves json flow state (Event.step_completed i output) now id step cs about declared h =
    for_declared flow step (effect state step (Event.step_completed i output)) cs
      (some-injective _ _ about) (λ d. completed-Achieves json flow state i step d output cs h)
      declared
decide-Achieves json flow state (Event.step_failed i reason) now id step cs about declared h =
    for_declared flow step (effect state step (Event.step_failed i reason)) cs
      (some-injective _ _ about) (λ d. failed-Achieves json flow state i step d reason cs h)
      declared
decide-Achieves json flow state (Event.step_approved i comment) now id step cs about declared h =
    for_declared flow step (effect state step (Event.step_approved i comment)) cs
      (some-injective _ _ about) (λ d. approved-Achieves json flow state i step d comment cs h)
      declared
decide-Achieves json flow state (Event.step_rejected i feedback) now id step cs about declared h =
    for_declared flow step (effect state step (Event.step_rejected i feedback)) cs
      (some-injective _ _ about) (λ d. rejected-Achieves json flow state i step d feedback cs h)
      declared
decide-Achieves json flow state (Event.subflow_finished i p outputs) now id step cs about declared
      h =
    for_declared flow step (effect state step (Event.subflow_finished i p outputs)) cs
      (some-injective _ _ about) (λ d. finished-Achieves json flow state i step d p outputs cs h)
      declared
decide-Achieves json flow state Event.run_started now id step cs about declared h = cc
decide-Achieves json flow state Event.run_deadline_exceeded now id step cs about declared h = cc
decide-Achieves json flow state Event.cancel_requested now id step cs about declared h = cc
