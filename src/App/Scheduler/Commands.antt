-- ===== src/App/Scheduler/Commands.antt =====
-- `execute_commands` of crates/flowspec-app/src/scheduler.rs. An error leaves what was written and
-- started before it, so the turn comes back beside it.
use flowspec_devkitd.Base.{
  ℕ, Bool, true, false, ◌&&◌, Text, codes, ◌==◌, List, [], ◌∷◌, ◌++◌, find?, flat_map, is_empty,
  Option, none, some, if◌then◌else◌, Result, ok, err,
}
use flowspec_devkitd.Json.{null}
use flowspec_devkitd.Flow.Types.{SerdeJson}
use flowspec_devkitd.Run.Types.{
  Command, Event, RunPhase, StepStatus, StepActivation, Timestamp, is_terminal, is_active,
}
use flowspec_devkitd.App.Ports.{StepRecord, RunRecord, latest_steps}
use flowspec_devkitd.App.Mutations.{Mutation, RunEventType, StoreError}
use flowspec_devkitd.App.Store.{StateStore}
use flowspec_devkitd.App.Scheduler.Types.{
  SchedulerConfig, StartRequest, SchedulerError, Effect, spawn_step, cancel_job, abort_step,
  clear_liveness, abort_deadline, store, panicked,
}
use flowspec_devkitd.App.Scheduler.Events.{
  event_mutation, event_data, step_completed_output, step_failed_payload, step_attempt,
}
use flowspec_devkitd.App.Scheduler.Request.{build_activations, running_run}

-- What one call of `execute_commands` changes: the store, the world outside, the mutations that
-- are not written yet, and the events to submit next.
pub record Turn (St : Type 0) : Type 0 where
  pub state : St
  pub effects : List Effect
  pub mutations : List Mutation
  pub follow_ons : List Event

abbrev pub Step : Type 0 → Type 0
Step St = Turn St → Result SchedulerError (Unit {0}) × Turn St

module _ {St : Type 0} where
  unfoldable pub continue_by : Result SchedulerError (Unit {0}) → Step St → Step St
  continue_by (ok _) f t = f t
  continue_by (err e) f t = (err e, t)

  -- `f().await?; g`.
  unfoldable pub and_then_do : Step St → Step St → Step St
  unfolding continue_by
  and_then_do f g t = let (r, t') = f t in continue_by r g t'

  abbrev pub done : Step St
  done t = (ok tt, t)

  abbrev pub push : List Mutation → List Effect → Step St
  push ms es t = (ok tt, record t { mutations = t.mutations ++ ms; effects = t.effects ++ es })

-- The mutations that end an attempt of a step.
abbrev pub ending : Timestamp → Text → ℕ → List Mutation
ending now step_id attempt = Mutation.set_step_timestamps step_id attempt none (some now) ∷ []

abbrev is_cancelled_status : StepStatus → Bool
is_cancelled_status StepStatus.cancelled = true
is_cancelled_status _ = false

-- The event of the outbox for a new status.
pub status_event : Timestamp → Event → Text → StepStatus → List Mutation
unfolding step_completed_output step_failed_payload
status_event now event step_id StepStatus.waiting_approval =
    event_mutation now RunEventType.step_waiting_approval (some step_id)
      (step_completed_output event step_id)
    ∷ []
status_event now event step_id StepStatus.completed =
    event_mutation now RunEventType.step_completed (some step_id)
      (step_completed_output event step_id)
    ∷ []
status_event now event step_id StepStatus.failed =
    event_mutation now RunEventType.step_failed (some step_id) (step_failed_payload event step_id)
    ∷ []
status_event now event step_id StepStatus.failed_rejected =
    event_mutation now RunEventType.step_failed (some step_id) (step_failed_payload event step_id)
    ∷ []
status_event now event step_id _ = []

-- What `MarkStepStatus` pushes once the attempt is known.
pub mark_mutations : Timestamp → Event → Text → ℕ → StepStatus → List Mutation
unfolding status_event event_data is_terminal
mark_mutations now event step_id attempt status =
    Mutation.set_step_status step_id attempt status
    ∷ ((if is_terminal status then ending now step_id attempt else [])
        ++ (event_data event step_id attempt ++ status_event now event step_id status))

abbrev pub mark_effects : Text → ℕ → StepStatus → List Effect
mark_effects step_id attempt status =
    if is_terminal status
    then clear_liveness step_id
      ∷ (if is_cancelled_status status then abort_step step_id attempt ∷ [] else [])
    else []

-- The attempt that `CancelSteps` acts on: the latest one, if it is active.
pub active_attempt : RunRecord → Text → Option StepRecord
unfolding is_active
active_attempt run step_id =
    find? (λ s. s.run.step_id == step_id && is_active s.run.status) (latest_steps run.steps)

abbrev pub cancel_mutations : Timestamp → Text → Option StepRecord → List Mutation
cancel_mutations now step_id none = []
cancel_mutations now step_id (some s) =
    Mutation.set_step_status step_id s.run.attempt StepStatus.cancelled
    ∷ ending now step_id s.run.attempt

-- A job that has no id yet is neither cancelled nor its task aborted.
abbrev job_effects : Text → ℕ → Option Text → List Effect
job_effects step_id attempt none = []
job_effects step_id attempt (some job_id) = cancel_job job_id ∷ abort_step step_id attempt ∷ []

abbrev pub cancel_effects : Text → Option StepRecord → List Effect
cancel_effects step_id none = []
cancel_effects step_id (some s) =
    job_effects step_id s.run.attempt s.job_id ++ clear_liveness step_id ∷ []

pub terminal_event : RunPhase → Option RunEventType
terminal_event RunPhase.running = none
terminal_event RunPhase.completed = some RunEventType.run_completed
terminal_event RunPhase.failed = some RunEventType.run_failed
terminal_event RunPhase.cancelled = some RunEventType.run_cancelled

abbrev phase_mutations : RunPhase → List Mutation
phase_mutations RunPhase.cancelled =
    Mutation.set_run_phase RunPhase.cancelled ∷ Mutation.set_run_cancelled ∷ []
phase_mutations p = Mutation.set_run_phase p ∷ []

abbrev pub spawn_all : List (StepActivation × StepRecord × StartRequest) → List Effect
spawn_all [] = []
spawn_all ((a, row, request) ∷ r) = spawn_step a request ∷ spawn_all r

abbrev pub row_mutations :
    Timestamp → List (StepActivation × StepRecord × StartRequest) → List Mutation
row_mutations now [] = []
row_mutations now ((a, row, request) ∷ r) =
    event_mutation now RunEventType.step_activated (some row.run.step_id) null
    ∷ Mutation.insert_step_run row
    ∷ row_mutations now r

module _ (S : StateStore) (now : Timestamp) (run_id : Text) where
  unfoldable pub after_apply :
      List Effect
      → Turn S.State
      → Result StoreError (Unit {0}) × S.State
      → Result SchedulerError (Unit {0}) × Turn S.State
  after_apply es t (err e, s) = (err (store e), record t { state = s; mutations = [] })
  after_apply es t (ok _, s) =
      (ok tt, record t { state = s; mutations = []; effects = t.effects ++ es })

  -- `if !mutations.is_empty() { store.apply(..)?; }`, and the effects behind it.
  unfoldable pub flush : List Effect → Step S.State
  unfolding after_apply
  flush es t =
      if is_empty t.mutations
      then (ok tt, record t { effects = t.effects ++ es })
      else after_apply es t (S.apply now run_id t.mutations t.state)

  module _ (json : SerdeJson) (config : SchedulerConfig) (run : RunRecord) (event : Event) where
    -- The rows are written at once, together with what was pending, and then the tasks start.
    unfoldable pub activated :
        Result SchedulerError (List (StepActivation × StepRecord × StartRequest)) → Step S.State
    unfolding flush
    activated (err e) t = (err e, t)
    activated (ok built) t =
        flush (spawn_all built) (record t { mutations = t.mutations ++ row_mutations now built })

    unfoldable pub activate_steps : List StepActivation → Step S.State
    unfolding activated
    activate_steps activations = activated (build_activations json config now run activations)

    -- The stub for subflows: the step fails at once.
    unfoldable pub start_child_run : Text → Step S.State
    start_child_run step_id t = (
      ok tt,
      record t {
        mutations =
            t.mutations
            ++ (Mutation.insert_step_run (running_run now step_id 1 none)
                ∷ event_mutation now RunEventType.step_waiting_on_subflow (some step_id) null
                ∷ []);
        follow_ons =
            t.follow_ons ++ Event.step_failed step_id (codes "subflows not yet supported") ∷ [];
      },
    )

    -- A skipped step that has no attempt is passed over.
    unfoldable pub marked : Text → StepStatus → Result SchedulerError ℕ → Step S.State
    unfolding mark_mutations
    marked step_id status (ok attempt) =
        push (mark_mutations now event step_id attempt status) (mark_effects step_id attempt status)
    marked step_id StepStatus.skipped (err e) = done
    marked step_id status (err e) = λ t. (err e, t)

    unfoldable pub mark_step : Text → StepStatus → Step S.State
    unfolding step_attempt marked
    mark_step step_id status = marked step_id status (step_attempt run step_id)

    unfoldable pub waits : Text → Result SchedulerError ℕ → Step S.State
    waits step_id (ok attempt) =
        push (Mutation.set_step_status step_id attempt StepStatus.waiting_approval ∷ []) []
    waits step_id (err e) = λ t. (err e, t)

    unfoldable pub wait_approval : Text → Step S.State
    unfolding step_attempt waits
    wait_approval step_id = waits step_id (step_attempt run step_id)

    -- `unreachable!` on the phase `Running`.
    unfoldable pub ended : RunPhase → Option RunEventType → Step S.State
    ended p none = λ t. (err panicked, t)
    ended p (some event_type) =
        push (phase_mutations p ++ event_mutation now event_type none null ∷ [])
          (abort_deadline ∷ [])

    unfoldable pub mark_run : RunPhase → Step S.State
    unfolding terminal_event ended
    mark_run p = ended p (terminal_event p)

    unfoldable pub execute_command : Command → Step S.State
    unfolding activate_steps start_child_run mark_step wait_approval mark_run active_attempt
    execute_command (Command.activate_steps activations) = activate_steps activations
    execute_command (Command.wait_approval step_id) = wait_approval step_id
    execute_command (Command.start_child_run step_id) = start_child_run step_id
    execute_command (Command.run_hooks phase hooks) = done
    execute_command (Command.cancel_steps step_ids) =
        push (flat_map (λ id. cancel_mutations now id (active_attempt run id)) step_ids)
          (flat_map (λ id. cancel_effects id (active_attempt run id)) step_ids)
    execute_command (Command.mark_step_status step_id status) = mark_step step_id status
    execute_command (Command.mark_run_terminal phase) = mark_run phase

    -- The loop, and the write of what is pending behind it.
    unfoldable pub execute_all : List Command → Step S.State
    unfolding execute_command and_then_do flush
    execute_all [] = flush []
    execute_all (c ∷ cs) = and_then_do (execute_command c) (execute_all cs)

    abbrev begin : S.State → Turn S.State
    begin s = record { state = s; effects = []; mutations = []; follow_ons = [] }

    unfoldable pub execute_commands :
        List Command → S.State → Result SchedulerError (Unit {0}) × Turn S.State
    unfolding execute_all
    execute_commands cs s = execute_all cs (begin s)
