-- ===== src/App/Scheduler/Tasks.antt =====
-- The tasks that crates/flowspec-app/src/scheduler.rs spawns for a step, the recovery at boot, and
-- the deadline of a run. What devkitd answers is an argument.
use mathlib.Core.Option
use mathlib.Core.Option.{get_or}
use flowspec_devkitd.Base.{
  ℕ, ◌+◌, ◌-◌, Text, codes, List, [], ◌∷◌, ◌++◌, flat_map, find?, Option, none, some, Result, ok,
  err, Partial, returns, panics,
}
use flowspec_devkitd.Json.{Value, null}
use flowspec_devkitd.Flow.Types.{SerdeJson, flow_step}
use flowspec_devkitd.Flow.Schema.{parse_duration}
use flowspec_devkitd.Template.{build_context}
use flowspec_devkitd.Run.Types.{Event, RunPhase, StepActivation, Timestamp}
use flowspec_devkitd.App.Ports.{RunRecord, run_state}
use flowspec_devkitd.App.Wire.{DevkitdError, job_failure, devkitd_error_text}
use flowspec_devkitd.App.Mutations.{Mutation, RunEventType, StoreError, is_attempt}
use flowspec_devkitd.App.Store.{StateStore}
use flowspec_devkitd.App.Recovery.{RecoveryAction, recovery_plan}
use flowspec_devkitd.App.Scheduler.Types.{SchedulerConfig}
use flowspec_devkitd.App.Scheduler.Request.{build_step_request}
use flowspec_devkitd.App.Scheduler.Events.{event_mutation}
use flowspec_devkitd.App.Scheduler.Hooks.{Answer}

-- What a job's end is to the engine.
abbrev pub wait_event : Text → Result DevkitdError Value → Event
wait_event step_id (ok output) = Event.step_completed step_id output
wait_event step_id (err e) = Event.step_failed step_id (devkitd_error_text e)

module _ (S : StateStore) (now : Timestamp) (run_id : Text) where
  -- `let _ = store.apply(.. SetStepFailureDetail ..)`.
  abbrev note_failure : StepActivation → DevkitdError → S.State → S.State
  note_failure a e s =
      (S.apply now run_id
        (Mutation.set_step_failure_detail a.step_id a.attempt (job_failure e) ∷ []) s).1

  abbrev started_mutations : StepActivation → Text → List Mutation
  started_mutations a job_id =
      Mutation.set_job_id a.step_id a.attempt (some job_id)
      ∷ event_mutation now RunEventType.step_started (some a.step_id) null
      ∷ []

  abbrev note_end : StepActivation → Result DevkitdError Value → S.State → S.State
  note_end a (ok output) s = s
  note_end a (err e) s = note_failure a e s

  -- The job id could be stored, or not.
  job_stored :
      StepActivation
      → Result DevkitdError Value
      → Result StoreError (Unit {0}) × S.State
      → S.State × Event
  unfolding job_failure devkitd_error_text
  job_stored a wait (err e, s) = (s, Event.step_failed a.step_id (codes "failed to persist job_id"))
  job_stored a wait (ok _, s) = (note_end a wait s, wait_event a.step_id wait)

  -- The task of `spawn_step_task`: the store that it leaves and the event that it submits.
  unfoldable pub step_task : StepActivation → Answer → S.State → S.State × Event
  unfolding job_stored job_failure devkitd_error_text
  step_task a answer s = elim answer.start [
    | err e ↦ (
      note_failure a e s,
      Event.step_failed a.step_id (codes "start failed: " ++ devkitd_error_text e),
    )
    | ok job_id ↦ job_stored a answer.wait (S.apply now run_id (started_mutations a job_id) s)
  ]

module _ (S : StateStore) (json : SerdeJson) (config : SchedulerConfig) where
  -- `input_resolved` of the attempt, or the empty text.
  abbrev stored_input : RunRecord → Text → ℕ → Text
  stored_input run step_id attempt =
      get_or
        (Option.bind (find? (is_attempt step_id attempt) run.steps) (λ s. s.run.input_resolved)) []

  -- The task of `spawn_reattach_task`: the event that it submits, unless the request that the
  -- attempt was started with cannot be built again.
  unfoldable pub reattach_task :
      Text → Text → ℕ → Result DevkitdError Value → S.State → Option Event
  unfolding build_step_request devkitd_error_text
  reattach_task run_id step_id attempt wait s = elim (S.load_run s run_id) [
    | err _ ↦ none
    | ok run ↦ elim (flow_step run.definition step_id) [
      | none ↦ none
      | some step ↦
          elim (build_step_request json config step
            (build_context run.definition (run_state run) null) run.definition
            (stored_input run step_id attempt)) [
              | err _ ↦ none
              | ok _ ↦ some (wait_event step_id wait)
            ]
    ]
  ]

-- What `recover` does with an action: a job to wait for again, an event, or nothing.
pub data Restart : Type 0 where
  reattach : (run_id step_id : Text) (attempt : ℕ) (job_id : Text) → Restart
  resubmit : (run_id : Text) → Event → Restart

pub restarts : RecoveryAction → List Restart
restarts (RecoveryAction.reattach_step run_id step_id attempt job_id) =
    reattach run_id step_id attempt job_id ∷ []
restarts (RecoveryAction.fail_step run_id step_id attempt reason) =
    resubmit run_id (Event.step_failed step_id (codes "interrupted")) ∷ []
restarts (RecoveryAction.leave_waiting_approval run_id step_id attempt) = []
restarts (RecoveryAction.recheck_subflow run_id step_id attempt child_run_id) = []
restarts (RecoveryAction.reissue_run_started run_id) = resubmit run_id Event.run_started ∷ []

-- The loop of `recover` over the plan, for the runs that the store lists as running. `reattach`
-- spawns a task; `submit` is what the scheduler does to the store with an event.
module _ (S : StateStore) (submit : Text → Event → S.State → S.State) where
  pub carry_out : List Restart → S.State → List Restart × S.State
  carry_out [] s = ([], s)
  carry_out (reattach run_id step_id attempt job_id ∷ rest) s =
      let (tasks, s') = carry_out rest s in (reattach run_id step_id attempt job_id ∷ tasks, s')
  carry_out (resubmit run_id event ∷ rest) s = carry_out rest (submit run_id event s)

  -- The tasks to wait for, and the store.
  unfoldable pub recover : S.State → List Restart × S.State
  unfolding carry_out restarts recovery_plan
  recover s = elim (S.runs_in_phase s RunPhase.running) [
    | err _ ↦ ([], s)
    | ok runs ↦ carry_out (flat_map restarts (recovery_plan runs)) s
  ]

-- The delay until `RunDeadlineExceeded` is submitted, if the flow has a timeout. Instants count
-- seconds here.
unfoldable pub deadline_delay : Timestamp → RunRecord → Partial (Option ℕ)
deadline_delay now run = elim run.definition.timeout [
  | none ↦ returns none
  | some text ↦ elim (parse_duration text) [
    | panics ↦ panics
    | returns none ↦ returns none
    | returns (some secs) ↦ returns (some (run.created_at + secs - now))
  ]
]
