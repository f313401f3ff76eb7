-- ===== src/App/Scheduler/Hooks.antt =====
-- The hooks of crates/flowspec-app/src/scheduler.rs: `run_hook`, the loop of `spawn_hook_batch`, and
-- `hook_batch_finished`. What devkitd answers is an argument.
pub mod Laws
use flowspec_devkitd.Base.{
  ℕ, ◌+◌, ◌^◌, leb, Bool, true, false, not, Text, codes, List, [], ◌∷◌, ◌++◌, Option, none, some,
  if◌then◌else◌, Result, ok, err, Partial, returns, panics,
}
use flowspec_devkitd.Json.{Value, Fields, null, object, end, set_field}
use flowspec_devkitd.Flow.Types.{SerdeJson, HookCall}
use flowspec_devkitd.Flow.Schema.{parse_duration}
use flowspec_devkitd.Template.{TemplateError, build_context, resolve_value}
use flowspec_devkitd.Run.Types.{Command, Event, RunPhase, HookPhase, Timestamp}
use flowspec_devkitd.App.Ports.{RunRecord, run_state}
use flowspec_devkitd.App.Wire.{DevkitdError, job_failure, devkitd_error_text}
use flowspec_devkitd.App.Mutations.{
  Mutation, RunEventType, StoreError, HookRunRecord, PortHookPhase, HookStatus, record_hook_run,
}
use flowspec_devkitd.App.Store.{StateStore}
use flowspec_devkitd.App.Scheduler.Types.{SchedulerConfig, StartRequest, Effect, abort_deadline}
use flowspec_devkitd.App.Scheduler.Request.{template_error_text, set_fields}
use flowspec_devkitd.App.Scheduler.Events.{event_mutation, reason_payload}
use flowspec_devkitd.App.Scheduler.Drive.{Outcome, run_locked_commands, next_events}

pub map_hook_phase : HookPhase → PortHookPhase
map_hook_phase HookPhase.before_run = PortHookPhase.before_run
map_hook_phase HookPhase.after_run = PortHookPhase.after_run
map_hook_phase (HookPhase.before_step id) = PortHookPhase.before_step
map_hook_phase (HookPhase.after_step id) = PortHookPhase.after_step

-- The key of a batch in `hook_inflight`.
unfoldable pub hook_phase_key : HookPhase → Text
hook_phase_key HookPhase.before_run = codes "before_run"
hook_phase_key HookPhase.after_run = codes "after_run"
hook_phase_key (HookPhase.before_step id) = codes "before_step:" ++ id
hook_phase_key (HookPhase.after_step id) = codes "after_step:" ++ id

abbrev pub phase_step : HookPhase → Option Text
phase_step (HookPhase.before_step id) = some id
phase_step (HookPhase.after_step id) = some id
phase_step _ = none

-- Whether a failing hook ends its batch.
pub aborts : HookPhase → HookCall → Bool
aborts HookPhase.before_run hook = not hook.always_continue
aborts (HookPhase.before_step id) hook = true
aborts (HookPhase.after_step id) hook = true
aborts HookPhase.after_run hook = false

-- What devkitd answers to one job: `start`, and `wait` on the job that it started.
pub record Answer : Type 0 where
  pub start : Result DevkitdError Text
  pub wait : Result DevkitdError Value

-- What `run_hook` is called with, and the three times that it reads.
pub record HookRun : Type 0 where
  pub phase : HookPhase
  pub hook : HookCall
  pub started_at : Timestamp
  pub waited_at : Timestamp
  pub completed_at : Timestamp

-- The closure `record_failure`.
abbrev pub failed_row : HookRun → Option Value → Option Text → DevkitdError → HookRunRecord
failed_row r args job_id e = record {
  hook = r.hook.hook;
  phase = map_hook_phase r.phase;
  step_id = phase_step r.phase;
  status = HookStatus.failed;
  started_at = r.started_at;
  completed_at = some r.completed_at;
  args_resolved = args;
  output_ref = none;
  failure_reason = some (devkitd_error_text e);
  failure_detail = some (job_failure e);
  job_id = job_id;
}

-- The row of a hook whose job was started.
pub waited_row : HookRun → Value → Text → Result DevkitdError Value → HookRunRecord
unfolding map_hook_phase devkitd_error_text job_failure
waited_row r args job_id (err e) = failed_row r (some args) (some job_id) e
waited_row r args job_id (ok output) = record {
  hook = r.hook.hook;
  phase = map_hook_phase r.phase;
  step_id = phase_step r.phase;
  status = HookStatus.completed;
  started_at = r.started_at;
  completed_at = some r.completed_at;
  args_resolved = some args;
  output_ref = none;
  failure_reason = none;
  failure_detail = none;
  job_id = some job_id;
}

-- A template that does not resolve counts as a failing tool.
abbrev pub template_failure : TemplateError → DevkitdError
template_failure e = DevkitdError.tool_error [] (template_error_text e) 1

abbrev pub hook_timeout : HookCall → Partial (Option ℕ)
hook_timeout hook = elim hook.timeout [ none ↦ returns none | some t ↦ parse_duration t ]

-- A `SystemTime` counts seconds below `2 ^ 63`, and its `+` panics beyond.
abbrev pub system_time_limit : ℕ
system_time_limit = 2 ^ 63

-- `SystemTime::now() + Duration::from_secs(s)`, if there is a timeout.
abbrev pub deadline_overflows : Timestamp → Option ℕ → Bool
deadline_overflows now none = false
deadline_overflows now (some secs) = leb system_time_limit (now + secs)

module _ (S : StateStore) (json : SerdeJson) (run_id : Text) where
  -- `let _ = store.apply(..)`: the row is written if it can be.
  pub record_row : Timestamp → HookRunRecord → S.State → S.State
  record_row now row s = (S.apply now run_id (record_hook_run row ∷ []) s).1

  -- The job runs: its deadline, its end, and the row.
  unfoldable pub waited :
      HookRun
      → Value
      → Text
      → Result DevkitdError Value
      → Option ℕ
      → S.State
      → Partial (Result DevkitdError Value) × S.State
  unfolding record_row waited_row
  waited r args job_id answer timeout s =
      if deadline_overflows r.waited_at timeout
      then (panics, s)
      else (returns answer, record_row r.completed_at (waited_row r args job_id answer) s)

  -- From the timeout and `devkitd.start` on.
  unfoldable pub started :
      HookRun
      → Value
      → Answer
      → Partial (Option ℕ)
      → S.State
      → Partial (Result DevkitdError Value) × S.State
  unfolding record_row waited
  started r args answer panics s = (panics, s)
  started r args answer (returns timeout) s = elim answer.start [
    | err e ↦ (returns (err e), record_row r.completed_at (failed_row r (some args) none e) s)
    | ok job_id ↦ waited r args job_id answer.wait timeout s
  ]

  pub resolved :
      HookRun
      → Answer
      → Result TemplateError Value
      → S.State
      → Partial (Result DevkitdError Value) × S.State
  unfolding record_row started map_hook_phase devkitd_error_text job_failure parse_duration
  resolved r answer (err e) s = (
    returns (err (template_failure e)),
    record_row r.completed_at (failed_row r none none (template_failure e)) s,
  )
  resolved r answer (ok args) s = started r args answer (hook_timeout r.hook) s

  -- `panics` comes from `parse_duration`, or from the deadline of a job that is started.
  pub run_hook : HookRun → Answer → S.State → Partial (Result DevkitdError Value) × S.State
  unfolding resolved set_field
  run_hook r answer s = elim (S.load_run s run_id) [
    | err _ ↦ (returns (err DevkitdError.interrupted), s)
    | ok run ↦
        resolved r answer
          (resolve_value json (build_context run.definition (run_state run) null) r.hook.hook
            (object (set_fields end r.hook.args)))
          s
  ]

  -- The loop over the batch: the hook that ends it, with its reason, and the store. `panics` means
  -- that the task died.
  abbrev pub after_hook :
      HookRun
      → Partial (Result DevkitdError Value) × S.State
      → (S.State → Partial (Option (Text × Text)) × S.State)
      → Partial (Option (Text × Text)) × S.State
  after_hook r (panics, s) next = (panics, s)
  after_hook r (returns (ok _), s) next = next s
  after_hook r (returns (err e), s) next =
      if aborts r.phase r.hook
      then (returns (some (r.hook.hook, devkitd_error_text e)), s)
      else next s

  unfoldable pub hook_batch :
      List (HookRun × Answer) → S.State → Partial (Option (Text × Text)) × S.State
  unfolding run_hook aborts devkitd_error_text
  hook_batch [] s = (returns none, s)
  hook_batch ((r, answer) ∷ rest) s = after_hook r (run_hook r answer s) (hook_batch rest)

  -- The run is failed without the engine: a `before_run` hook stopped it.
  abbrev gate_failed : Timestamp → Text → S.State → S.State
  gate_failed now reason s =
      (S.apply now run_id
        (Mutation.set_run_phase RunPhase.failed
          ∷ event_mutation now RunEventType.run_failed none (reason_payload reason)
          ∷ [])
        s).1

  -- The store, the effects, and the events to submit.
  unfoldable pub hook_batch_finished :
      SchedulerConfig
      → Timestamp
      → HookPhase
      → Option (Text × Text)
      → List Command
      → Event
      → S.State
      → S.State × List Effect × List Event
  unfolding run_locked_commands
  hook_batch_finished config now HookPhase.before_run (some (hook, reason)) cs event s =
      (gate_failed now reason s, abort_deadline ∷ [], [])
  hook_batch_finished config now (HookPhase.before_step id) (some (hook, reason)) cs event s =
      (s, [], Event.step_failed id reason ∷ [])
  hook_batch_finished config now (HookPhase.after_step id) (some (hook, reason)) cs event s =
      (s, [], Event.step_failed id reason ∷ [])
  hook_batch_finished config now phase failure cs event s =
      let o = run_locked_commands S json config now run_id event cs s in
      (o.state, o.effects, next_events S json config now run_id o)
