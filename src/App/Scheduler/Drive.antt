-- ===== src/App/Scheduler/Drive.antt =====
-- `drive_commands`, `run_locked_event`, `run_locked_commands` and `submit` of
-- crates/flowspec-app/src/scheduler.rs. The per-run mutex makes each event one step.
use flowspec_devkitd.Base.{
  ℕ, zero, suc, Bool, true, false, Text, codes, List, [], ◌∷◌, ◌++◌, Option, none, some,
  if◌then◌else◌, Result, ok, err,
}
use flowspec_devkitd.Flow.Types.{SerdeJson}
use flowspec_devkitd.Run.Types.{
  Command, Event, RunPhase, EngineError, illegal_transition, unknown_step, Timestamp, StepStatus,
}
use flowspec_devkitd.Run.Engine.{decide}
use flowspec_devkitd.App.Ports.{RunRecord, run_state}
use flowspec_devkitd.App.Mutations.{StoreError}
use flowspec_devkitd.App.Store.{StateStore}
use flowspec_devkitd.App.Split.{HooksContinuation, split_at_hooks}
use flowspec_devkitd.App.Scheduler.Types.{
  SchedulerConfig, SchedulerError, Effect, spawn_hooks, store, engine,
}
use flowspec_devkitd.App.Scheduler.Commands.{Turn, execute_commands}

-- What one locked turn leaves behind: its result, the store, and the effects.
pub record Outcome (St : Type 0) : Type 0 where
  pub result : Result SchedulerError (List Event)
  pub state : St
  pub effects : List Effect

-- `scheduler.rs` has its own test on phases.
unfoldable pub is_terminal_phase : RunPhase → Bool
is_terminal_phase RunPhase.running = false
is_terminal_phase _ = true

-- `{:?}` of a status.
status_debug : StepStatus → Text
status_debug StepStatus.pending = codes "Pending"
status_debug StepStatus.running = codes "Running"
status_debug StepStatus.waiting_approval = codes "WaitingApproval"
status_debug StepStatus.waiting_on_subflow = codes "WaitingOnSubflow"
status_debug StepStatus.completed = codes "Completed"
status_debug StepStatus.failed = codes "Failed"
status_debug StepStatus.failed_rejected = codes "FailedRejected"
status_debug StepStatus.skipped = codes "Skipped"
status_debug StepStatus.cancelled = codes "Cancelled"

unfoldable pub engine_error_text : EngineError → Text
unfolding status_debug
engine_error_text (illegal_transition step from to) =
    codes "illegal transition for step '"
    ++ (step ++ (codes "': " ++ (status_debug from ++ (codes " -> " ++ status_debug to))))
engine_error_text (unknown_step id) =
    codes "unknown step '" ++ (id ++ codes "' referenced by event")

module _ (S : StateStore) (json : SerdeJson) (config : SchedulerConfig) (now : Timestamp)
    (run_id : Text) where
  abbrev pub nothing : S.State → Outcome S.State
  nothing s = record { result = ok []; state = s; effects = [] }

  abbrev pub fails : SchedulerError → S.State → Outcome S.State
  fails e s = record { result = err e; state = s; effects = [] }

  -- The follow-ons count only if no hooks were split off.
  unfoldable pub finish :
      Event
      → Option HooksContinuation
      → Result SchedulerError (Unit {0}) × Turn S.State
      → Outcome S.State
  finish event rest (err e, t) = record { result = err e; state = t.state; effects = t.effects }
  finish event none (ok _, t) = record {
    result = ok t.follow_ons;
    state = t.state;
    effects = t.effects;
  }
  finish event (some k) (ok _, t) = record {
    result = ok [];
    state = t.state;
    effects = t.effects ++ spawn_hooks event k.phase k.hooks k.tail ∷ [];
  }

  unfoldable pub drive_commands : Event → RunRecord → List Command → S.State → Outcome S.State
  unfolding finish split_at_hooks execute_commands
  drive_commands event run commands s =
      let (pre, rest) = split_at_hooks commands in
      finish event rest (execute_commands S now run_id json config run event pre s)

  unfoldable pub locked :
      Result StoreError RunRecord → (RunRecord → Outcome S.State) → S.State → Outcome S.State
  locked (err e) f s = fails (store e) s
  locked (ok run) f s = if is_terminal_phase run.phase then nothing s else f run

  unfoldable pub decided :
      Event → RunRecord → Result EngineError (List Command) → S.State → Outcome S.State
  unfolding drive_commands
  decided event run (err e) s = fails (engine (engine_error_text e)) s
  decided event run (ok commands) s = drive_commands event run commands s

  unfoldable pub run_locked_event : Event → S.State → Outcome S.State
  unfolding locked decided is_terminal_phase
  run_locked_event event s =
      locked (S.load_run s run_id)
        (λ run. decided event run (decide json run.definition (run_state run) event now) s) s

  unfoldable pub run_locked_commands : Event → List Command → S.State → Outcome S.State
  unfolding locked drive_commands is_terminal_phase
  run_locked_commands event continuation s =
      locked (S.load_run s run_id) (λ run. drive_commands event run continuation s) s

  -- The events that a turn leaves to be submitted. An error is only logged.
  abbrev pub next_events : Outcome S.State → List Event
  next_events o = elim o.result [ ok events ↦ events | err _ ↦ [] ]

  -- One `submit` without its follow-ons. Nothing happens after a shutdown.
  unfoldable pub turn : Bool → Event → S.State → Outcome S.State
  unfolding run_locked_event
  turn stopped event s = if stopped then nothing s else run_locked_event event s

  -- `submit` of a list of events, each with all that follows from it before the next. `none` means
  -- that the fuel, one unit for each turn, ran out. `shutdown n` is what the token says when `n`
  -- units are left after the turn: each call of `submit`, also of a follow-on, tests it again.
  unfoldable pub submit_all :
      (ℕ → Bool) → ℕ → List Event → S.State → List Effect → Option (S.State × List Effect)
  unfolding turn
  submit_all shutdown fuel [] s effects = some (s, effects)
  submit_all shutdown zero (event ∷ rest) s effects = none
  submit_all shutdown (suc fuel) (event ∷ rest) s effects =
      let o = turn (shutdown fuel) event s in
      submit_all shutdown fuel (next_events o ++ rest) o.state (effects ++ o.effects)

  unfoldable pub submit : (ℕ → Bool) → ℕ → Event → S.State → Option (S.State × List Effect)
  unfolding submit_all
  submit shutdown fuel event s = submit_all shutdown fuel (event ∷ []) s []
