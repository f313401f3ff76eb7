-- ===== src/Run/Engine/Failure.antt =====
-- A failure without a retry: every other active step is cancelled, and without a failure route the
-- run fails.
use flowspec_devkitd.Base.{
  ◌<◌, Bool, true, false, ◌&&◌, ◌||◌, ◌≡◌, refl, inl, inr, Text, List, [], ◌∷◌, ◌++◌, map, all, any,
  none, some, arith, if◌then◌else◌, is_some, ok, Bool-cases,
}
use flowspec_devkitd.Flow.Types.{FlowDefinition, Step, SerdeJson, flow_step}
use flowspec_devkitd.Run.Types.{
  Command, RunPhase, RunState, StepRun, StepStatus, Event, Timestamp, is_active, is_terminal,
  is_failure, modify_run, state_step, find_run, pending_run,
}
use flowspec_devkitd.Run.Derive.{phase}
use flowspec_devkitd.Run.Derive.Phase.{all_terminal, any_failure, phase_cases}
use flowspec_devkitd.Run.Engine.{
  decide, on_step_failed, upsert_step, set_status, cancel_active, failed_state, current_attempt,
  route_onward, activate_targets, route_targets, terminal_commands_if_done, cancel_command,
  active_step_ids_excluding,
}
use flowspec_devkitd.Run.Engine.Commands.{started_by, ended_by}
use flowspec_devkitd.Run.Engine.Effect.{effect, follows, decide-Achieves}

-- Each step of the run is active or terminal, so none is `Pending`.
abbrev pub none_pending : RunState → Bool
none_pending state = all (λ s. is_active s.status || is_terminal s.status) state.steps

abbrev cancel_one : StepRun → StepRun
cancel_one s = if is_active s.status then record s { status = StepStatus.cancelled } else s

abbrev note_reason : Text → StepRun → StepRun
note_reason reason s = record s { failure_reason = some reason }

-- A change that keeps the status keeps every test of the statuses.
all-modify_run :
    (p : StepStatus → Bool) (reason id : Text) (runs : List StepRun)
    → all (λ s. p s.status) (modify_run (note_reason reason) id runs) ≡ all (λ s. p s.status) runs
unfolding modify_run
all-modify_run p reason id [] = refl
all-modify_run p reason id (s ∷ r) = ground (arith, all-modify_run p reason id r)

any-modify_run :
    (p : StepStatus → Bool) (reason id : Text) (runs : List StepRun)
    → any (λ s. p s.status) (modify_run (note_reason reason) id runs) ≡ any (λ s. p s.status) runs
unfolding modify_run
any-modify_run p reason id [] = refl
any-modify_run p reason id (s ∷ r) = ground (arith, any-modify_run p reason id r)

cancelled-terminal :
    (runs : List StepRun)
    → all (λ s. is_active s.status || is_terminal s.status) runs ≡ true
    → all (λ s. is_terminal s.status) (map cancel_one runs) ≡ true
unfolding is_active is_terminal
cancelled-terminal [] h = refl
cancelled-terminal (s ∷ r) h = ground (arith, cancelled-terminal r)

cancelled-failure :
    (runs : List StepRun)
    → any (λ s. is_failure s.status) (map cancel_one runs) ≡ any (λ s. is_failure s.status) runs
unfolding is_active is_failure
cancelled-failure [] = refl
cancelled-failure (s ∷ r) = ground (arith, cancelled-failure r)

-- The first run of the step gets the status.
set_status-failure :
    (id : Text) (runs : List StepRun)
    → is_some (find_run runs id) ≡ true
    → any (λ s. is_failure s.status) (modify_run (set_status StepStatus.failed none) id runs) ≡ true
unfolding modify_run is_failure
set_status-failure id [] h = cc
set_status-failure id (s ∷ r) h = ground (arith, set_status-failure id r)

set_status-pending :
    (id : Text) (runs : List StepRun)
    → all (λ s. is_active s.status || is_terminal s.status) runs ≡ true
    → all
        (λ s. is_active s.status || is_terminal s.status)
        (modify_run (set_status StepStatus.failed none) id runs)
      ≡ true
unfolding modify_run is_active is_terminal
set_status-pending id [] h = refl
set_status-pending id (s ∷ r) h = ground (arith, set_status-pending id r)

all-append :
    (p : StepRun → Bool) (runs : List StepRun) (s : StepRun)
    → all p (runs ++ s ∷ []) ≡ (all p runs && p s)
all-append p [] s = ground arith
all-append p (x ∷ r) s = ground (arith, all-append p r s)

any-append :
    (p : StepRun → Bool) (runs : List StepRun) (s : StepRun)
    → any p (runs ++ s ∷ []) ≡ (any p runs || p s)
any-append p [] s = ground arith
any-append p (x ∷ r) s = ground (arith, any-append p r s)

module _ (state : RunState) (id reason : Text) where
  upsert-failure :
      any (λ s. is_failure s.status) (upsert_step state id StepStatus.failed none).steps ≡ true
  unfolding upsert_step
  upsert-failure =
      let new = record (pending_run id) {
        status = StepStatus.failed;
        output = none;
        attempt = 1;
      } in
      elim (Bool-cases (is_some (state_step state id))) [
        | inl e ↦ ground (arith, set_status-failure id state.steps e)
        | inr e ↦
            unfold is_failure in
            ground (arith, any-append (λ s. is_failure s.status) state.steps new)
      ]

  upsert-pending :
      none_pending state ≡ true → none_pending (upsert_step state id StepStatus.failed none) ≡ true
  unfolding upsert_step
  upsert-pending h =
      let new = record (pending_run id) {
        status = StepStatus.failed;
        output = none;
        attempt = 1;
      } in
      elim (Bool-cases (is_some (state_step state id))) [
        | inl e ↦ ground (arith, set_status-pending id state.steps h)
        | inr e ↦
            unfold is_active is_terminal in
            ground
              (arith, all-append (λ s. is_active s.status || is_terminal s.status) state.steps new)
      ]

  -- If no step is pending, every step is then terminal, and one has failed.
  failed_state-terminal :
      none_pending state ≡ true → all_terminal (failed_state state id reason) ≡ true
  unfolding failed_state cancel_active
  failed_state-terminal h =
      let runs = (upsert_step state id StepStatus.failed none).steps in
      rw (all-modify_run is_terminal reason id (map cancel_one runs))
        (cancelled-terminal runs (upsert-pending h))

  failed_state-failure : any_failure (failed_state state id reason) ≡ true
  unfolding failed_state cancel_active
  failed_state-failure =
      let runs = (upsert_step state id StepStatus.failed none).steps in
      rw (any-modify_run is_failure reason id (map cancel_one runs), cancelled-failure runs)
        upsert-failure

  failed_state-flag : (failed_state state id reason).cancelled ≡ state.cancelled
  unfolding failed_state cancel_active upsert_step
  failed_state-flag = ground arith

  failed_state-phase :
      none_pending state ≡ true
      → state.cancelled ≡ false
      → phase (failed_state state id reason) ≡ RunPhase.failed
  failed_state-phase h flag =
      (phase_cases (failed_state state id reason)).2.1
        (failed_state-terminal h, failed_state-failure, ground (arith, failed_state-flag))

-- A failed step that has no retry left and declares no `on_failure` ends the run as failed at once,
-- if the run is not flagged as cancelled and none of its steps is pending.
pub decide-fails_run :
    (json : SerdeJson) (flow : FlowDefinition) (state : RunState) (id reason : Text)
    (now : Timestamp) (step : Step)
    → flow_step flow id ≡ some step
    → step.on_failure ≡ none
    → step.retries < current_attempt state id
    → none_pending state ≡ true
    → state.cancelled ≡ false
    → (cs : List Command) × (decide json flow state (Event.step_failed id reason) now ≡ ok cs)
      × (started_by cs ≡ [])
      × (ended_by cs ≡ RunPhase.failed ∷ [])
unfolding decide on_step_failed route_onward activate_targets route_targets
decide-fails_run json flow state id reason now step declared unrouted exhausted idle flag =
    let next = failed_state state id reason in
    let cs =
      Command.mark_step_status id StepStatus.failed
        ∷ cancel_command (active_step_ids_excluding state id)
      ++ terminal_commands_if_done flow next in
    let ran : decide json flow state (Event.step_failed id reason) now ≡ ok cs = ground arith in
    let achieved =
      decide-Achieves json flow state (Event.step_failed id reason) now id step cs refl declared
        ran in
    let e : effect state step (Event.step_failed id reason) ≡ follows next none = ground arith in
    let (starts, ends) = rw e at achieved in
    (
      cs,
      ran,
      starts,
      ground (
        arith,
        failed_state-terminal state id reason idle,
        failed_state-phase state id reason idle flag,
      ),
    )
