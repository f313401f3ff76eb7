-- ===== src/Run/Derive.antt =====
-- crates/flowspec-domain/src/run/derive.rs: what is derived from the statuses of a run's steps.
pub mod Phase
use flowspec_devkitd.Base.{
  Bool, true, false, ◌&&◌, Text, List, map, filter, all, any, not, if◌then◌else◌,
}
use flowspec_devkitd.Run.Types.{
  RunPhase, RunState, StepRun, is_terminal, is_active, is_cancelled, is_failure,
}

pub phase : RunState → RunPhase
unfolding is_terminal is_cancelled is_failure
phase state =
    if state.cancelled
      && all (λ s. is_terminal s.status) state.steps
      && any (λ s. is_cancelled s.status) state.steps
    then RunPhase.cancelled
    else if not (all (λ s. is_terminal s.status) state.steps)
    then RunPhase.running
    else if any (λ s. is_failure s.status) state.steps
    then RunPhase.failed
    else if any (λ s. is_cancelled s.status) state.steps
    then RunPhase.cancelled
    else RunPhase.completed

-- Step ids that are running, waiting for an approval or waiting on a subflow.
unfoldable pub active_steps : RunState → List Text
unfolding is_active
active_steps state = map (λ s. s.step_id) (filter (λ s. is_active s.status) state.steps)
