-- ===== src/Run/Derive/Phase.antt =====
-- When a run has which phase, in terms of its steps.
use flowspec_devkitd.Base.{Bool, true, false, ◌&&◌, ◌≡◌, ◌↔◌, ◌⊎◌, all, any, arith}
use flowspec_devkitd.Run.Types.{RunPhase, RunState, is_terminal, is_cancelled, is_failure}
use flowspec_devkitd.Run.Derive.{phase}

abbrev pub all_terminal : RunState → Bool
all_terminal state = all (λ s. is_terminal s.status) state.steps

abbrev pub any_failure : RunState → Bool
any_failure state = any (λ s. is_failure s.status) state.steps

abbrev pub any_cancelled : RunState → Bool
any_cancelled state = any (λ s. is_cancelled s.status) state.steps

pub phase-eq-running :
    (state : RunState) → (phase state ≡ RunPhase.running) ↔ (all_terminal state ≡ false)
unfolding phase
phase-eq-running state = ground arith

pub phase_cases :
    (state : RunState)
    → ((phase state ≡ RunPhase.running) ↔ (all_terminal state ≡ false))
      × ((phase state ≡ RunPhase.completed) ↔ (
          (all_terminal state ≡ true)
          × (any_failure state ≡ false)
          × (any_cancelled state ≡ false)))
      × ((phase state ≡ RunPhase.failed) ↔ (
          (all_terminal state ≡ true)
          × (any_failure state ≡ true)
          × ((state.cancelled && any_cancelled state) ≡ false)))
      × ((phase state ≡ RunPhase.cancelled) ↔ (
          (all_terminal state ≡ true)
          × (any_cancelled state ≡ true)
          × ((state.cancelled ≡ true) ⊎ (any_failure state ≡ false))))
unfolding phase
phase_cases state = (ground arith, ground arith, ground arith, ground arith)
