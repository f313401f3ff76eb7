-- ===== src/Run/Engine/Progress.antt =====
-- Safety and progress of single decisions, from the abstract view of `Effect`.
use flowspec_devkitd.Base.{
  ◌≤◌, Bool, true, false, not, ◌≡◌, refl, ◌≢◌, ◌⊎◌, inl, inr, Text, List, [], ◌∷◌, ◌++◌, filter,
  flat_map-append, All, length, none, some, arith, subst, ok, >>=-eq-ok, Bool-cases, Option-cases,
  List-cases,
}
use flowspec_devkitd.Flow.Types.{FlowDefinition, Step, SerdeJson, flow_step}
use flowspec_devkitd.Flow.Dag.{entry_steps}
use flowspec_devkitd.Run.Types.{Command, RunState, RunPhase, Event, HookPhase, Timestamp}
use flowspec_devkitd.Run.Derive.Phase.{all_terminal, phase-eq-running}
use flowspec_devkitd.Run.Engine.{
  Decision, decide, on_run_started, on_deadline_exceeded, on_cancel_requested,
  active_step_ids_excluding, cancel_command, hooks_command, activate_targets, context,
}
use flowspec_devkitd.Run.Engine.Commands.{
  started, ended, started_by, ended_by, started-hooks_command, ended-hooks_command,
}
use flowspec_devkitd.Run.Engine.Activation.{is_ready, activate_targets-started}
use flowspec_devkitd.Run.Engine.Routing.{ready_targets, final_phases}
use flowspec_devkitd.Run.Engine.Effect.{
  Effect, waits, restarts, follows, Achieves, effect, event_step, decide-Achieves,
  started-cancel_command,
}

-- An effect after which nothing has to happen now: an approval is awaited, or another step of the
-- run is not terminal.
abbrev pub rests : Effect → Bool
rests waits = true
rests restarts = false
rests (follows next route) = not (all_terminal next)

Achieves-progress :
    (flow : FlowDefinition) (id : Text) (e : Effect) (cs : List Command)
    → Achieves flow id e cs
    → rests e ≡ false
    → (started_by cs ≢ []) ⊎ (ended_by cs ≢ [])
Achieves-progress flow id waits cs h r = cc
Achieves-progress flow id restarts cs h r = inl (λ z. cc (h.0))
Achieves-progress flow id (follows next route) cs h r =
    elim (List-cases (ready_targets flow next route)) [
      | inl none_ready ↦ inr (λ z. ground (arith))
      | inr (x, more, e) ↦ inl (λ z. ground arith)
    ]

-- A run never stalls on an event about a declared step: if `decide` accepts the event and neither an
-- approval is awaited nor another step is left to run, it starts a step or ends the run.
pub decide-progress :
    (json : SerdeJson) (flow : FlowDefinition) (state : RunState) (event : Event) (now : Timestamp)
    (id : Text) (step : Step) (cs : List Command)
    → event_step event ≡ some id
    → flow_step flow id ≡ some step
    → decide json flow state event now ≡ ok cs
    → rests (effect state step event) ≡ false
    → (started_by cs ≢ []) ⊎ (ended_by cs ≢ [])
decide-progress json flow state event now id step cs about declared h r =
    Achieves-progress flow id (effect state step event) cs
      (decide-Achieves json flow state event now id step cs about declared h) r

-- At most one ending, never in the phase `Running`, and none together with a start.
abbrev pub Consistent : List Text → List RunPhase → Type 0
Consistent starts ends =
    ((starts ≡ []) ⊎ (ends ≡ [])) × (length ends ≤ 1) × All (λ p. p ≢ RunPhase.running) ends

abbrev pub IsConsistent : List Command → Type 0
IsConsistent cs = Consistent (started_by cs) (ended_by cs)

Consistent-final : (state : RunState) → Consistent [] (final_phases state)
Consistent-final state = elim (Bool-cases (all_terminal state)) [
  | inl e ↦ rw e (inl refl, omega arith, (λ running. cc ((phase-eq-running state).0 running), tt))
  | inr e ↦ rw e (inl refl, omega arith, tt)
]

Achieves-IsConsistent :
    (flow : FlowDefinition) (id : Text) (e : Effect) (cs : List Command)
    → Achieves flow id e cs
    → IsConsistent cs
Achieves-IsConsistent flow id waits cs h = rw (h.0, h.1) (inl refl, omega arith, tt)
Achieves-IsConsistent flow id restarts cs h = rw (h.0, h.1) (inr refl, omega arith, tt)
Achieves-IsConsistent flow id (follows next route) cs h =
    elim (List-cases (ready_targets flow next route)) [
      | inl z ↦ rw (h.0, h.1, z) (Consistent-final next)
      | inr (x, more, z) ↦ rw (h.0, h.1, z) (inr refl, omega arith, tt)
    ]

module _ (json : SerdeJson) (flow : FlowDefinition) (state : RunState) where
  -- `RunStarted` starts exactly the entry steps whose `needs:` have all completed, and never ends
  -- the run.
  pub start_lem :
      (now : Timestamp) (cs : List Command)
      → decide json flow state Event.run_started now ≡ ok cs
      → (started_by cs ≡ filter (is_ready flow state) (entry_steps flow)) × (ended_by cs ≡ [])
  unfolding decide on_run_started
  start_lem now cs h =
      let (activations, p, q) =
        >>=-eq-ok (activate_targets json flow state (context flow state) (entry_steps flow)) _ h in
      let hooks = hooks_command HookPhase.before_run flow.lifecycle.before_run in
      ground (
        arith,
        activate_targets-started json flow state (context flow state) (entry_steps flow) activations
            p,
        started-hooks_command HookPhase.before_run flow.lifecycle.before_run,
        ended-hooks_command HookPhase.before_run flow.lifecycle.before_run,
        flat_map-append started hooks activations,
        flat_map-append ended hooks activations,
      )

  -- The commands of an event that stops the run.
  stop_commands : RunPhase → List Command
  stop_commands p =
      cancel_command (active_step_ids_excluding state []) ++ Command.mark_run_terminal p ∷ []

  started-stop_commands :
      (p : RunPhase) → (started_by (stop_commands p) ≡ []) × (ended_by (stop_commands p) ≡ p ∷ [])
  unfolding stop_commands
  started-stop_commands p =
      let ids = active_step_ids_excluding state [] in
      ground (
        arith,
        started-cancel_command ids,
        flat_map-append started (cancel_command ids) (Command.mark_run_terminal p ∷ []),
        flat_map-append ended (cancel_command ids) (Command.mark_run_terminal p ∷ []),
      )

  Consistent-stop : (p : RunPhase) → p ≢ RunPhase.running → IsConsistent (stop_commands p)
  Consistent-stop p h =
      rw ((started-stop_commands p).0, (started-stop_commands p).1) (inl refl, omega arith, (h, tt))

  undeclared :
      (event : Event) (now : Timestamp) (id : Text) (cs : List Command)
      → event_step event ≡ some id
      → flow_step flow id ≡ none
      → decide json flow state event now ≢ ok cs
  unfolding decide
  undeclared event now id cs about missing h = ground arith

  stop-IsConsistent :
      (p : RunPhase) (d : Decision) (cs : List Command)
      → p ≢ RunPhase.running
      → d ≡ ok (stop_commands p)
      → d ≡ ok cs
      → IsConsistent cs
  stop-IsConsistent p d cs h e e' =
      let same : stop_commands p ≡ cs = cc in subst IsConsistent same (Consistent-stop p h)

  run_event-IsConsistent :
      (event : Event) (now : Timestamp) (cs : List Command)
      → event_step event ≡ none
      → decide json flow state event now ≡ ok cs
      → IsConsistent cs
  unfolding decide on_deadline_exceeded on_cancel_requested stop_commands
  run_event-IsConsistent Event.run_started now cs about h =
      rw (start_lem now cs h).1 (inr refl, omega arith, tt)
  run_event-IsConsistent Event.run_deadline_exceeded now cs about h =
      stop-IsConsistent RunPhase.failed _ cs (λ e. cc) refl h
  run_event-IsConsistent Event.cancel_requested now cs about h =
      stop-IsConsistent RunPhase.cancelled _ cs (λ e. cc) refl h
  run_event-IsConsistent (Event.step_completed i output) now cs about h = cc
  run_event-IsConsistent (Event.step_failed i reason) now cs about h = cc
  run_event-IsConsistent (Event.step_approved i comment) now cs about h = cc
  run_event-IsConsistent (Event.step_rejected i feedback) now cs about h = cc
  run_event-IsConsistent (Event.subflow_finished i p outputs) now cs about h = cc

  -- Whatever event `decide` accepts, its commands end the run at most once, never in the phase
  -- `Running`, and never together with the start of a step.
  pub decide-IsConsistent :
      (event : Event) (now : Timestamp) (cs : List Command)
      → decide json flow state event now ≡ ok cs
      → IsConsistent cs
  decide-IsConsistent event now cs h = elim (Option-cases (event_step event)) [
    | inl about ↦ run_event-IsConsistent event now cs about h
    | inr (id, about) ↦ elim (Option-cases (flow_step flow id)) [
      | inl missing ↦ absurd (undeclared event now id cs about missing h)
      | inr (step, declared) ↦
          Achieves-IsConsistent flow id (effect state step event) cs
            (decide-Achieves json flow state event now id step cs about declared h)
    ]
  ]
