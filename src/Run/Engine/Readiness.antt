-- ===== src/Run/Engine/Readiness.antt =====
-- Fan-in: a step that a route starts is declared, and everything that it needs has completed.
use mathlib.Core.Option.{get_or}
use mathlib.Core.Option
use flowspec_devkitd.Base.{
  true, false, ◌&&◌, ◌≡◌, ◌≢◌, inl, inr, Text, ==_iff, List, filter, Option, some, arith, is_some,
  ok, Option-cases, Memᴰ, mem-filter, all_iff,
}
use flowspec_devkitd.Flow.Types.{
  FlowDefinition, Step, SerdeJson, RouteTarget, flow_step, done_target,
}
use flowspec_devkitd.Run.Types.{
  Command, RunState, StepRun, StepStatus, Event, Timestamp, is_completed, state_step,
}
use flowspec_devkitd.Run.Engine.{decide, needs_satisfied, route_targets}
use flowspec_devkitd.Run.Engine.Commands.{started_by}
use flowspec_devkitd.Run.Engine.Activation.{is_ready}
use flowspec_devkitd.Run.Engine.Effect.{follows, effect, event_step, decide-Achieves}

-- A step that is declared in the flow and has completed in the run.
pub record HasCompleted (flow : FlowDefinition) (state : RunState) (id : Text) : Type 0 where
  pub step : Step
  pub declared : flow_step flow id ≡ some step
  pub run : StepRun
  pub recorded : state_step state id ≡ some run
  pub status : run.status ≡ StepStatus.completed

pub record Ready (flow : FlowDefinition) (state : RunState) (id : Text) : Type 0 where
  pub step : Step
  pub not_done : id ≢ done_target
  pub declared : flow_step flow id ≡ some step
  pub needs_met : (needed : Text) → Memᴰ needed step.needs → HasCompleted flow state needed

module _ (flow : FlowDefinition) (state : RunState) where
  completed_status :
      (status : StepStatus) → is_completed status ≡ true → status ≡ StepStatus.completed
  unfolding is_completed
  completed_status status h = ground arith

  need-HasCompleted :
      (id : Text)
      → (is_some (flow_step flow id)
          && get_or (Option.map (λ s. is_completed s.status) (state_step state id)) false)
        ≡ true
      → HasCompleted flow state id
  need-HasCompleted id h = elim (Option-cases (flow_step flow id)) [
    | inl e ↦ absurd (ground arith)
    | inr (step, e) ↦ elim (Option-cases (state_step state id)) [
      | inl q ↦ absurd (ground arith)
      | inr (run, q) ↦
          let done : is_completed run.status ≡ true = ground arith in
          record {
            step = step;
            declared = e;
            run = run;
            recorded = q;
            status = completed_status run.status done;
          }
    ]
  ]

  pub is_ready-Ready : (id : Text) → is_ready flow state id ≡ true → Ready flow state id
  unfolding needs_satisfied
  is_ready-Ready id h = elim (Option-cases (flow_step flow id)) [
    | inl e ↦ absurd (ground arith)
    | inr (step, e) ↦
        let met : needs_satisfied flow state step ≡ true = ground arith in
        record {
          step = step;
          not_done = λ same. ground (arith, ==_iff id done_target);
          declared = e;
          needs_met = λ needed m. need-HasCompleted needed ((all_iff _ step.needs).0 met needed m);
        }
  ]

-- Where `decide` follows a route, every step that it starts is a target of that route, is declared,
-- and needs only steps that are declared and completed in the state that the event leads to.
pub decide-Ready :
    (json : SerdeJson) (flow : FlowDefinition) (state : RunState) (event : Event) (now : Timestamp)
    (id : Text) (step : Step) (cs : List Command) (next : RunState) (route : Option RouteTarget)
    (target : Text)
    → event_step event ≡ some id
    → flow_step flow id ≡ some step
    → decide json flow state event now ≡ ok cs
    → effect state step event ≡ follows next route
    → Memᴰ target (started_by cs)
    → Memᴰ target (route_targets route) × Ready flow next target
decide-Ready json flow state event now id step cs next route target about declared h e m =
    let achieved = decide-Achieves json flow state event now id step cs about declared h in
    let (starts, _) = rw e at achieved in
    let m' : Memᴰ target (filter (is_ready flow next) (route_targets route)) = rw starts at m in
    let (in_route, ready) = (mem-filter (is_ready flow next) target (route_targets route)).0 m' in
    (in_route, is_ready-Ready flow next target ready)
