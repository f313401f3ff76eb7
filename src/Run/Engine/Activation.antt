-- ===== src/Run/Engine/Activation.antt =====
-- `activate_targets`: exactly the routing targets that are ready are started.
use flowspec_devkitd.Base.{
  Bool, false, not, ◌&&◌, ◌≡◌, Text, ◌==◌, ==_iff, List, [], ◌∷◌, filter, flat_map-append, Option,
  none, some, arith, if◌then◌else◌, ok, Result-cases, >>=-eq-ok, Option-cases, inl, inr, find?-some,
  is_empty, append-eq-nil,
}
use flowspec_devkitd.Flow.Types.{FlowDefinition, Step, SerdeJson, done_target, flow_step}
use flowspec_devkitd.Run.Types.{Command, RunState}
use flowspec_devkitd.Template.{TemplateContext}
use flowspec_devkitd.Run.Engine.{needs_satisfied, activate_step, activate_target, activate_targets}
use flowspec_devkitd.Run.Engine.Commands.{started, ended, started_by, ended_by}

abbrev pub step_ready : FlowDefinition → RunState → Option Step → Bool
step_ready flow state none = false
step_ready flow state (some step) = needs_satisfied flow state step

-- A target is started if it is a declared step whose `needs:` have all completed.
abbrev pub is_ready : FlowDefinition → RunState → Text → Bool
is_ready flow state target =
    not (target == done_target) && step_ready flow state (flow_step flow target)

pub flow_step-id :
    (flow : FlowDefinition) (id : Text) (step : Step) → flow_step flow id ≡ some step → step.id ≡ id
flow_step-id flow id step h =
    (==_iff step.id id).0 (find?-some (λ s. s.id == id) flow.steps step h).1

module _ (json : SerdeJson) where
  activate_step-started :
      (state : RunState) (ctx : TemplateContext) (target : Text) (step : Step) (c : Command)
      → activate_step json state ctx target step ≡ ok c
      → (started_by (c ∷ []) ≡ step.id ∷ []) × (ended_by (c ∷ []) ≡ [])
  unfolding activate_step
  activate_step-started state ctx target step c h = ground arith

  module _ (flow : FlowDefinition) (state : RunState) (ctx : TemplateContext) where
    activate_target-started :
        (target : Text) (cs : List Command)
        → activate_target json flow state ctx target ≡ ok cs
        → (started_by cs ≡ (if is_ready flow state target then target ∷ [] else []))
          × (ended_by cs ≡ [])
          × (is_empty cs ≡ not (is_ready flow state target))
    unfolding activate_target
    activate_target-started target cs h = elim (Option-cases (flow_step flow target)) [
      | inl e ↦ ground arith
      | inr (step, e) ↦ elim (Result-cases (activate_step json state ctx target step)) [
        | inl (c, q) ↦ ground (
          arith,
          activate_step-started state ctx target step c q,
          flow_step-id flow target step e,
        )
        | inr (x, q) ↦ ground arith
      ]
    ]

    -- The steps that are started are the ready targets, in order; the run is not ended.
    pub activate_targets-started :
        (targets : List Text) (cs : List Command)
        → activate_targets json flow state ctx targets ≡ ok cs
        → (started_by cs ≡ filter (is_ready flow state) targets)
          × (ended_by cs ≡ [])
          × (is_empty cs ≡ is_empty (filter (is_ready flow state) targets))
    unfolding activate_targets
    activate_targets-started [] cs h = ground arith
    activate_targets-started (target ∷ rest) cs h =
        let (now, p, h') = >>=-eq-ok (activate_target json flow state ctx target) _ h in
        let (later, q, h'') = >>=-eq-ok (activate_targets json flow state ctx rest) _ h' in
        let (s, e, n) = activate_target-started target now p in
        let (s', e', n') = activate_targets-started rest later q in
        ground (
          arith,
          flat_map-append started now later,
          flat_map-append ended now later,
          append-eq-nil now later,
        )
