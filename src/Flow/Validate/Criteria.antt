-- ===== src/Flow/Validate/Criteria.antt =====
-- The flow-load rules of crates/flowspec-domain/src/flow/validate.rs whose independent description
-- stands on the graph, the references and the step kinds.
use mathlib.Core.Option
use flowspec_devkitd.Base.{
  Bool, false, not, ◌&&◌, ◌≡◌, ◌↔◌, Text, ◌==◌, List, [], flat_map, flat_map-eq-nil, arith, is_none,
  Memᴰ,
}
use flowspec_devkitd.Base.Sets.{mem}
use flowspec_devkitd.Flow.Types.{FlowDefinition, Step, SerdeJson, flow_step, kind}
use flowspec_devkitd.Flow.Schema.{Violation}
use flowspec_devkitd.Flow.Dag.{forward_adjacency}
use flowspec_devkitd.Flow.Dag.Edges.{Declares}
use flowspec_devkitd.Flow.Dag.Incoming.{declared_edges, incoming_edge_iff}
use flowspec_devkitd.Flow.Dag.Cycle.Chains.{Walk}
use flowspec_devkitd.Flow.Dag.Cycle.Correct.{find_cycle_iff}
use flowspec_devkitd.Flow.References.{step_template_step_refs, step_template_dotted_output_refs}
use flowspec_devkitd.Flow.Predecessors.{guaranteed_predecessors}
use flowspec_devkitd.Flow.Validate.{
  needs_matches_sources, type_with_consistency, acyclic, no_cross_sibling_references,
  output_references_valid, no_direct_subflow_recursion, is_cli, invokes,
}
use flowspec_devkitd.Flow.Validate.Rules.{flat_map-check, needs_matches_sources_iff}

-- A rule that looks at each step, and in it at each of some items.
nested-check {ℓ} :
    {A : Type ℓ} (items : Step → List A) (broken : Step → A → Bool) (f : Step → A → List Violation)
    (steps : List Step)
    → ((s : Step) (x : A) → (f s x ≡ []) ↔ (broken s x ≡ false))
    → (flat_map (λ s. flat_map (f s) (items s)) steps ≡ [])
      ↔ ((s : Step) → Memᴰ s steps → (x : A) → Memᴰ x (items s) → broken s x ≡ false)
nested-check items broken f steps h = (
  λ e s m.
      (flat_map-check (broken s) (f s) (items s) (h s)).0
        ((flat_map-eq-nil (λ s. flat_map (f s) (items s)) steps).0 e s m),
  λ fine.
      (flat_map-eq-nil (λ s. flat_map (f s) (items s)) steps).1
        (λ s m. (flat_map-check (broken s) (f s) (items s) (h s)).1 (fine s m)),
)

module _ (json : SerdeJson) (flow : FlowDefinition) where
  pub type_with_consistency_iff :
      (type_with_consistency json flow ≡ [])
      ↔ ((step : Step) → Memᴰ step flow.steps → is_none (kind json step) ≡ false)
  unfolding type_with_consistency
  type_with_consistency_iff =
      flat_map-check (λ step. is_none (kind json step)) _ flow.steps (λ step. ground arith)

  pub acyclic_iff : (acyclic flow ≡ []) ↔ ((a : Text) → ¬ Walk (forward_adjacency flow) a a)
  unfolding acyclic
  acyclic_iff =
      let (to, from) = find_cycle_iff flow in
      (λ e. to (ground arith), λ h. let found = from h in ground arith)

  pub needs_routed_iff : (needs_matches_sources flow ≡ []) ↔ (
      (step : Step)
      → Memᴰ step flow.steps
      → (needed : Text) → Memᴰ needed step.needs
      → Declares declared_edges flow needed step.id)
  needs_routed_iff =
      let (to, from) = needs_matches_sources_iff flow in
      (
        λ e step m needed n. (incoming_edge_iff flow step.id needed).0 (to e step m needed n),
        λ h.
            from (λ step m needed n. (incoming_edge_iff flow step.id needed).1 (h step m needed n)),
      )

  pub cross_references_iff : (no_cross_sibling_references json flow ≡ []) ↔ (
      (step : Step)
      → Memᴰ step flow.steps
      → (referenced : Text) → Memᴰ referenced (step_template_step_refs json step)
      → (not (referenced == step.id) && not (mem referenced (guaranteed_predecessors flow step.id)))
        ≡ false)
  unfolding no_cross_sibling_references
  cross_references_iff = nested-check _ _ _ flow.steps (λ step referenced. ground arith)

  pub output_references_iff : (output_references_valid json flow ≡ []) ↔ (
      (step : Step)
      → Memᴰ step flow.steps
      → (ref : Text × Bool) → Memᴰ ref (step_template_dotted_output_refs json step)
      → (ref.1 && is_cli json (Option.bind (flow_step flow ref.0) (kind json))) ≡ false)
  unfolding output_references_valid
  output_references_iff = nested-check _ _ _ flow.steps (λ step ref. ground arith)

  pub subflow_recursion_iff :
      (no_direct_subflow_recursion json flow ≡ [])
      ↔ ((step : Step) → Memᴰ step flow.steps → invokes json (kind json step) flow.name ≡ false)
  unfolding no_direct_subflow_recursion
  subflow_recursion_iff =
      flat_map-check (λ step. invokes json (kind json step) flow.name) _ flow.steps
        (λ step. ground arith)
