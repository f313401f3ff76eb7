-- ===== src/Flow/Validate/Soundness.antt =====
-- `validate` accepts exactly the flows that meet every flow-load rule.
use mathlib.Core.Option
use flowspec_devkitd.Base.{
  ◌<◌, Bool, true, false, ◌&&◌, ◌≡◌, ◌≢◌, ◌↔◌, ◌⊎◌, inl, inr, Text, ◌==◌, ==_iff, List, [], ◌∷◌,
  map, append_iff, length, ltb, List-cases, none, some, arith, Bool-cases, Option-cases, Memᴰ,
}
use flowspec_devkitd.Base.Map.{get, get-mem}
use flowspec_devkitd.Flow.Types.{
  FlowDefinition, Step, RouteTarget, SerdeJson, as_slice, flow_step, kind,
}
use flowspec_devkitd.Flow.Dag.{neighbors, steps_with_incoming_edges, entry_steps}
use flowspec_devkitd.Base.Closure.Laws.{Reached}
use flowspec_devkitd.Flow.Dag.{forward_adjacency}
use flowspec_devkitd.Flow.Dag.Edges.{Declares}
use flowspec_devkitd.Flow.Dag.Incoming.{declared_edges}
use flowspec_devkitd.Flow.Dag.Cycle.Chains.{Walk}
use flowspec_devkitd.Flow.Predecessors.{predecessors}
use flowspec_devkitd.Flow.Predecessors.Correct.{guaranteed_predecessors_iff}
use flowspec_devkitd.Flow.References.{step_template_step_refs, step_template_dotted_output_refs}
use flowspec_devkitd.Flow.Validate.{
  type_with_consistency, multi_target_needs, no_cross_sibling_references, has_no_needs, is_cli,
  invokes, structural_violations,
}
use flowspec_devkitd.Flow.Validate.Rules.{
  flat_map-check, IsUnique, unique_step_ids_iff, RoutesExist, routing_targets_exist_iff,
  exactly_one_entry_step_iff, PairsRoutes, human_loop_routing_pairs_iff,
  reject_input_only_on_self_loop_iff,
}
use flowspec_devkitd.Flow.Validate.Criteria.{
  type_with_consistency_iff, acyclic_iff, needs_routed_iff, cross_references_iff,
  output_references_iff, subflow_recursion_iff,
}

-- The flow-load rules as one specification.
pub record IsSound (json : SerdeJson) (flow : FlowDefinition) : Type 0 where
  pub unique_ids : IsUnique (map (λ s. s.id) flow.steps)
  pub typed : (step : Step) → Memᴰ step flow.steps → kind json step ≢ none
  pub routes_exist : (step : Step) → Memᴰ step flow.steps → RoutesExist flow step
  pub one_entry : (flow.steps ≢ []) → length (entry_steps flow) ≡ 1
  pub no_cycle : (a : Text) → ¬ Walk (forward_adjacency flow) a a
  pub joins_declared :
      (target : Text) (step : Step)
      → flow_step flow target ≡ some step
      → 1 < length (neighbors (steps_with_incoming_edges flow) target)
      → step.needs ≢ []
  pub needs_routed :
      (step : Step)
      → Memᴰ step flow.steps
      → (needed : Text) → Memᴰ needed step.needs
      → Declares declared_edges flow needed step.id
  pub approvals_paired : (step : Step) → Memᴰ step flow.steps → PairsRoutes flow step
  pub reject_inputs_used :
      (step : Step)
      → Memᴰ step flow.steps
      → step.reject_input ≢ none
      → (route : RouteTarget) × (step.on_reject ≡ some route) × (as_slice route ≡ step.id ∷ [])
  pub references_settled :
      (step : Step)
      → Memᴰ step flow.steps
      → (referenced : Text) → Memᴰ referenced (step_template_step_refs json step)
      → (referenced ≡ step.id) ⊎ Reached (predecessors flow) (predecessors flow step.id) referenced
  pub outputs_structured :
      (step : Step)
      → Memᴰ step flow.steps
      → (ref : Text × Bool) → Memᴰ ref (step_template_dotted_output_refs json step)
      → ref.1 ≡ true
      → is_cli json (Option.bind (flow_step flow ref.0) (kind json)) ≡ false
  pub not_recursive :
      (step : Step) → Memᴰ step flow.steps → invokes json (kind json step) flow.name ≡ false

module _ (json : SerdeJson) (hash_order : List Text → List Text)
    (keeps_keys : (keys : List Text) (k : Text) → Memᴰ k (hash_order keys) ↔ Memᴰ k keys)
    (flow : FlowDefinition) where
  abbrev incoming_keys : List Text
  incoming_keys = map (λ e. e.0) (steps_with_incoming_edges flow)

  abbrev JoinsDeclared : Type 0
  JoinsDeclared =
      (target : Text) (step : Step)
      → flow_step flow target ≡ some step
      → 1 < length (neighbors (steps_with_incoming_edges flow) target)
      → step.needs ≢ []

  abbrev is_bad_join : Text → Bool
  is_bad_join target =
      ltb 1 (length (neighbors (steps_with_incoming_edges flow) target))
      && has_no_needs (flow_step flow target)

  multi_target_needs_iff : (multi_target_needs hash_order flow ≡ []) ↔ JoinsDeclared
  unfolding multi_target_needs
  multi_target_needs_iff =
      let (to, from) =
        flat_map-check is_bad_join _ (hash_order incoming_keys) (λ target. ground arith) in
      (
        λ e target step declared many.
            elim (Option-cases (get (steps_with_incoming_edges flow) target)) [
              | inl absent ↦ absurd (ground arith)
              | inr (sources, present) ↦
                  let m = get-mem (steps_with_incoming_edges flow) target sources present in
                  let fine : is_bad_join target ≡ false =
                    to e target ((keeps_keys incoming_keys target).1 m) in
                  ground (arith, List-cases step.needs)
            ],
        λ h. from (λ target m. elim (Option-cases (flow_step flow target)) [
          | inl missing ↦ ground arith
          | inr (step, declared) ↦
              elim (Bool-cases
                (ltb 1 (length (neighbors (steps_with_incoming_edges flow) target)))) [
                  | inl many ↦
                      let some_needs = h target step declared (ground arith) in
                      ground (arith, List-cases step.needs)
                  | inr few ↦ ground arith
                ]
        ]),
      )

  references_settled_iff : (no_cross_sibling_references json flow ≡ []) ↔ (
      (step : Step)
      → Memᴰ step flow.steps
      → (referenced : Text) → Memᴰ referenced (step_template_step_refs json step)
      → (referenced ≡ step.id) ⊎ Reached (predecessors flow) (predecessors flow step.id) referenced)
  references_settled_iff = (
    λ e step m r n.
        let fine = (cross_references_iff json flow).0 e step m r n in
        elim (Bool-cases (r == step.id)) [
          | inl same ↦ inl ((==_iff r step.id).0 same)
          | inr other ↦ inr ((guaranteed_predecessors_iff flow step.id r).0 (ground arith))
        ],
    λ h. (cross_references_iff json flow).1 (λ step m r n. elim (h step m r n) [
      | inl same ↦ ground (arith, ==_iff r step.id)
      | inr reached ↦
          let found = (guaranteed_predecessors_iff flow step.id r).1 reached in ground arith
    ]),
  )

  typed_iff :
      (type_with_consistency json flow ≡ [])
      ↔ ((step : Step) → Memᴰ step flow.steps → kind json step ≢ none)
  typed_iff = (
    λ e step m bad. let fine = (type_with_consistency_iff json flow).0 e step m in ground arith,
    λ h.
        (type_with_consistency_iff json flow).1
          (λ step m. let fine = h step m in ground (arith, Option-cases (kind json step))),
  )

  -- The structural checks report nothing exactly for the flows that meet every rule.
  pub structural_violations_iff :
      (structural_violations json hash_order flow ≡ []) ↔ IsSound json flow
  unfolding structural_violations
  structural_violations_iff =
      let rules = append_iff _ _ (unique_step_ids_iff flow) (
        append_iff _ _ typed_iff (
          append_iff _ _ (routing_targets_exist_iff flow) (
            append_iff _ _ (exactly_one_entry_step_iff flow) (
              append_iff _ _ (acyclic_iff json flow) (
                append_iff _ _ multi_target_needs_iff (
                  append_iff _ _ (needs_routed_iff json flow) (
                    append_iff _ _ (human_loop_routing_pairs_iff flow) (
                      append_iff _ _ (reject_input_only_on_self_loop_iff flow) (
                        append_iff _ _ references_settled_iff (
                          append_iff _ _ (output_references_iff json flow)
                            (subflow_recursion_iff json flow))))))))))) in
      (
        λ e.
            let (a, (b, (c, (d, (f, (g, (h, (i, (j, (k, (l, m))))))))))) = rules.0 e in
            record {
              unique_ids = a;
              typed = b;
              routes_exist = c;
              one_entry = d;
              no_cycle = f;
              joins_declared = g;
              needs_routed = h;
              approvals_paired = i;
              reject_inputs_used = j;
              references_settled = k;
              outputs_structured = λ step n ref r e. let fine = l step n ref r in ground arith;
              not_recursive = m;
            },
        λ s. rules.1 (
          s.unique_ids,
          (
            s.typed,
            (
              s.routes_exist,
              (
                s.one_entry,
                (
                  s.no_cycle,
                  (
                    s.joins_declared,
                    (
                      s.needs_routed,
                      (
                        s.approvals_paired,
                        (
                          s.reject_inputs_used,
                          (
                            s.references_settled,
                            (
                              λ step n ref r.
                                  let fine = s.outputs_structured step n ref r in ground arith,
                              s.not_recursive,
                            ),
                          ),
                        ),
                      ),
                    ),
                  ),
                ),
              ),
            ),
          ),
        ),
      )
