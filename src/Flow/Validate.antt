-- ===== src/Flow/Validate.antt =====
-- crates/flowspec-domain/src/flow/validate.rs: the flow-load rules. Each rule lists its
-- violations; `hash_order` stands for the order in which a `HashMap` yields its keys.
pub mod Rules
pub mod Criteria
pub mod Soundness
use Prim.Native.String.{String}
use mathlib.Core.Option
use flowspec_devkitd.Base.{
  ℕ, Bool, true, false, not, ◌&&◌, ◌||◌, Text, codes, ◌==◌, List, [], ◌∷◌, ◌++◌, map, Option, none,
  some, if◌then◌else◌, is_some, is_none, is_empty, eqb, ltb, length, flat_map, Partial, returns,
  panics, and_then,
}
use flowspec_devkitd.Base.Strings.{join}
use flowspec_devkitd.Base.Map.{Map, get}
use flowspec_devkitd.Base.Sets.{mem, set_insert}
use flowspec_devkitd.Base.Decimal.{print_nat}
use flowspec_devkitd.Flow.Types.{
  FlowDefinition, Step, StepWith, SerdeJson, RouteTarget, as_slice, flow_step, kind, type_name,
}
use flowspec_devkitd.Flow.Schema.{Violation, validate_fields}
use flowspec_devkitd.Flow.Dag.{
  neighbors, steps_with_incoming_edges, entry_steps, target_is_valid, is_self_reject_loop,
}
use flowspec_devkitd.Flow.Dag.Cycle.{find_cycle}
use flowspec_devkitd.Flow.References.{step_template_step_refs, step_template_dotted_output_refs}
use flowspec_devkitd.Flow.Predecessors.{guaranteed_predecessors}

-- A violation if the test holds.
abbrev pub check : Bool → String → Option Text → Text → List Violation
check broken rule step message =
    if broken then record { rule = codes rule; step = step; message = message } ∷ [] else []

-- `'<text>'` between two pieces.
abbrev pub quote : String → Text → String → Text
quote before text after = codes before ++ (codes "'" ++ (text ++ (codes "'" ++ codes after)))

duplicate_ids : List Text → List Step → List Violation
duplicate_ids seen [] = []
duplicate_ids seen (step ∷ rest) =
    check (mem step.id seen) "unique_step_ids" (some step.id)
      (quote "duplicate step id " step.id "")
    ++ duplicate_ids (set_insert seen step.id) rest

unfoldable pub unique_step_ids : FlowDefinition → List Violation
unfolding duplicate_ids
unique_step_ids flow = duplicate_ids [] flow.steps

abbrev pub route_violations : FlowDefinition → Step → String → Option RouteTarget → List Violation
route_violations flow step name none = []
route_violations flow step name (some route) =
    flat_map
      (λ target.
        check (not (target_is_valid flow target)) "routing_target_exists" (some step.id)
          (quote "step " step.id " " ++ (codes name ++ quote " targets unknown step " target "")))
      (as_slice route)

abbrev pub target_violations : FlowDefinition → Step → List Violation
target_violations flow step =
    route_violations flow step "on_success" step.on_success
    ++ (route_violations flow step "on_failure" step.on_failure
        ++ (route_violations flow step "on_approve" step.on_approve
            ++ (route_violations flow step "on_reject" step.on_reject
                ++ flat_map
                    (λ needed.
                      check (is_none (flow_step flow needed)) "routing_target_exists" (some step.id)
                        (quote "step " step.id "" ++ quote " needs unknown step " needed ""))
                    step.needs)))

unfoldable pub routing_targets_exist : FlowDefinition → List Violation
routing_targets_exist flow = flat_map (target_violations flow) flow.steps

unfoldable pub exactly_one_entry_step : FlowDefinition → List Violation
exactly_one_entry_step flow =
    let entries = entry_steps flow in
    if is_empty flow.steps
    then []
    else check (not (eqb (length entries) 1)) "exactly_one_entry_step" none (
        codes "flow must have exactly one entry step (no incoming routing edges); found "
        ++ (print_nat (length entries)
            ++ (codes ": [" ++ (join (codes ", ") entries ++ codes "]"))))

unfoldable pub acyclic : FlowDefinition → List Violation
acyclic flow = elim (find_cycle flow) [
  | none ↦ []
  | some cycle ↦
      check true "acyclic" none
        (codes "routing graph contains a cycle: " ++ join (codes " -> ") cycle)
]

abbrev pub has_no_needs : Option Step → Bool
has_no_needs none = false
has_no_needs (some step) = is_empty step.needs

module _ (hash_order : List Text → List Text) where
  unfoldable pub multi_target_needs : FlowDefinition → List Violation
  multi_target_needs flow =
      let incoming = steps_with_incoming_edges flow in
      flat_map
        (λ target.
          let sources = neighbors incoming target in
          check (ltb 1 (length sources) && has_no_needs (flow_step flow target))
            "multi_target_needs_join" (some target)
            (quote "step " target " is targeted by "
              ++ (print_nat (length sources) ++ codes " routing sources but declares no needs:")))
        (hash_order (map (λ e. e.0) incoming))

unfoldable pub needs_matches_sources : FlowDefinition → List Violation
needs_matches_sources flow =
    let incoming = steps_with_incoming_edges flow in
    flat_map
      (λ step.
        flat_map
          (λ needed.
            check (not (mem needed (neighbors incoming step.id))) "needs_matches_sources"
              (some step.id)
              (quote "step " step.id ""
                ++ (quote " declares needs " needed ""
                    ++ quote " but " needed " does not route to it")))
          step.needs)
      flow.steps

unfoldable pub human_loop_routing_pairs : FlowDefinition → List Violation
human_loop_routing_pairs flow =
    flat_map
      (λ step.
        if step.human_loop
        then check (is_none step.on_approve || is_none step.on_reject) "human_loop_routing_pairs"
            (some step.id)
            (quote "step " step.id
              " has human_loop: true and must declare both on_approve and on_reject")
        else check (is_some step.on_approve || is_some step.on_reject) "human_loop_routing_pairs"
            (some step.id)
            (quote "step " step.id " declares on_approve/on_reject without human_loop: true"))
      flow.steps

unfoldable pub reject_input_only_on_self_loop : FlowDefinition → List Violation
reject_input_only_on_self_loop flow =
    flat_map
      (λ step.
        check (is_some step.reject_input && not (is_self_reject_loop step))
          "reject_input_self_loop_only" (some step.id)
          (quote "step " step.id " declares reject_input but on_reject does not self-loop"))
      flow.steps

module _ (json : SerdeJson) where
  unfoldable pub type_with_consistency : FlowDefinition → List Violation
  type_with_consistency flow =
      flat_map
        (λ step. check (is_none (kind json step)) "type_with_consistency" (some step.id) (
          quote "step " step.id " has type "
          ++ (quote "" (type_name step.step_type)
              " but its 'with' block doesn't match that type's required shape")))
        flow.steps

  unfoldable pub no_cross_sibling_references : FlowDefinition → List Violation
  no_cross_sibling_references flow =
      flat_map
        (λ step.
          flat_map
            (λ referenced.
              check
                (not (referenced == step.id)
                  && not (mem referenced (guaranteed_predecessors flow step.id)))
                "no_cross_sibling_references" (some step.id)
                (quote "step " step.id " references steps."
                  ++ (referenced
                      ++ codes
                          ", which is not a guaranteed predecessor (needs: or sole routing chain)")))
            (step_template_step_refs json step))
        flow.steps

  abbrev pub is_cli : Option StepWith → Bool
  is_cli (some (StepWith.cli _)) = true
  is_cli _ = false

  unfoldable pub output_references_valid : FlowDefinition → List Violation
  output_references_valid flow =
      flat_map
        (λ step.
          flat_map
            (λ ref.
              check (ref.1 && is_cli (Option.bind (flow_step flow ref.0) (kind json)))
                "output_reference_valid" (some step.id)
                (quote "step " step.id " references steps."
                  ++ (ref.0
                      ++ quote ".output.<field>, but " ref.0
                          " is a cli step (output is a single value, not a named-field object)")))
            (step_template_dotted_output_refs json step))
        flow.steps

  abbrev pub invokes : Option StepWith → Text → Bool
  invokes (some (StepWith.subflow w)) name = w.flow == name
  invokes _ name = false

  unfoldable pub no_direct_subflow_recursion : FlowDefinition → List Violation
  no_direct_subflow_recursion flow =
      flat_map
        (λ step. check (invokes (kind json step) flow.name) "no_subflow_recursion" (some step.id) (
          quote "step " step.id " invokes "
          ++ quote "" flow.name
              " as a subflow, which is this same flow (direct recursion is forbidden)"))
        flow.steps

  module _ (hash_order : List Text → List Text) where
    -- The structural rules, in the order in which they run.
    pub structural_violations : FlowDefinition → List Violation
    structural_violations flow =
        unique_step_ids flow
        ++ (type_with_consistency flow
            ++ (routing_targets_exist flow
                ++ (exactly_one_entry_step flow
                    ++ (acyclic flow
                        ++ (multi_target_needs hash_order flow
                            ++ (needs_matches_sources flow
                                ++ (human_loop_routing_pairs flow
                                    ++ (reject_input_only_on_self_loop flow
                                        ++ (no_cross_sibling_references flow
                                            ++ (output_references_valid flow
                                                ++ no_direct_subflow_recursion flow))))))))))

    unfoldable pub validate : FlowDefinition → Partial (List Violation)
    unfolding structural_violations
    validate flow =
        and_then (validate_fields flow) λ fields. returns (fields ++ structural_violations flow)
