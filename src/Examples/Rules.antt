-- ===== src/Examples/Rules.antt =====
-- The theorems on the flow-load rules, at the sample flow.
use flowspec_devkitd.Flow.Predecessors.{guaranteed_predecessors}
use flowspec_devkitd.Flow.References.{step_template_step_refs, step_template_dotted_output_refs}
use flowspec_devkitd.Flow.Dag.Cycle.{find_cycle, scan}
use flowspec_devkitd.Base.Map.{get, insert}
use mathlib.Core.Option
use flowspec_devkitd.Flow.Dag.{
  target_is_valid, entry_steps, steps_with_incoming_edges, forward_adjacency,
}
use flowspec_devkitd.Base.Sets.{sort, set_extend}
use flowspec_devkitd.Base.Decimal.{parse_u64}
use flowspec_devkitd.Base.{
  ℕ, ◌≤◌, ◌≡◌, ◌↔◌, ◌++◌, refl, Text, codes, List, [], ◌∷◌, some, returns, panics, ◌==◌,
}
use flowspec_devkitd.Base.Strings.{trim, split_once, split}
use flowspec_devkitd.Flow.Types.{kind}
use flowspec_devkitd.Flow.Schema.{parse_duration, validate_fields, is_valid_id}
use flowspec_devkitd.Flow.Schema.Duration.{parse_duration-panics}
use flowspec_devkitd.Flow.Validate.{
  validate, unique_step_ids, type_with_consistency, routing_targets_exist, exactly_one_entry_step,
  acyclic, multi_target_needs, needs_matches_sources, human_loop_routing_pairs,
  reject_input_only_on_self_loop, no_cross_sibling_references, no_direct_subflow_recursion,
  output_references_valid,
}
use flowspec_devkitd.Examples.{sample_json, release}

abbrev pub same_order : List Text → List Text
same_order keys = keys

-- The sample flow is accepted.
pub release-accepted : validate sample_json same_order release ≡ returns []
unfolding validate validate_fields parse_duration trim is_valid_id Option.bind parse_u64
    unique_step_ids ◌==◌ type_with_consistency kind routing_targets_exist target_is_valid
    exactly_one_entry_step entry_steps get steps_with_incoming_edges insert acyclic find_cycle sort
    scan forward_adjacency set_extend multi_target_needs needs_matches_sources
    human_loop_routing_pairs reject_input_only_on_self_loop no_cross_sibling_references
    step_template_step_refs split_once split guaranteed_predecessors
    step_template_dotted_output_refs no_direct_subflow_recursion output_references_valid
release-accepted = refl

-- Ten micro-something: the last character takes two bytes.
abbrev micro : Text
micro = codes "10µ "

micro_panics : parse_duration micro ≡ panics
unfolding trim parse_duration
micro_panics = refl

two_hours : parse_duration (codes " 2h") ≡ returns (some 7200)
unfolding parse_duration trim Option.bind parse_u64 ◌==◌
two_hours = refl

parse_duration-panics_example :
    (parse_duration micro ≡ panics)
    ↔ ((init : Text) × (last : ℕ) × (trim micro ≡ init ++ last ∷ []) × (128 ≤ last))
parse_duration-panics_example = parse_duration-panics micro
