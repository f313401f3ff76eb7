-- ===== src/Flow/Dag.antt =====
-- crates/flowspec-domain/src/flow/dag.rs: the routing graph of a flow. A `HashMap` is an
-- association list and a `HashSet` a list without duplicates; what is proved of them does not
-- depend on their order.
pub mod Cycle
pub mod Reachable
pub mod Edges
pub mod Incoming
use mathlib.Core.Option.{get_or}
use flowspec_devkitd.Base.{
  ℕ, zero, suc, Bool, true, false, not, ◌&&◌, ◌||◌, Text, ◌==◌, List, [], ◌∷◌, ◌++◌, map, Option,
  none, some, if◌then◌else◌, filter, flat_map, is_empty, is_some, is_none, option_list, length, leb,
  ltb,
}
use flowspec_devkitd.Base.Map.{Map, get, insert}
use flowspec_devkitd.Base.Sets.{mem, set_extend, sort}
use flowspec_devkitd.Flow.Types.{
  FlowDefinition, Step, RouteTarget, one, many, as_slice, done_target, flow_step,
}

-- The targets of the routes that are present, in order.
unfoldable pub targets_of : List (Option RouteTarget) → List Text
unfolding as_slice
targets_of [] = []
targets_of (none ∷ rest) = targets_of rest
targets_of (some route ∷ rest) = as_slice route ++ targets_of rest

abbrev pub all_routes : Step → List (Option RouteTarget)
all_routes step = step.on_success ∷ step.on_failure ∷ step.on_approve ∷ step.on_reject ∷ []

abbrev pub forward_routes : Step → List (Option RouteTarget)
forward_routes step = step.on_success ∷ step.on_approve ∷ step.on_reject ∷ []

-- All `on_*` targets of a step, without the literal `done`.
pub routing_targets : Step → List Text
unfolding targets_of
routing_targets step = filter (λ t. not (t == done_target)) (targets_of (all_routes step))

-- `as_slice() == vec![id]`.
is_singleton : Text → List Text → Bool
is_singleton id [] = false
is_singleton id (x ∷ []) = x == id
is_singleton id (x ∷ y ∷ r) = false

is_route_to : Text → Option RouteTarget → Bool
unfolding is_singleton as_slice
is_route_to id none = false
is_route_to id (some route) = is_singleton id (as_slice route)

pub is_self_reject_loop : Step → Bool
unfolding is_route_to
is_self_reject_loop step = is_route_to step.id step.on_reject

-- The two `continue` tests of the loops over targets.
pub is_edge : Step → Text → Bool
unfolding is_self_reject_loop
is_edge step target =
    not (target == done_target) && not (is_self_reject_loop step && target == step.id)

abbrev pub neighbors : Map (List Text) → Text → List Text
neighbors adj id = get_or (get adj id) []

-- `let entry = adj.entry(id).or_default()`, then `entry.insert(target)` for each target.
add_edges : Map (List Text) → Text → List Text → Map (List Text)
add_edges adj id targets = insert adj id (set_extend (neighbors adj id) targets)

adjacency_from : Map (List Text) → List Step → Map (List Text)
unfolding add_edges routing_targets is_edge
adjacency_from adj [] = adj
adjacency_from adj (step ∷ rest) =
    adjacency_from (add_edges adj step.id (filter (is_edge step) (routing_targets step))) rest

pub adjacency : FlowDefinition → Map (List Text)
unfolding adjacency_from
adjacency flow = adjacency_from [] flow.steps

forward_from : Map (List Text) → List Step → Map (List Text)
unfolding add_edges targets_of is_edge
forward_from adj [] = adj
forward_from adj (step ∷ rest) =
    forward_from (add_edges adj step.id (filter (is_edge step) (targets_of (forward_routes step))))
      rest

-- `on_failure` edges are left out.
unfoldable pub forward_adjacency : FlowDefinition → Map (List Text)
unfolding forward_from
forward_adjacency flow = forward_from [] flow.steps

-- `incoming.entry(target).or_default().push(id)`.
push_sources : Text → List Text → Map (List Text) → Map (List Text)
push_sources id [] incoming = incoming
push_sources id (target ∷ rest) incoming =
    push_sources id rest (insert incoming target (neighbors incoming target ++ id ∷ []))

incoming_from : Map (List Text) → List Step → Map (List Text)
unfolding push_sources targets_of is_edge
incoming_from incoming [] = incoming
incoming_from incoming (step ∷ rest) =
    incoming_from
      (push_sources step.id (filter (is_edge step) (targets_of (all_routes step))) incoming) rest

unfoldable pub steps_with_incoming_edges : FlowDefinition → Map (List Text)
unfolding incoming_from
steps_with_incoming_edges flow = incoming_from [] flow.steps

abbrev pub step_ids : FlowDefinition → List Text
step_ids flow = map (λ s. s.id) flow.steps

abbrev pub values : Map (List Text) → List Text
values [] = []
values ((k, targets) ∷ rest) = targets ++ values rest

unfoldable pub entry_steps : FlowDefinition → List Text
entry_steps flow =
    let incoming = steps_with_incoming_edges flow in
    let strict = filter (λ id. is_none (get incoming id)) (step_ids flow) in
    let forward_incoming = values (forward_adjacency flow) in
    if not (is_empty strict)
    then strict
    else filter (λ id. not (mem id forward_incoming)) (step_ids flow)

unfoldable pub target_is_valid : FlowDefinition → Text → Bool
target_is_valid flow target = target == done_target || is_some (flow_step flow target)

-- A route to more than one target.
unfoldable pub is_fan_out : Option RouteTarget → Bool
is_fan_out (some (many v)) = ltb 1 (length v)
is_fan_out _ = false
