-- ===== src/Examples/Graph.antt =====
-- The theorems on the graph of a flow, at the sample flow.
use flowspec_devkitd.Base.Map.{get, insert}
use flowspec_devkitd.Base.{◌≡◌, ◌≢◌, ◌↔◌, refl, true, Text, List, [], ◌∷◌, none, some, Memᴰ, ◌==◌}
use flowspec_devkitd.Base.Sets.{mem, sort, set_extend}
use flowspec_devkitd.Base.Closure.Laws.{Reached}
use flowspec_devkitd.Flow.Types.{FlowDefinition}
use flowspec_devkitd.Flow.Dag.{adjacency, forward_adjacency, neighbors, steps_with_incoming_edges}
use flowspec_devkitd.Flow.Dag.Reachable.{reachable_from}
use flowspec_devkitd.Flow.Dag.Edges.{Declares}
use flowspec_devkitd.Flow.Dag.Incoming.{declared_edges, incoming_edge_iff, reachable_from_iff}
use flowspec_devkitd.Flow.Dag.Cycle.{find_cycle, search_cycle, out_of_fuel, scan}
use flowspec_devkitd.Flow.Dag.Cycle.Chains.{Walk, IsCycle}
use flowspec_devkitd.Flow.Dag.Cycle.Correct.{
  search_cycle_terminates, find_cycle_sound, find_cycle_iff,
}
use flowspec_devkitd.Flow.Predecessors.{predecessors, guaranteed_predecessors}
use flowspec_devkitd.Flow.Predecessors.Correct.{guaranteed_predecessors_iff}
use flowspec_devkitd.Examples.{
  release, flow_of, cli_step, to_step, plan_id, review_id, build_id, plan_step,
}

-- plan → build → plan.
abbrev looping : FlowDefinition
looping = flow_of (
    record (cli_step plan_id []) { on_success = to_step build_id }
    ∷ record (cli_step build_id []) { on_success = to_step plan_id }
    ∷ [])

abbrev loop_path : List Text
loop_path = build_id ∷ plan_id ∷ build_id ∷ []

looping_found : find_cycle looping ≡ some loop_path
unfolding find_cycle sort get insert ◌==◌ scan forward_adjacency set_extend
looping_found = refl

find_cycle_iff_example :
    (find_cycle release ≡ none) ↔ ((a : Text) → ¬ Walk (forward_adjacency release) a a)
find_cycle_iff_example = find_cycle_iff release

find_cycle_sound_example : IsCycle (forward_adjacency looping) loop_path
find_cycle_sound_example = find_cycle_sound looping loop_path looping_found

search_cycle_terminates_example : search_cycle looping ≢ out_of_fuel
search_cycle_terminates_example = search_cycle_terminates looping

guaranteed_predecessors_iff_example :
    (mem plan_id (guaranteed_predecessors release build_id) ≡ true)
    ↔ Reached (predecessors release) (predecessors release build_id) plan_id
guaranteed_predecessors_iff_example = guaranteed_predecessors_iff release build_id plan_id

incoming_edge_iff_example :
    Memᴰ review_id (neighbors (steps_with_incoming_edges release) build_id)
    ↔ Declares declared_edges release review_id build_id
incoming_edge_iff_example = incoming_edge_iff release build_id review_id

reachable_from_iff_example :
    (mem build_id (reachable_from release plan_id) ≡ true)
    ↔ Reached (neighbors (adjacency release)) (plan_id ∷ []) build_id
unfolding ◌==◌
reachable_from_iff_example = reachable_from_iff release plan_id plan_step build_id refl
