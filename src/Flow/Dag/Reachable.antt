-- ===== src/Flow/Dag/Reachable.antt =====
-- `reachable_from` of crates/flowspec-domain/src/flow/dag.rs: the steps that routing edges lead to.
use flowspec_devkitd.Base.{suc, ◌+◌, Text, List, [], ◌∷◌, none, some, length}
use flowspec_devkitd.Base.Closure.{closure, pending_edges}
use flowspec_devkitd.Flow.Types.{FlowDefinition, flow_step}
use flowspec_devkitd.Flow.Dag.{adjacency, neighbors, step_ids}

-- The fuel: each round pops one entry, and an edge is pushed at most once.
unfoldable pub closure_from : FlowDefinition → List Text → List Text
unfolding closure pending_edges
closure_from flow stack =
    closure (neighbors (adjacency flow))
      (suc (length stack + pending_edges (neighbors (adjacency flow)) [] (step_ids flow))) [] stack

unfoldable pub reachable_from : FlowDefinition → Text → List Text
unfolding closure_from
reachable_from flow start = elim (flow_step flow start) [
  | none ↦ []
  | some step ↦ closure_from flow (step.id ∷ [])
]
