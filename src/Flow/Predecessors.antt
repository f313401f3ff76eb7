-- ===== src/Flow/Predecessors.antt =====
-- `guaranteed_predecessors` of crates/flowspec-domain/src/flow/validate.rs: the steps that have
-- completed before a step starts.
pub mod Correct
use flowspec_devkitd.Base.{
  ℕ, suc, ◌+◌, Text, List, [], ◌∷◌, map, flat_map, Option, none, some, length, option_list,
}
use flowspec_devkitd.Base.Closure.{closure, pending_edges, push_all}
use flowspec_devkitd.Base.Map.{Map}
use flowspec_devkitd.Flow.Types.{FlowDefinition, Step, flow_step}
use flowspec_devkitd.Flow.Dag.{neighbors, steps_with_incoming_edges, step_ids}

-- The needed ids that name a step of the flow.
known_needs : FlowDefinition → Text → List Text
known_needs flow id = elim (flow_step flow id) [
  | none ↦ []
  | some step ↦
      map (λ s. s.id) (flat_map (λ needed. option_list (flow_step flow needed)) step.needs)
]

-- A single source, or else the explicit `needs:`.
predecessors_by : List Text → List Text → List Text
predecessors_by (source ∷ []) needs = source ∷ []
predecessors_by _ needs = needs

pub predecessors : FlowDefinition → Text → List Text
unfolding known_needs predecessors_by
predecessors flow id =
    predecessors_by (neighbors (steps_with_incoming_edges flow) id) (known_needs flow id)

-- The fuel: each round pops one entry, and a step's predecessors are pushed at most once.
unfoldable pub guaranteed_predecessors : FlowDefinition → Text → List Text
unfolding predecessors closure pending_edges push_all
guaranteed_predecessors flow id =
    let stack = push_all (predecessors flow id) [] in
    closure (predecessors flow)
      (suc (length stack + pending_edges (predecessors flow) [] (step_ids flow))) [] stack
