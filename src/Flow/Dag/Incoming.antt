-- ===== src/Flow/Dag/Incoming.antt =====
-- `steps_with_incoming_edges` is the transpose of the edges that the steps declare, and
-- `reachable_from` follows them.
use flowspec_devkitd.Base.{
  true, ◌&&◌, ◌||◌, ◌≡◌, refl, sym, subst, ◌↔◌, inl, inr, Text, ◌==◌, ==_iff, List, [], ◌∷◌, ◌++◌,
  filter, any, some, arith, Memᴰ, List-cases,
}
use flowspec_devkitd.Base.Map.{Map, get, insert, get-insert}
use flowspec_devkitd.Base.Sets.{mem, mem_iff, mem-append}
use flowspec_devkitd.Base.Closure.Laws.{Reached, Covered, closure_iff}
use flowspec_devkitd.Flow.Types.{FlowDefinition, Step, flow_step}
use flowspec_devkitd.Flow.Dag.{
  targets_of, all_routes, is_edge, neighbors, push_sources, incoming_from,
  steps_with_incoming_edges, adjacency, step_ids,
}
use flowspec_devkitd.Flow.Dag.Reachable.{closure_from, reachable_from}
use flowspec_devkitd.Flow.Dag.Edges.{
  routing_edges, Declares, any-Declares, routing_edge_iff, Declares-step,
}

-- The edges of a step as `steps_with_incoming_edges` walks them.
abbrev pub declared_edges : Step → List Text
declared_edges step = filter (is_edge step) (targets_of (all_routes step))

mem-push_sources :
    (id : Text) (targets : List Text) (incoming : Map (List Text)) (a b : Text)
    → mem b (neighbors (push_sources id targets incoming) a)
      ≡ (mem b (neighbors incoming a) || (id == b && mem a targets))
unfolding push_sources mem
mem-push_sources id [] incoming a b = ground arith
mem-push_sources id (t ∷ r) incoming a b = ground (
  arith,
  mem-push_sources id r (insert incoming t (neighbors incoming t ++ id ∷ [])) a b,
  get-insert incoming t a (neighbors incoming t ++ id ∷ []),
  ==_iff t a,
  mem-append b (neighbors incoming t) (id ∷ []),
)

mem-incoming_from :
    (steps : List Step) (incoming : Map (List Text)) (a b : Text)
    → mem b (neighbors (incoming_from incoming steps) a)
      ≡ (mem b (neighbors incoming a) || any (λ s. s.id == b && mem a (declared_edges s)) steps)
unfolding incoming_from
mem-incoming_from [] incoming a b = ground arith
mem-incoming_from (s ∷ r) incoming a b = ground (
  arith,
  mem-incoming_from r (push_sources s.id (declared_edges s) incoming) a b,
  mem-push_sources s.id (declared_edges s) incoming a b,
)

-- The sources of a step are the steps that declare an edge to it.
pub incoming_edge_iff :
    (flow : FlowDefinition) (a b : Text)
    → Memᴰ b (neighbors (steps_with_incoming_edges flow) a) ↔ Declares declared_edges flow b a
unfolding steps_with_incoming_edges mem get
incoming_edge_iff flow a b =
    let same = mem-incoming_from flow.steps [] a b in
    (
      λ m.
          let h = (mem_iff b (neighbors (steps_with_incoming_edges flow) a)).1 m in
          (any-Declares declared_edges flow b a).0 (ground arith),
      λ d.
          let h = (any-Declares declared_edges flow b a).1 d in
          (mem_iff b (neighbors (steps_with_incoming_edges flow) a)).0 (ground arith),
    )

Covered-adjacency :
    (flow : FlowDefinition) (b : Text) → Covered (neighbors (adjacency flow)) (step_ids flow) b
Covered-adjacency flow b = elim (List-cases (neighbors (adjacency flow) b)) [
  | inl e ↦ inr e
  | inr (c, rest, e) ↦ inl (
      (mem_iff b (step_ids flow)).1 (
        Declares-step routing_edges flow b c
          ((routing_edge_iff flow b c).0 (rw e (Memᴰ.head refl)))))
]

reachable_from_known :
    (flow : FlowDefinition) (start : Text) (step : Step)
    → flow_step flow start ≡ some step
    → reachable_from flow start ≡ closure_from flow (step.id ∷ [])
unfolding reachable_from
reachable_from_known flow start step declared = rw (declared, reachable_from) refl

-- From a declared step, `reachable_from` returns exactly the ids that routing edges lead to.
pub reachable_from_iff :
    (flow : FlowDefinition) (start : Text) (step : Step) (a : Text)
    → flow_step flow start ≡ some step
    → (mem a (reachable_from flow start) ≡ true)
      ↔ Reached (neighbors (adjacency flow)) (step.id ∷ []) a
unfolding closure_from
reachable_from_iff flow start step a declared =
    subst (λ xs. (mem a xs ≡ true) ↔ Reached (neighbors (adjacency flow)) (step.id ∷ []) a)
      (sym (reachable_from_known flow start step declared))
      (closure_iff (neighbors (adjacency flow)) (step_ids flow) (λ x y m. Covered-adjacency flow y)
        (step.id ∷ []) (λ x m. Covered-adjacency flow x) a)
