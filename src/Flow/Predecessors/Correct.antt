-- ===== src/Flow/Predecessors/Correct.antt =====
-- `guaranteed_predecessors` returns exactly what the predecessor relation leads to.
use mathlib.Core.List.Memᴰ
use flowspec_devkitd.Base.{
  true, ◌≡◌, ◌↔◌, ◌⊎◌, inl, inr, Text, List, [], ◌∷◌, map, flat_map, arith, Memᴰ, Option-cases,
  find?-some, ◌==◌, option_list,
}
use flowspec_devkitd.Base.Sets.{mem, mem_iff}
use flowspec_devkitd.Base.Closure.{push_all}
use flowspec_devkitd.Base.Closure.Laws.{Reached, initial, follow, closure_iff, mem-push_all}
use flowspec_devkitd.Flow.Types.{FlowDefinition, Step, flow_step}
use flowspec_devkitd.Flow.Dag.{neighbors, steps_with_incoming_edges, step_ids}
use flowspec_devkitd.Flow.Dag.Edges.{Declares-step}
use flowspec_devkitd.Flow.Dag.Incoming.{declared_edges, incoming_edge_iff}
use flowspec_devkitd.Flow.Predecessors.{
  known_needs, predecessors_by, predecessors, guaranteed_predecessors,
}

mem-find_step :
    (flow : FlowDefinition) (needs : List Text) (b : Text)
    → Memᴰ b
        (map (λ (s : Step). s.id) (flat_map (λ needed. option_list (flow_step flow needed)) needs))
    → Memᴰ b (step_ids flow)
mem-find_step flow [] b m = absurd (Memᴰ.not-nil m)
mem-find_step flow (n ∷ r) b m = elim (Option-cases (flow_step flow n)) [
  | inl e ↦ mem-find_step flow r b (rw e at m)
  | inr (s, e) ↦ elim (Memᴰ.cases_cons (rw e at m)) [
    | inl q ↦ rw q (Memᴰ.map (λ (s : Step). s.id) (find?-some (λ s. s.id == n) flow.steps s e).0)
    | inr later ↦ mem-find_step flow r b later
  ]
]

mem-known_needs :
    (flow : FlowDefinition) (id b : Text) → Memᴰ b (known_needs flow id) → Memᴰ b (step_ids flow)
unfolding known_needs
mem-known_needs flow id b m = elim (Option-cases (flow_step flow id)) [
  | inl e ↦ absurd (Memᴰ.not-nil (rw (e, known_needs) at m))
  | inr (s, e) ↦ mem-find_step flow s.needs b (rw (e, known_needs) at m)
]

mem-predecessors_by :
    (sources needs : List Text) (b : Text)
    → Memᴰ b (predecessors_by sources needs)
    → Memᴰ b sources ⊎ Memᴰ b needs
unfolding predecessors_by
mem-predecessors_by (s ∷ []) needs b m = inl m
mem-predecessors_by [] needs b m = inr m
mem-predecessors_by (s ∷ t ∷ r) needs b m = inr m

mem-predecessors :
    (flow : FlowDefinition) (id b : Text)
    → Memᴰ b (predecessors flow id)
    → mem b (step_ids flow) ≡ true
unfolding predecessors
mem-predecessors flow id b m =
    elim (mem-predecessors_by (neighbors (steps_with_incoming_edges flow) id) (known_needs flow id)
      b m) [
        | inl source ↦
            (mem_iff b (step_ids flow)).1
              (Declares-step declared_edges flow b id ((incoming_edge_iff flow id b).0 source))
        | inr need ↦ (mem_iff b (step_ids flow)).1 (mem-known_needs flow id b need)
      ]

Reached-starts :
    (next : Text → List Text) (xs ys : List Text)
    → ((a : Text) → Memᴰ a xs → Memᴰ a ys)
    → {a : Text} → Reached next xs a
    → Reached next ys a
Reached-starts next xs ys sub (initial m) = initial (sub _ m)
Reached-starts next xs ys sub (follow r m) = follow (Reached-starts next xs ys sub r) m

mem_stack : (xs : List Text) (a : Text) → mem a (push_all xs []) ≡ mem a xs
unfolding mem
mem_stack xs a = ground (arith, mem-push_all a xs [])

-- The loop ends, and what it returns for a step are exactly the ids that predecessors lead to,
-- where a step's predecessors are its single source or else its declared `needs:`.
pub guaranteed_predecessors_iff :
    (flow : FlowDefinition) (id a : Text)
    → (mem a (guaranteed_predecessors flow id) ≡ true)
      ↔ Reached (predecessors flow) (predecessors flow id) a
unfolding guaranteed_predecessors
guaranteed_predecessors_iff flow id a =
    let stack = push_all (predecessors flow id) [] in
    let (to, from) =
      closure_iff (predecessors flow) (step_ids flow) (λ x y m. inl (mem-predecessors flow x y m))
        stack
        (λ x m.
          inl
            (mem-predecessors flow id x ((mem_iff x (predecessors flow id)).0 (rw mem_stack at m))))
        a in
    (
      λ m. Reached-starts (predecessors flow) stack (predecessors flow id) from_stack (to m),
      λ r. from (Reached-starts (predecessors flow) (predecessors flow id) stack to_stack r),
    )
  where
    from_stack :
        (x : Text) → Memᴰ x (push_all (predecessors flow id) []) → Memᴰ x (predecessors flow id)
    from_stack x m = (mem_iff x (predecessors flow id)).0 (
        ground (
          arith,
          mem_stack (predecessors flow id) x,
          (mem_iff x (push_all (predecessors flow id) [])).1 m,
        ))

    to_stack :
        (x : Text) → Memᴰ x (predecessors flow id) → Memᴰ x (push_all (predecessors flow id) [])
    to_stack x m =
        (mem_iff x (push_all (predecessors flow id) [])).0 (
          ground
            (arith, mem_stack (predecessors flow id) x, (mem_iff x (predecessors flow id)).1 m))
