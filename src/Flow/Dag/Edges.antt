-- ===== src/Flow/Dag/Edges.antt =====
-- The adjacency maps hold exactly the edges that the steps declare.
use mathlib.Core.List.Memᴰ
use flowspec_devkitd.Base.{
  true, ◌&&◌, ◌||◌, ◌≡◌, ◌↔◌, inl, inr, Text, ◌==◌, ==_iff, List, [], ◌∷◌, filter, any, any-eq-true,
  any_iff, refl, ap, subst, Option, none, some, arith, Memᴰ, Bool-cases,
}
use flowspec_devkitd.Base.Map.{Map, get, get-insert}
use flowspec_devkitd.Base.Sets.{mem, mem_iff, set_extend, mem-set_extend}
use flowspec_devkitd.Flow.Types.{FlowDefinition, Step, RouteTarget, as_slice}
use flowspec_devkitd.Flow.Dag.{
  targets_of, forward_routes, routing_targets, is_edge, neighbors, add_edges, adjacency_from,
  adjacency, is_singleton, is_route_to, is_self_reject_loop, forward_from, forward_adjacency,
  step_ids,
}

-- The edges that a step declares: forward ones, and all.
abbrev pub forward_edges : Step → List Text
forward_edges step = filter (is_edge step) (targets_of (forward_routes step))

abbrev pub routing_edges : Step → List Text
routing_edges step = filter (is_edge step) (routing_targets step)

-- A step of the flow with the id `a` declares the edge.
pub record Declares (edges : Step → List Text) (flow : FlowDefinition) (a b : Text) : Type 0 where
  pub source : Step
  pub listed : Memᴰ source flow.steps
  pub named : source.id ≡ a
  pub target : Memᴰ b (edges source)

mem-add_edges :
    (adj : Map (List Text)) (id : Text) (targets : List Text) (a b : Text)
    → mem b (neighbors (add_edges adj id targets) a)
      ≡ (mem b (neighbors adj a) || (id == a && mem b targets))
unfolding add_edges
mem-add_edges adj id targets a b = ground (
  arith,
  get-insert adj id a (set_extend (neighbors adj id) targets),
  ==_iff id a,
  mem-set_extend b targets (neighbors adj id),
)

mem-forward_from :
    (steps : List Step) (adj : Map (List Text)) (a b : Text)
    → mem b (neighbors (forward_from adj steps) a)
      ≡ (mem b (neighbors adj a) || any (λ s. s.id == a && mem b (forward_edges s)) steps)
unfolding forward_from
mem-forward_from [] adj a b = ground arith
mem-forward_from (s ∷ r) adj a b = ground (
  arith,
  mem-forward_from r (add_edges adj s.id (forward_edges s)) a b,
  mem-add_edges adj s.id (forward_edges s) a b,
)

mem-adjacency_from :
    (steps : List Step) (adj : Map (List Text)) (a b : Text)
    → mem b (neighbors (adjacency_from adj steps) a)
      ≡ (mem b (neighbors adj a) || any (λ s. s.id == a && mem b (routing_edges s)) steps)
unfolding adjacency_from
mem-adjacency_from [] adj a b = ground arith
mem-adjacency_from (s ∷ r) adj a b = ground (
  arith,
  mem-adjacency_from r (add_edges adj s.id (routing_edges s)) a b,
  mem-add_edges adj s.id (routing_edges s) a b,
)

pub any-Declares :
    (edges : Step → List Text) (flow : FlowDefinition) (a b : Text)
    → (any (λ s. s.id == a && mem b (edges s)) flow.steps ≡ true) ↔ Declares edges flow a b
any-Declares edges flow a b = (
  λ h.
      let (s, m, e) = any-eq-true (λ s. s.id == a && mem b (edges s)) flow.steps h in
      let named : (s.id == a) ≡ true = ground arith in
      let target : mem b (edges s) ≡ true = ground arith in
      record {
        source = s;
        listed = m;
        named = (==_iff s.id a).0 named;
        target = (mem_iff b (edges s)).0 target;
      },
  λ d. elim (Bool-cases (any (λ s. s.id == a && mem b (edges s)) flow.steps)) [
    | inl yes_any ↦ yes_any
    | inr none_any ↦
        let fails = (any_iff _ flow.steps).0 none_any d.source d.listed in
        let named = (==_iff d.source.id a).1 d.named in
        let target = (mem_iff b (edges d.source)).1 d.target in absurd (ground arith)
  ],
)

pub forward_edge_iff :
    (flow : FlowDefinition) (a b : Text)
    → Memᴰ b (neighbors (forward_adjacency flow) a) ↔ Declares forward_edges flow a b
unfolding forward_adjacency mem get
forward_edge_iff flow a b =
    let same = mem-forward_from flow.steps [] a b in
    (
      λ m.
          let h = (mem_iff b (neighbors (forward_adjacency flow) a)).1 m in
          (any-Declares forward_edges flow a b).0 (ground arith),
      λ d.
          let h = (any-Declares forward_edges flow a b).1 d in
          (mem_iff b (neighbors (forward_adjacency flow) a)).0 (ground arith),
    )

pub routing_edge_iff :
    (flow : FlowDefinition) (a b : Text)
    → Memᴰ b (neighbors (adjacency flow) a) ↔ Declares routing_edges flow a b
unfolding adjacency mem get
routing_edge_iff flow a b =
    let same = mem-adjacency_from flow.steps [] a b in
    (
      λ m.
          let h = (mem_iff b (neighbors (adjacency flow) a)).1 m in
          (any-Declares routing_edges flow a b).0 (ground arith),
      λ d.
          let h = (any-Declares routing_edges flow a b).1 d in
          (mem_iff b (neighbors (adjacency flow) a)).0 (ground arith),
    )

-- Only steps have outgoing edges.
pub Declares-step :
    (edges : Step → List Text) (flow : FlowDefinition) (a b : Text)
    → Declares edges flow a b
    → Memᴰ a (step_ids flow)
Declares-step edges flow a b d = rw (← d.named) (Memᴰ.map (λ s. s.id) d.listed)

is_singleton_iff : (id : Text) (xs : List Text) → (is_singleton id xs ≡ true) ↔ (xs ≡ id ∷ [])
unfolding is_singleton
is_singleton_iff id [] = (λ h. cc, λ h. cc)
is_singleton_iff id (x ∷ []) =
    (λ h. ap (λ y. y ∷ []) ((==_iff x id).0 h), λ h. (==_iff x id).1 (cc h))
is_singleton_iff id (x ∷ y ∷ r) = (λ h. cc, λ h. cc)

is_route_to_iff :
    (id : Text) (route : Option RouteTarget)
    → (is_route_to id route ≡ true)
      ↔ ((r : RouteTarget) × (route ≡ some r) × (as_slice r ≡ id ∷ []))
unfolding is_route_to
is_route_to_iff id none = (λ h. cc, λ (r, e, single). cc e)
is_route_to_iff id (some r) = (
  λ h. (r, refl, (is_singleton_iff id (as_slice r)).0 h),
  λ (q, e, single).
      (is_singleton_iff id (as_slice r)).1
        (let same : q ≡ r = cc e in subst (λ x. as_slice x ≡ id ∷ []) same single),
)

-- A rejection of the step routes to the step itself, and nowhere else.
pub self_reject_iff :
    (step : Step)
    → (is_self_reject_loop step ≡ true)
      ↔ ((r : RouteTarget) × (step.on_reject ≡ some r) × (as_slice r ≡ step.id ∷ []))
unfolding is_self_reject_loop
self_reject_iff step = is_route_to_iff step.id step.on_reject
