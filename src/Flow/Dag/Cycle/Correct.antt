-- ===== src/Flow/Dag/Cycle/Correct.antt =====
-- `find_cycle` decides whether the forward routing graph has a cycle.
use mathlib.Core.List.Memᴰ
use flowspec_devkitd.Base.{
  ℕ, ◌+◌, ◌<◌, ◌≡◌, refl, ◌≢◌, ◌↔◌, inl, inr, Text, List, [], ◌∷◌, none, some, arith, Memᴰ, length,
  length-map, length-filter-le_length, List-cases, Option-cases,
}
use flowspec_devkitd.Base.Map.{Map, get, get-insert}
use flowspec_devkitd.Base.Sets.{sort}
use flowspec_devkitd.Flow.Types.{FlowDefinition}
use flowspec_devkitd.Flow.Dag.{neighbors, forward_adjacency, step_ids}
use flowspec_devkitd.Flow.Dag.Edges.{forward_edges, forward_edge_iff, Declares-step}
use flowspec_devkitd.Flow.Dag.Cycle.{
  Color, white, gray, black, Search, Outcome, found, next, out_of_fuel, color_of, visit,
  visit_roots, all_white, search_cycle, find_cycle, outcome_cycle,
}
use flowspec_devkitd.Flow.Dag.Cycle.Chains.{
  IsCycle, Walk, edge, step, Topological-acyclic, Chain-Walk,
}
use flowspec_devkitd.Flow.Dag.Cycle.Invariant.{
  Sane, Later-refl, Returns, Returns-weaken, Returns-and_next, is_white, visit-Returns, mem_sort←,
}

color-all_white :
    (ids stack : List Text) (n : Text)
    → color_of (record { color = all_white ids; stack = stack }) n ≡ white
unfolding all_white get
color-all_white [] stack n = refl
color-all_white (id ∷ ids) stack n =
    ground (arith, get-insert (all_white ids) id n white, color-all_white ids stack n)

module _ (adj : Map (List Text)) (ids : List Text)
    (sources : (n : Text) → neighbors adj n ≢ [] → Memᴰ n ids) (fuel : ℕ)
    (enough : length ids < fuel) where
  root-Returns :
      (c : Color) (id : Text) (s : Search)
      → color_of s id ≡ c
      → Sane adj s
      → s.stack ≡ []
      → Returns adj s
          (λ t. color_of t id ≡ black)
          (elim c [ white ↦ visit adj fuel id s | gray ↦ next s | black ↦ next s ])
  root-Returns white id s e sane bottom =
      visit-Returns adj ids sources fuel id s sane e (rw bottom tt)
        (omega (arith, length-filter-le_length (λ n. is_white (color_of s n)) ids))
  root-Returns gray id s e sane bottom = absurd (Memᴰ.not-nil (rw bottom at (sane.grays id e)))
  root-Returns black id s e sane bottom = (sane, Later-refl s, e)

  roots-Returns :
      (roots : List Text) (s : Search)
      → Sane adj s
      → s.stack ≡ []
      → Returns adj s
          (λ t. (n : Text) → Memᴰ n roots → color_of t n ≡ black)
          (visit_roots adj fuel roots s)
  unfolding visit_roots
  roots-Returns [] s sane bottom = (sane, Later-refl s, λ n m. absurd (Memᴰ.not-nil m))
  roots-Returns (id ∷ rest) s sane bottom =
      Returns-and_next adj s (λ t. color_of t id ≡ black) _ _ _
        (root-Returns (color_of s id) id s refl sane bottom)
        λ t sane' later done.
          Returns-weaken adj s t (λ u. (n : Text) → Memᴰ n rest → color_of u n ≡ black) _ later
            (λ u later' all_done n m. elim (Memᴰ.cases_cons m) [
              | inl e ↦ let kept = later'.settled id (λ w. cc) in cc
              | inr m' ↦ all_done n m'
            ])
            (visit_roots adj fuel rest t)
            (roots-Returns rest t sane' (cc (later.same_stack, bottom)))

-- What the whole search returns: a cycle, or a state in which every step is black.
abbrev Finds : FlowDefinition → Outcome → Type 0
Finds flow (found cycle) = IsCycle (forward_adjacency flow) cycle
Finds flow (next t) =
    Sane (forward_adjacency flow) t × ((n : Text) → Memᴰ n (step_ids flow) → color_of t n ≡ black)
Finds flow out_of_fuel = ⊥

module _ (flow : FlowDefinition) where
  start : Search
  start = record { color = all_white (step_ids flow); stack = [] }

  start-Sane : Sane (forward_adjacency flow) start
  unfolding start
  start-Sane = record {
    grays = λ n e. cc (color-all_white (step_ids flow) [] n);
    finished = [];
    ordered = tt;
    blacks = λ n e. cc (color-all_white (step_ids flow) [] n);
  }

  forward_sources : (n : Text) → neighbors (forward_adjacency flow) n ≢ [] → Memᴰ n (step_ids flow)
  forward_sources n some_edge = elim (List-cases (neighbors (forward_adjacency flow) n)) [
    | inl e ↦ absurd (some_edge e)
    | inr (b, rest, e) ↦
        Declares-step forward_edges flow n b ((forward_edge_iff flow n b).0 (rw e (Memᴰ.head refl)))
  ]

  first_step : {a b : Text} → Walk (forward_adjacency flow) a b → Memᴰ a (step_ids flow)
  first_step {a} (edge {b} e) = forward_sources a (λ z. Memᴰ.not-nil (rw z at e))
  first_step (step w e) = first_step w

  length-step_ids : length (step_ids flow) < length flow.steps + 1
  length-step_ids = omega (arith, length-map flow.steps (λ s. s.id))

  weaken-Finds :
      (o : Outcome)
      → Returns
          (forward_adjacency flow)
          start
          (λ t. (n : Text) → Memᴰ n (sort (step_ids flow)) → color_of t n ≡ black)
          o
      → Finds flow o
  weaken-Finds (found c) r = r
  weaken-Finds (next t) r = (r.0, λ n m. r.2 n (mem_sort← n (step_ids flow) m))
  weaken-Finds out_of_fuel r = r

  search-Finds : Finds flow (search_cycle flow)
  unfolding search_cycle start
  search-Finds = weaken-Finds (search_cycle flow) (
      roots-Returns (forward_adjacency flow) (step_ids flow) forward_sources (length flow.steps + 1)
        length-step_ids (sort (step_ids flow)) start start-Sane refl)

  -- The fuel is enough: one round for each step and one for a node that is no step.
  pub search_cycle_terminates : search_cycle flow ≢ out_of_fuel
  search_cycle_terminates e = rw e at search-Finds

  outcome_sound :
      (o : Outcome) (path : List Text)
      → Finds flow o
      → outcome_cycle o ≡ some path
      → IsCycle (forward_adjacency flow) path
  outcome_sound (found c) path f e = let same : c ≡ path = cc in rw same at f
  outcome_sound (next t) path f e = cc
  outcome_sound out_of_fuel path f e = cc

  outcome_complete :
      (o : Outcome)
      → Finds flow o
      → outcome_cycle o ≡ none
      → (a : Text) → ¬ Walk (forward_adjacency flow) a a
  outcome_complete (found c) f e a = absurd (cc)
  outcome_complete out_of_fuel f e a = absurd f
  outcome_complete (next t) f e a = λ walk.
      Topological-acyclic (forward_adjacency flow) f.0.finished a f.0.ordered
        (f.0.blacks a (f.1 a (first_step walk))) walk

  -- A path that `find_cycle` returns is a cycle of the forward routing graph.
  pub find_cycle_sound :
      (path : List Text) → find_cycle flow ≡ some path → IsCycle (forward_adjacency flow) path
  unfolding find_cycle
  find_cycle_sound path = outcome_sound (search_cycle flow) path search-Finds

  -- `find_cycle` returns none exactly if no walk along forward routing edges leads back to its
  -- start.
  pub find_cycle_iff : (find_cycle flow ≡ none) ↔ ((a : Text) → ¬ Walk (forward_adjacency flow) a a)
  unfolding find_cycle
  find_cycle_iff = (
    outcome_complete (search_cycle flow) search-Finds,
    λ acyclic. elim (Option-cases (find_cycle flow)) [
      | inl e ↦ e
      | inr (path, e) ↦
          let cycle = find_cycle_sound path e in
          absurd (
            acyclic cycle.start (
              Chain-Walk (forward_adjacency flow) cycle.start cycle.middle cycle.start
                (rw cycle.closed at cycle.linked)))
    ],
  )
