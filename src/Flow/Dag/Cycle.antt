-- ===== src/Flow/Dag/Cycle.antt =====
-- `find_cycle` of crates/flowspec-domain/src/flow/dag.rs: a depth-first search with three colours.
-- Fuel bounds the depth; `out_of_fuel` is an outcome that the source does not have.
pub mod Chains
pub mod Invariant
pub mod Correct
use mathlib.Core.Option.{get_or}
use flowspec_devkitd.Base.{
  ℕ, zero, suc, ◌+◌, Bool, true, false, Text, ◌==◌, List, [], ◌∷◌, ◌++◌, map, Option, none, some,
  if◌then◌else◌, length,
}
use flowspec_devkitd.Base.Map.{Map, get, insert}
use flowspec_devkitd.Base.Sets.{sort}
use flowspec_devkitd.Flow.Types.{FlowDefinition}
use flowspec_devkitd.Flow.Dag.{neighbors, forward_adjacency, step_ids}

pub data Color : Type 0 where
  white gray black : Color

pub record Search : Type 0 where
  pub color : Map Color
  pub stack : List Text

pub data Outcome : Type 0 where
  found : List Text → Outcome
  next : Search → Outcome
  out_of_fuel : Outcome

-- `color.get(node).copied().unwrap_or(Color::White)`.
abbrev pub color_of : Search → Text → Color
color_of s node = get_or (get s.color node) white

-- `stack[position(next)..]`, or the whole stack if it is not there.
pub from_position : Text → List Text → Option (List Text)
from_position a [] = none
from_position a (x ∷ xs) = if x == a then some (x ∷ xs) else from_position a xs

pub cycle_path : List Text → Text → List Text
unfolding from_position
cycle_path stack node = get_or (from_position node stack) stack ++ node ∷ []

pub pop : List Text → List Text
pop [] = []
pop (x ∷ []) = []
pop (x ∷ y ∷ r) = x ∷ pop (y ∷ r)

abbrev pub enter : Text → Search → Search
enter node s = record { color = insert s.color node gray; stack = s.stack ++ node ∷ [] }

abbrev pub leave : Text → Search → Search
leave node s = record { color = insert s.color node black; stack = pop s.stack }

abbrev pub and_next : Outcome → (Search → Outcome) → Outcome
and_next (next s) f = f s
and_next (found c) f = found c
and_next out_of_fuel f = out_of_fuel

-- What is done with one neighbor, by its color.
pub meet : (Text → Search → Outcome) → Color → Text → Search → Outcome
unfolding cycle_path
meet visit white node s = visit node s
meet visit gray node s = found (cycle_path s.stack node)
meet visit black node s = next s

-- The `for` loop over the sorted neighbors.
unfoldable pub scan : (Text → Search → Outcome) → List Text → Search → Outcome
unfolding meet
scan visit [] s = next s
scan visit (node ∷ rest) s = and_next (meet visit (color_of s node) node s) λ s'. scan visit rest s'

module _ (adj : Map (List Text)) where
  pub visit : ℕ → Text → Search → Outcome
  visit zero node s = out_of_fuel
  visit (suc fuel) node s =
      and_next (scan (visit fuel) (sort (neighbors adj node)) (enter node s))
        λ s'. next (leave node s')

  -- The `for` loop over the sorted step ids.
  pub visit_roots : ℕ → List Text → Search → Outcome
  unfolding visit
  visit_roots fuel [] s = next s
  visit_roots fuel (id ∷ ids) s =
      and_next (elim (color_of s id) [ white ↦ visit fuel id s | gray ↦ next s | black ↦ next s ])
        λ s'. visit_roots fuel ids s'

pub all_white : List Text → Map Color
all_white [] = []
all_white (id ∷ ids) = insert (all_white ids) id white

-- The deepest path visits each step once, and one node that is no step.
pub search_cycle : FlowDefinition → Outcome
unfolding visit_roots pop all_white
search_cycle flow =
    visit_roots (forward_adjacency flow) (length flow.steps + 1) (sort (step_ids flow))
      (record { color = all_white (step_ids flow); stack = [] })

abbrev pub outcome_cycle : Outcome → Option (List Text)
outcome_cycle (found cycle) = some cycle
outcome_cycle _ = none

unfoldable pub find_cycle : FlowDefinition → Option (List Text)
unfolding search_cycle
find_cycle flow = outcome_cycle (search_cycle flow)
