-- ===== src/App/UseCases/Flows.antt =====
-- crates/flowspec-app/src/flow_source.rs and the listing of flows in
-- crates/flowspec-app/src/use_cases/queries.rs. The crate semver is a parameter.
use flowspec_devkitd.Base.{
  Bool, true, false, Text, ◌==◌, List, [], ◌∷◌, map, filter, Option, none, some, if◌then◌else◌,
  text_le,
}
use flowspec_devkitd.Base.Map.{Map, get, insert}
use flowspec_devkitd.Json.{Value}
use flowspec_devkitd.Flow.Types.{FlowDefinition, FlowInput}

-- What the code calls of semver: reading a version and a requirement, the test of a requirement,
-- and whether a version is greater than another.
pub record Semver : Type 1 where
  pub Version : Type 0
  pub parse : Text → Option Version
  pub requirement : Text → Option (Version → Bool)
  pub greater : Version → Version → Bool

pub record FlowInputSummary : Type 0 where
  pub name : Text
  pub ty : Text
  pub required : Bool
  pub default : Option Value
  pub description : Option Text

pub record FlowSummary : Type 0 where
  pub name : Text
  pub version : Text
  pub description : Option Text
  pub inputs : List FlowInputSummary

module _ (V : Semver) where
  -- Whether a definition's version meets a requirement, if there is one.
  pub meets : Option Text → FlowDefinition → Bool
  meets none f = true
  meets (some req) f = elim (V.parse f.version) [
    | none ↦ false
    | some v ↦ elim (V.requirement req) [ none ↦ false | some r ↦ r v ]
  ]

  -- The comparator of `sort_by` says `Greater`: the first must come behind the second.
  pub comes_behind : FlowDefinition → FlowDefinition → Bool
  comes_behind a b = elim (V.parse a.version) [
    | none ↦ if text_le b.version a.version then false else true
    | some x ↦ elim (V.parse b.version) [
      | none ↦ if text_le b.version a.version then false else true
      | some y ↦ V.greater y x
    ]
  ]

  -- The head of a stable sort. Where versions that parse stand beside others, the comparator need not
  -- be an order, and Rust leaves the result open.
  best : FlowDefinition → List FlowDefinition → FlowDefinition
  unfolding comes_behind
  best a [] = a
  best a (b ∷ rest) = if comes_behind a b then best b rest else best a rest

  abbrev first_best : List FlowDefinition → Option FlowDefinition
  first_best [] = none
  first_best (a ∷ rest) = some (best a rest)

  -- Only the head of the sorted list is read.
  unfoldable pub select_flow : List FlowDefinition → Text → Option Text → Option FlowDefinition
  unfolding best meets
  select_flow defs name version_req =
      first_best (filter (meets version_req) (filter (λ f. f.name == name) defs))

  pub is_newer : FlowDefinition → FlowDefinition → Bool
  is_newer flow existing = elim (V.parse flow.version) [
    | none ↦ false
    | some n ↦ elim (V.parse existing.version) [ none ↦ false | some o ↦ V.greater n o ]
  ]

  -- `entry(name).and_modify(..).or_insert(flow)`.
  pub newest : Option FlowDefinition → FlowDefinition → FlowDefinition
  unfolding is_newer
  newest none flow = flow
  newest (some existing) flow = if is_newer flow existing then flow else existing

  pub latest_flows : Map FlowDefinition → List FlowDefinition → Map FlowDefinition
  unfolding newest
  latest_flows by_name [] = by_name
  latest_flows by_name (flow ∷ rest) =
      latest_flows (insert by_name flow.name (newest (get by_name flow.name) flow)) rest

  pub list_flows_latest : List FlowDefinition → Map FlowDefinition
  unfolding latest_flows
  list_flows_latest flows = latest_flows [] flows

  abbrev input_summary : Text × FlowInput → FlowInputSummary
  input_summary (name, spec) = record {
    name = name;
    ty = spec.ty;
    required = spec.required;
    default = spec.default;
    description = spec.description;
  }

  abbrev flow_summary : FlowDefinition → FlowSummary
  flow_summary f = record {
    name = f.name;
    version = f.version;
    description = f.description;
    inputs = map input_summary f.inputs;
  }

  unfoldable pub list_flows : List FlowDefinition → List FlowSummary
  unfolding list_flows_latest
  list_flows flows = map (λ e. flow_summary e.1) (list_flows_latest flows)
