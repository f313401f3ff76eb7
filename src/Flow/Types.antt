-- ===== src/Flow/Types.antt =====
-- crates/flowspec-domain/src/flow/types.rs: a flow as it is declared. An `IndexMap` is the list of
-- its entries in insertion order, a `u32` a number.
use flowspec_devkitd.Base.{ℕ, Bool, Text, codes, List, [], ◌∷◌, Option, find?, ◌==◌}
use flowspec_devkitd.Json.{Value}
use mathlib.Core.Option

-- Either one string target or a fan-out list.
pub data RouteTarget : Type 0 where
  one : Text → RouteTarget
  many : List Text → RouteTarget

unfoldable pub as_slice : RouteTarget → List Text
as_slice (one s) = s ∷ []
as_slice (many v) = v

abbrev pub done_target : Text
done_target = codes "done"

pub data HookCondition : Type 0 where
  succeeded failed cancelled always : HookCondition

pub record HookCall : Type 0 where
  pub hook : Text
  pub args : List (Text × Value)
  pub timeout : Option Text
  pub when : Option HookCondition
  pub always_continue : Bool

pub record LifecycleHooks : Type 0 where
  pub before_run : List HookCall
  pub after_run : List HookCall

pub record CliWith : Type 0 where
  pub cli : Text
  pub role : Option Text
  pub input : Text
  pub output : Option Text
  pub extra : List (Text × Value)

pub record SubflowWith : Type 0 where
  pub flow : Text
  pub version : Option Text
  pub inputs : List (Text × Value)
  pub output : Option Text

pub data StepWith : Type 0 where
  cli : CliWith → StepWith
  subflow : SubflowWith → StepWith

pub data StepType : Type 0 where
  cli subflow : StepType

pub record Step : Type 0 where
  pub id : Text
  pub step_type : StepType
  pub with_value : Value  -- the field `with`
  pub human_loop : Bool
  pub timeout : Option Text
  pub retries : ℕ
  pub reject_input : Option Text
  pub before : List HookCall
  pub after : List HookCall
  pub on_success : Option RouteTarget
  pub on_failure : Option RouteTarget
  pub on_approve : Option RouteTarget
  pub on_reject : Option RouteTarget
  pub needs : List Text

-- What the code calls of serde_json: printing a value, and reading a `with:` payload at the two
-- types that it may have.
pub record SerdeJson : Type 0 where
  pub to_string : Value → Text
  pub cli_from_value : Value → Option CliWith
  pub subflow_from_value : Value → Option SubflowWith

unfoldable pub type_name : StepType → Text
type_name StepType.cli = codes "cli"
type_name StepType.subflow = codes "subflow"

kind_of : SerdeJson → StepType → Value → Option StepWith
kind_of json StepType.cli v = Option.map StepWith.cli (json.cli_from_value v)
kind_of json StepType.subflow v = Option.map StepWith.subflow (json.subflow_from_value v)

-- `None` when `with` does not have the shape that the step's type wants.
unfoldable pub kind : SerdeJson → Step → Option StepWith
unfolding kind_of
kind json step = kind_of json step.step_type step.with_value

pub record FlowInput : Type 0 where
  pub ty : Text
  pub required : Bool
  pub description : Option Text
  pub default : Option Value

pub record FlowDefaults : Type 0 where
  pub cli : Option Text
  pub provider : Option Text
  pub model : Option Text

pub record FlowDefinition : Type 0 where
  pub name : Text
  pub version : Text
  pub description : Option Text
  pub inputs : List (Text × FlowInput)
  pub outputs : List (Text × Text)
  pub defaults : FlowDefaults
  pub timeout : Option Text
  pub lifecycle : LifecycleHooks
  pub metadata : List (Text × Value)
  pub flowspec_version : Option Text
  pub steps : List Step

abbrev pub find_step : List Step → Text → Option Step
find_step steps id = find? (λ s. s.id == id) steps

-- `FlowDefinition::step`.
abbrev pub flow_step : FlowDefinition → Text → Option Step
flow_step flow id = find_step flow.steps id

-- A file holds a single `flow:` or an array under `flows:`.
pub data FlowFile : Type 0 where
  single : FlowDefinition → FlowFile
  multiple : List FlowDefinition → FlowFile

unfoldable pub into_definitions : FlowFile → List FlowDefinition
into_definitions (single flow) = flow ∷ []
into_definitions (multiple flows) = flows
