-- ===== src/Template.antt =====
-- crates/flowspec-domain/src/template.rs: `{{ ... }}` spans and the context that they are read in.
pub mod Context
pub mod Fuel
use mathlib.Core.Option
use flowspec_devkitd.Base.{
  ℕ, zero, suc, ◌≡◌, Bool, true, false, ◌||◌, Text, codes, ◌==◌, List, [], ◌∷◌, ◌++◌, Option, none,
  some, if◌then◌else◌, length, Result, ok, err, ◌>>=◌,
}
use flowspec_devkitd.Base.Strings.{trim, strip_prefix, strip_suffix, split_once, contains, split}
use flowspec_devkitd.Base.Map.{Map, get, insert}
use flowspec_devkitd.Json.{
  Value, Values, Fields, null, bool, number, string, array, object, nil, cons, end, field,
  get_field, as_object,
}
use flowspec_devkitd.Flow.Types.{FlowDefinition, Step, SerdeJson}
use flowspec_devkitd.Run.Types.{RunState, StepRun, state_step}

pub data TemplateError : Type 0 where
  unresolvable_reference : (reference step : Text) → TemplateError
  unstructured_output : (reference step : Text) → TemplateError
  unterminated : (step : Text) → TemplateError

pub record StepContext : Type 0 where
  pub output : Option Value
  pub feedback : Option Value
  pub approval_comment : Option Value
  pub run : Option Value

pub record TemplateContext : Type 0 where
  pub inputs : Value
  pub trigger : Value
  pub env : Value
  pub steps : Map StepContext
  pub run : Value

abbrev pub step_context : StepRun → StepContext
step_context s = record {
  output = s.output;
  feedback = Option.map string s.feedback;
  approval_comment = Option.map string s.approval_comment;
  run = none;
}

abbrev insert_context : Map StepContext → Text → Option StepRun → Map StepContext
insert_context m id none = m
insert_context m id (some s) = insert m id (step_context s)

-- The `for` loop of `build_context`.
pub context_steps : RunState → List Step → Map StepContext → Map StepContext
context_steps state [] m = m
context_steps state (step ∷ rest) m =
    context_steps state rest (insert_context m step.id (state_step state step.id))

unfoldable pub build_context : FlowDefinition → RunState → Value → TemplateContext
unfolding context_steps
build_context flow state env = record {
  inputs = state.inputs;
  trigger = state.trigger;
  env = env;
  steps = context_steps state flow.steps [];
  run = null;
}

unfoldable pub dot_get : Value → List Text → Option Value
dot_get value [] = some value
dot_get value (key ∷ path) =
    Option.bind (as_object value) λ fs. Option.bind (get_field fs key) λ v. dot_get v path

-- `ok_or_else`.
abbrev pub ok_or {ℓ κ} : {A : Type ℓ} {E : Type κ} → Option A → E → Result E A
ok_or none e = err e
ok_or (some a) e = ok a

-- `steps.<id>.output<rest>`.
resolve_output : TemplateError → TemplateError → Value → List Text → Result TemplateError Value
resolve_output unresolved unstructured output [] = ok output
resolve_output unresolved unstructured (string _) (key ∷ path) = err unstructured
resolve_output unresolved unstructured output (key ∷ path) =
    ok_or (dot_get output (key ∷ path)) unresolved

-- A field of `steps.<id>` that has no path below it.
resolve_leaf : TemplateError → Option Value → List Text → Result TemplateError Value
resolve_leaf unresolved value [] = ok_or value unresolved
resolve_leaf unresolved value (_ ∷ _) = err unresolved

resolve_run : TemplateError → Value → List Text → Result TemplateError Value
resolve_run unresolved run [] = ok run
resolve_run unresolved run (key ∷ path) = ok_or (dot_get run (key ∷ path)) unresolved

resolve_step :
    TemplateError → TemplateError → StepContext → Text → List Text → Result TemplateError Value
unfolding resolve_output resolve_leaf resolve_run
resolve_step unresolved unstructured sc name rest =
    if name == codes "output"
    then (ok_or sc.output unresolved >>= λ v. resolve_output unresolved unstructured v rest)
    else if name == codes "feedback"
    then resolve_leaf unresolved sc.feedback rest
    else if name == codes "approval_comment"
    then resolve_leaf unresolved sc.approval_comment rest
    else if name == codes "run"
    then (ok_or sc.run unresolved >>= λ v. resolve_run unresolved v rest)
    else err unresolved

-- `["steps", id, field, rest @ ..]`.
resolve_steps :
    TemplateError → TemplateError → Map StepContext → List Text → Result TemplateError Value
unfolding resolve_step
resolve_steps unresolved unstructured steps (id ∷ name ∷ rest) =
    ok_or (get steps id) unresolved >>= λ sc. resolve_step unresolved unstructured sc name rest
resolve_steps unresolved unstructured steps _ = err unresolved

resolve_parts :
    TemplateError → TemplateError → TemplateContext → List Text → Result TemplateError Value
unfolding resolve_steps
resolve_parts unresolved unstructured ctx [] = err unresolved
resolve_parts unresolved unstructured ctx (root ∷ rest) =
    if root == codes "inputs"
    then ok_or (dot_get ctx.inputs rest) unresolved
    else if root == codes "trigger"
    then ok_or (dot_get ctx.trigger rest) unresolved
    else if root == codes "env"
    then ok_or (dot_get ctx.env rest) unresolved
    else if root == codes "run"
    then ok_or (dot_get ctx.run rest) unresolved
    else if root == codes "steps"
    then resolve_steps unresolved unstructured ctx.steps rest
    else err unresolved

unfoldable pub resolve_path : Text → TemplateContext → Text → Result TemplateError Value
unfolding resolve_parts
resolve_path expr ctx step =
    resolve_parts (unresolvable_reference expr step) (unstructured_output expr step) ctx
      (split b'.' expr)

abbrev pub open_mark : Text
open_mark = codes "{{"

abbrev pub close_mark : Text
close_mark = codes "}}"

-- The inner expression, if the trimmed text is exactly one span.
unfoldable pub whole_span : Text → Option Text
whole_span text = Option.bind (strip_prefix open_mark (trim text)) λ s.
    Option.bind (strip_suffix close_mark s) λ inner.
      if contains open_mark inner || contains close_mark inner then none else some (trim inner)

module _ (json : SerdeJson) where
  unfoldable pub render_value : Value → Text
  render_value (string s) = s
  render_value v = json.to_string v

  module _ (ctx : TemplateContext) (step : Text) where
    -- The `loop`. The fuel is a bound on the length of `rest`: at zero it is empty.
    pub resolve_loop : ℕ → Text → Text → Result TemplateError Text
    resolve_loop zero out rest = ok (out ++ rest)
    resolve_loop (suc fuel) out rest = elim (split_once open_mark rest) [
      | none ↦ ok (out ++ rest)
      | some (literal, after_open) ↦ elim (split_once close_mark after_open) [
        | none ↦ err (unterminated step)
        | some (expr, rest') ↦ resolve_path (trim expr) ctx step >>= λ value.
            resolve_loop fuel ((out ++ literal) ++ render_value value) rest'
      ]
    ]

    unfoldable pub resolve : Text → Result TemplateError Text
    unfolding resolve_loop
    resolve text = elim (whole_span text) [
      | some expr ↦ resolve_path expr ctx step >>= λ value. ok (render_value value)
      | none ↦ resolve_loop (length text) [] text
    ]

unfoldable mutual
  unfolding resolve

  pub resolve_value : SerdeJson → TemplateContext → Text → Value → Result TemplateError Value
  resolve_value json ctx step (string s) = resolve json ctx step s >>= λ t. ok (string t)
  resolve_value json ctx step (array vs) = resolve_values json ctx step vs >>= λ ws. ok (array ws)
  resolve_value json ctx step (object fs) = resolve_fields json ctx step fs >>= λ gs. ok (object gs)
  resolve_value json ctx step null = ok null
  resolve_value json ctx step (bool b) = ok (bool b)
  resolve_value json ctx step (number n) = ok (number n)

  pub resolve_values : SerdeJson → TemplateContext → Text → Values → Result TemplateError Values
  resolve_values json ctx step nil = ok nil
  resolve_values json ctx step (cons v vs) = resolve_value json ctx step v >>= λ w.
      resolve_values json ctx step vs >>= λ ws. ok (cons w ws)

  pub resolve_fields : SerdeJson → TemplateContext → Text → Fields → Result TemplateError Fields
  resolve_fields json ctx step end = ok end
  resolve_fields json ctx step (field k v fs) = resolve_value json ctx step v >>= λ w.
      resolve_fields json ctx step fs >>= λ gs. ok (field k w gs)
