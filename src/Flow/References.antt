-- ===== src/Flow/References.antt =====
-- The `{{ steps.<id>... }}` references in a step's texts, as
-- crates/flowspec-domain/src/flow/validate.rs extracts them. The fuel of the loops is the length
-- of the text, of which each round takes some away.
use flowspec_devkitd.Base.{
  ℕ, zero, suc, Bool, false, Text, codes, ◌==◌, List, [], ◌∷◌, ◌++◌, Option, none, some, length,
  flat_map, option_list,
}
use flowspec_devkitd.Base.Strings.{split_once, strip_prefix, split, trim}
use flowspec_devkitd.Flow.Types.{Step, StepWith, SerdeJson, kind}
use flowspec_devkitd.Template.{open_mark, close_mark}

-- The trimmed texts between `{{` and the next `}}`.
pub span_exprs : ℕ → Text → List Text
span_exprs zero rest = []
span_exprs (suc fuel) rest = elim (split_once open_mark rest) [
  | none ↦ []
  | some (before, after) ↦ elim (split_once close_mark after) [
    | none ↦ []
    | some (expr, rest') ↦ trim expr ∷ span_exprs fuel rest'
  ]
]

-- `path.split('.').next()`.
first_part : List Text → List Text
first_part [] = []
first_part (id ∷ parts) = id ∷ []

step_ref : Text → List Text
unfolding first_part
step_ref expr = elim (strip_prefix (codes "steps.") expr) [
  | none ↦ []
  | some path ↦ first_part (split b'.' path)
]

pub extract_step_refs : Text → List Text
unfolding span_exprs step_ref
extract_step_refs text = flat_map step_ref (span_exprs (length text) text)

-- The `input` of a cli step, and `reject_input`.
cli_input : Option StepWith → List Text
cli_input (some (StepWith.cli w)) = w.input ∷ []
cli_input _ = []

pub templates : SerdeJson → Step → List Text
unfolding cli_input
templates json step = cli_input (kind json step) ++ option_list step.reject_input

unfoldable pub step_template_step_refs : SerdeJson → Step → List Text
unfolding templates extract_step_refs
step_template_step_refs json step = flat_map extract_step_refs (templates json step)

-- `remainder.len() > 1 && remainder[0] == "output"`.
has_output_field : List Text → Bool
has_output_field (part ∷ name ∷ rest) = part == codes "output"
has_output_field _ = false

dotted_parts : List Text → List (Text × Bool)
unfolding has_output_field
dotted_parts [] = []
dotted_parts (id ∷ remainder) = (id, has_output_field remainder) ∷ []

dotted_ref : Text → List (Text × Bool)
unfolding dotted_parts
dotted_ref expr = elim (strip_prefix (codes "steps.") expr) [
  | none ↦ []
  | some path ↦ dotted_parts (split b'.' path)
]

unfoldable pub step_template_dotted_output_refs : SerdeJson → Step → List (Text × Bool)
unfolding templates span_exprs dotted_ref
step_template_dotted_output_refs json step =
    flat_map (λ text. flat_map dotted_ref (span_exprs (length text) text)) (templates json step)
