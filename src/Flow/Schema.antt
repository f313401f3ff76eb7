-- ===== src/Flow/Schema.antt =====
-- crates/flowspec-domain/src/flow/schema.rs: field constraints and duration strings.
pub mod Fields
pub mod Duration
use mathlib.Core.Option
use flowspec_devkitd.Base.{
  ℕ, ◌*◌, ◌-◌, ◌%◌, ◌==◌, Bool, true, false, not, ◌&&◌, ◌||◌, Text, codes, List, [], ◌∷◌, ◌++◌,
  Option, none, some, if◌then◌else◌, eqb, leb, ltb, all, is_empty, Partial, returns, panics,
  and_then,
}
use flowspec_devkitd.Base.Utf8.{utf8_length, split_at}
use flowspec_devkitd.Base.Strings.{trim}
use flowspec_devkitd.Base.Decimal.{parse_u64, u64_mod}
use flowspec_devkitd.Flow.Types.{FlowDefinition, Step}

-- A broken rule: its name, the step if one is to blame, and a message. `FieldViolation` and
-- `Violation` have the same fields.
pub record Violation : Type 0 where
  pub rule : Text
  pub step : Option Text
  pub message : Text

is_id_char : ℕ → Bool
is_id_char c = leb b'a' c && leb c b'z' || leb b'0' c && leb c b'9' || eqb c b'-' || eqb c b'_'

unfoldable pub is_valid_id : Text → Bool
unfolding is_id_char
is_valid_id id = not (is_empty id) && all is_id_char id

-- `n * 60` and `n * 3600` on `u64`, as a release build wraps them.
scale : ℕ → Text → Option ℕ
scale n unit =
    if unit == codes "s"
    then some n
    else if unit == codes "m"
    then some (n * 60 % u64_mod)
    else if unit == codes "h"
    then some (n * 3600 % u64_mod)
    else none

-- The number and the unit of a text that is cut in two.
pub seconds : Text × Text → Partial (Option ℕ)
unfolding scale
seconds (num, unit) = returns (Option.bind (parse_u64 num) λ n. scale n unit)

-- Seconds of a text such as `10m`. The text is cut one byte before its end.
unfoldable pub parse_duration : Text → Partial (Option ℕ)
unfolding seconds split_at utf8_length
parse_duration s =
    if is_empty (trim s)
    then returns none
    else and_then (split_at (trim s) (utf8_length (trim s) - 1)) seconds

-- The violations of one optional timeout.
timeout_violations : Option Text → Option Text → (Text → Text) → Partial (List Violation)
timeout_violations none step message = returns []
timeout_violations (some t) step message = and_then (parse_duration t) λ parsed.
    returns (elim parsed [
      | some _ ↦ []
      | none ↦ record { rule = codes "valid_duration"; step = step; message = message t } ∷ []
    ])

id_violations : Step → List Violation
id_violations step =
    if is_valid_id step.id
    then []
    else record {
      rule = codes "valid_step_id";
      step = some step.id;
      message = codes "step id '" ++ (step.id ++ codes "' must match [a-z0-9_-]+");
    }
      ∷ []

step_field_violations : List Step → Partial (List Violation)
unfolding id_violations timeout_violations
step_field_violations [] = returns []
step_field_violations (step ∷ rest) =
    and_then
      (timeout_violations step.timeout (some step.id)
        (λ t. codes "step '" ++ (step.id ++ (codes "' has invalid timeout '" ++ (t ++ codes "'")))))
      λ vs. and_then (step_field_violations rest) λ ws. returns (id_violations step ++ (vs ++ ws))

unfoldable pub validate_fields : FlowDefinition → Partial (List Violation)
unfolding step_field_violations
validate_fields flow =
    let no_steps =
      if is_empty flow.steps
      then record {
        rule = codes "non_empty_steps";
        step = none;
        message = codes "flow must declare at least one step";
      }
        ∷ []
      else [] in
    and_then (step_field_violations flow.steps) λ vs.
      and_then
        (timeout_violations flow.timeout none
          (λ t. codes "flow timeout '" ++ (t ++ codes "' is invalid")))
        λ ws. returns (no_steps ++ (vs ++ ws))
