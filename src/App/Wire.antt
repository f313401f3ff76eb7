-- ===== src/App/Wire.antt =====
-- crates/flowspec-app/src/wire.rs and the errors of the devkitd port in
-- crates/flowspec-app/src/ports.rs: how a job failure and a step's output are shown.
pub mod Summary
use flowspec_devkitd.Base.{
  ℕ, ◌+◌, ◌-◌, ◌^◌, Bool, true, false, Text, codes, List, [], ◌∷◌, ◌++◌, Option, none, some, ltb,
  leb, if◌then◌else◌, length, take,
}
use flowspec_devkitd.Base.Decimal.{print_nat}
use flowspec_devkitd.Base.Utf8.{utf8_length}
use flowspec_devkitd.Json.{Value, string}
use flowspec_devkitd.Flow.Types.{SerdeJson}
use flowspec_devkitd.App.Ports.{JobFailure}

-- The exit code is an `i32`, kept as its bit pattern.
pub data DevkitdError : Type 0 where
  tool_error : (stdout stderr : Text) (exit_code : ℕ) → DevkitdError
  timeout interrupted cancelled unreachable : DevkitdError

abbrev i32_sign : ℕ
i32_sign = 2 ^ 31

abbrev i32_mod : ℕ
i32_mod = 2 ^ 32

print_i32 : ℕ → Text
print_i32 n = if ltb n i32_sign then print_nat n else b'-' ∷ print_nat (i32_mod - n)

-- `Display`.
unfoldable pub devkitd_error_text : DevkitdError → Text
unfolding print_i32
devkitd_error_text (tool_error stdout stderr exit_code) =
    codes "tool error: exit_code="
    ++ (print_i32 exit_code ++ (codes " stdout=" ++ (stdout ++ (codes " stderr=" ++ stderr))))
devkitd_error_text timeout = codes "timeout"
devkitd_error_text interrupted = codes "interrupted"
devkitd_error_text cancelled = codes "cancelled"
devkitd_error_text unreachable = codes "unreachable"

abbrev plain_failure : Text → JobFailure
plain_failure kind = record { kind = kind; exit_code = none; stdout = none; stderr = none }

-- `JobFailure::from`.
unfoldable pub job_failure : DevkitdError → JobFailure
job_failure (tool_error stdout stderr exit_code) = record {
  kind = codes "tool_error";
  exit_code = some exit_code;
  stdout = some stdout;
  stderr = some stderr;
}
job_failure timeout = plain_failure (codes "timeout")
job_failure interrupted = plain_failure (codes "interrupted")
job_failure cancelled = plain_failure (codes "cancelled")
job_failure unreachable = plain_failure (codes "unreachable")

pub record OutputSummary : Type 0 where
  pub text : Text
  pub bytes : ℕ
  pub truncated : Bool

abbrev pub output_text : SerdeJson → Value → Text
output_text json (string s) = s
output_text json v = json.to_string v

pub truncation_mark : ℕ → Text
truncation_mark bytes =
    codes "…[truncated, " ++ (print_nat bytes ++ codes " bytes total; use get_step_output]")

abbrev pub summary_of : Text → ℕ → OutputSummary
summary_of text max_chars =
    if leb (length text) max_chars
    then record { text = text; bytes = utf8_length text; truncated = false }
    else record {
      text = take max_chars text ++ truncation_mark (utf8_length text);
      bytes = utf8_length text;
      truncated = true;
    }

unfoldable pub summarize_output : SerdeJson → Value → ℕ → OutputSummary
unfolding utf8_length truncation_mark
summarize_output json value max_chars = summary_of (output_text json value) max_chars
