-- ===== src/Server/Devkitd.antt =====
-- crates/flowspec-server/src/devkitd/client.rs: what a job is started with, and the polling of a job
-- up to its end. The MCP connection and serde are parameters; a poll is one round with the times that
-- it reads. A duration counts seconds.
pub mod Laws
use mathlib.Core.Option
use mathlib.Core.Option.{get_or}
use flowspec_devkitd.Base.{
  ℕ, zero, suc, ◌+◌, ◌-◌, ◌*◌, ◌^◌, Bool, true, false, not, ◌&&◌, ◌||◌, Text, codes, ◌==◌, List, [],
  ◌∷◌, ◌++◌, Option, none, some, if◌then◌else◌, Result, ok, err, ltb, leb, length,
}
use flowspec_devkitd.Base.Decimal.{print_nat, u64_mod}
use flowspec_devkitd.Json.{Value, Fields, null, string, object, end, field, set_field}
use flowspec_devkitd.Base.Utf8.{code_bytes, utf8_length}
use flowspec_devkitd.App.Wire.{DevkitdError}
use flowspec_devkitd.App.Scheduler.Types.{StartRequest}

-- An `i64`.
pub data ℤ : Type 0 where
  pos : ℕ → ℤ
  negsuc : ℕ → ℤ

pub record JobStatusEnvelope : Type 0 where
  pub state : Text
  pub stdout : Option Text
  pub stderr : Option Text
  pub exit_code : Option ℤ

-- `CallToolResult`, as far as it is read: a content block is a text or something else.
pub record CallToolResult : Type 0 where
  pub is_error : Bool
  pub content : List (Option Text)

-- What the code calls of serde_json, with the text of an error.
pub record Serde : Type 0 where
  pub job_status : Text → Result Text JobStatusEnvelope
  pub job_created : Text → Result Text Text
  pub from_str : Text → Option Value

pub first_text : List (Option Text) → Option Text
first_text [] = none
first_text (some t ∷ rest) = some t
first_text (none ∷ rest) = first_text rest

-- `(max_kb as usize).saturating_mul(1024)`.
pub byte_limit : ℕ → ℕ
byte_limit max_kb = if ltb (max_kb * 1024) u64_mod then max_kb * 1024 else u64_mod - 1

-- The characters before the last character boundary within the limit.
pub take_bytes : ℕ → Text → Text
unfolding code_bytes
take_bytes limit [] = []
take_bytes limit (c ∷ s) =
    let rest = take_bytes (limit - code_bytes c) s in
    if leb (code_bytes c) limit then c ∷ rest else []

pub kb_mark : ℕ → Text
kb_mark max_kb = codes "…[truncated at " ++ (print_nat max_kb ++ codes " KB by flowspec]")

pub truncate_str : Text → ℕ → Text
unfolding byte_limit take_bytes kb_mark utf8_length
truncate_str raw max_kb =
    if leb (utf8_length raw) (byte_limit max_kb)
    then raw
    else take_bytes (byte_limit max_kb) raw ++ kb_mark max_kb

pub decode_stdout : Serde → Text → ℕ → Value
unfolding truncate_str byte_limit utf8_length
decode_stdout serde raw max_kb =
    if ltb (byte_limit max_kb) (utf8_length raw)
    then string (truncate_str raw max_kb)
    else get_or (serde.from_str raw) (string raw)

-- The bit pattern of the `i32` -1.
abbrev minus_one : ℕ
minus_one = 2 ^ 32 - 1

abbrev contract_error : Text → DevkitdError
contract_error stderr = DevkitdError.tool_error [] stderr minus_one

-- `retain(|_, v| !v.is_null())`.
pub drop_nulls : Fields → Fields
drop_nulls end = end
drop_nulls (field k null fs) = drop_nulls fs
drop_nulls (field k v fs) = field k v (drop_nulls fs)

abbrev argument_fields : Value → Fields
argument_fields (object fs) = fs
argument_fields null = end
argument_fields v = field (codes "value") v end

-- The arguments of the call that starts a job.
unfoldable pub start_arguments : StartRequest → Fields
unfolding drop_nulls set_field
start_arguments req = elim req.timeout_seconds [
  | none ↦ drop_nulls (argument_fields req.args)
  | some seconds ↦
      set_field (drop_nulls (argument_fields req.args)) (codes "_timeout_seconds")
        (string (print_nat seconds))
]

-- `start`, from the answer to the call on; `none` stands for `Unreachable`.
created : Serde → Option Text → Result DevkitdError Text
created serde none =
    err (contract_error (codes "devkitd: job creation response had no text content"))
created serde (some text) = elim (serde.job_created text) [
  | ok job_id ↦ ok job_id
  | err e ↦ err (contract_error (codes "devkitd: unparseable job creation response: " ++ e))
]

unfoldable pub started : Serde → ℕ → Option CallToolResult → Result DevkitdError Text
unfolding created first_text truncate_str
started serde max_kb none = err DevkitdError.unreachable
started serde max_kb (some r) =
    if r.is_error
    then err (contract_error (truncate_str (get_or (first_text r.content) []) max_kb))
    else created serde (first_text r.content)

-- `{:?}`.
exit_debug : Option ℤ → Text
exit_debug none = codes "None"
exit_debug (some (pos n)) = codes "Some(" ++ (print_nat n ++ codes ")")
exit_debug (some (negsuc n)) = codes "Some(-" ++ (print_nat (suc n) ++ codes ")")

abbrev failing_tool : Text → Text → ℕ → ℕ → DevkitdError
failing_tool stdout stderr exit_code max_kb =
    DevkitdError.tool_error (truncate_str stdout max_kb) stderr exit_code

-- A job that is done, by its exit code.
pub job_done : Serde → ℕ → Text → Text → Option ℤ → Result DevkitdError Value
unfolding decode_stdout truncate_str exit_debug
job_done serde max_kb stdout stderr (some (pos zero)) = ok (decode_stdout serde stdout max_kb)
job_done serde max_kb stdout stderr (some (negsuc (suc zero))) = err DevkitdError.timeout
job_done serde max_kb stdout stderr (some (negsuc zero)) =
    err (failing_tool stdout (truncate_str stderr max_kb) minus_one max_kb)
job_done serde max_kb stdout stderr (some (pos (suc n))) =
    if leb (suc n) 255
    then err (failing_tool stdout (truncate_str stderr max_kb) (suc n) max_kb)
    else err (
        failing_tool stdout
          (codes "devkitd: contract violation, exit_code=" ++ exit_debug (some (pos (suc n))))
          minus_one max_kb)
job_done serde max_kb stdout stderr other = err (
    failing_tool stdout (codes "devkitd: contract violation, exit_code=" ++ exit_debug other)
      minus_one max_kb)

-- One round of the loop in `wait`: the time of the test of the deadline, and the answer to the poll,
-- where `none` stands for `Unreachable`.
pub record Round : Type 0 where
  pub now : ℕ
  pub answer : Option CallToolResult

-- How a round ends: with a result, or with the number of failures in a row.
pub data RoundEnd : Type 0 where
  finished : Result DevkitdError Value → RoundEnd
  polling : (consecutive_failures : ℕ) → RoundEnd

module _ (serde : Serde) (max_kb : ℕ) (retries : ℕ) (deadline : Option ℕ) where
  -- The states in which a job is polled again, an unknown one among them.
  pub job_state : JobStatusEnvelope → RoundEnd
  unfolding job_done
  job_state e =
      if e.state == codes "cancelled"
      then finished (err DevkitdError.cancelled)
      else if e.state == codes "done"
      then finished (job_done serde max_kb (get_or e.stdout []) (get_or e.stderr []) e.exit_code)
      else polling 0

  pub status_text : Option Text → RoundEnd
  unfolding job_state
  status_text none =
      finished (err (contract_error (codes "devkitd: job-status response had no text content")))
  status_text (some text) = elim (serde.job_status text) [
    | err e ↦
        finished (err (contract_error (codes "devkitd: unparseable job-status response: " ++ e)))
    | ok e ↦ job_state e
  ]

  -- `retries` is the number of the delays between failing polls.
  pub polled : ℕ → Option CallToolResult → RoundEnd
  unfolding status_text first_text
  polled failures none =
      if leb retries failures
      then finished (err DevkitdError.unreachable)
      else polling (suc failures)
  polled failures (some r) =
      if r.is_error
      then finished (err DevkitdError.interrupted)
      else status_text (first_text r.content)

  abbrev pub is_late : ℕ → Bool
  is_late now = elim deadline [ none ↦ false | some d ↦ leb d now ]

  -- At the deadline the job is cancelled.
  pub round : ℕ → Round → RoundEnd
  unfolding polled
  round failures r =
      if is_late r.now then finished (err DevkitdError.timeout) else polled failures r.answer

  -- `none` where the rounds do not end the wait.
  unfoldable pub wait : ℕ → List Round → Option (Result DevkitdError Value)
  unfolding round
  wait failures [] = none
  wait failures (r ∷ rest) = elim (round failures r) [
    | finished result ↦ some result
    | polling n ↦ wait n rest
  ]

-- `cancel`, by whether devkitd was reached at each attempt.
unfoldable pub cancel : ℕ → List Bool → Option (Result DevkitdError (Unit {0}))
cancel attempt [] = none
cancel attempt (reached ∷ rest) =
    let later = cancel (suc attempt) rest in
    if reached
    then some (ok tt)
    else if leb 3 (suc attempt)
    then some (err DevkitdError.unreachable)
    else later
