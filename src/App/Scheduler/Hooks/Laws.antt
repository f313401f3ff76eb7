-- ===== src/App/Scheduler/Hooks/Laws.antt =====
-- Which hooks end a batch, and the row that each hook leaves.
use flowspec_devkitd.Base.{
  ℕ, ◌+◌, ◌≤◌, true, false, ap, Option-cases, Text, ==_iff, List, [], ◌∷◌, ◌++◌, Option, none, some,
  Result, ok, err, Partial, returns, panics, ◌≡◌, refl, ◌∙◌, ◌⊎◌, inl, inr, Result-cases,
  Bool-cases, arith,
}
use flowspec_devkitd.Json.{Value, object, null, end}
use flowspec_devkitd.Flow.Types.{SerdeJson, HookCall}
use flowspec_devkitd.Flow.Schema.{parse_duration}
use flowspec_devkitd.Template.{TemplateError, resolve_value, build_context}
use flowspec_devkitd.Run.Types.{HookPhase, Timestamp}
use flowspec_devkitd.App.Ports.{RunRecord, run_state}
use flowspec_devkitd.App.Wire.{DevkitdError, devkitd_error_text}
use flowspec_devkitd.App.Mutations.{
  HookRunRecord, HookStatus, record_hook_run, apply_all, apply_mutation,
}
use flowspec_devkitd.App.Store.{StateStore, IsAtomic}
use flowspec_devkitd.App.Scheduler.Hooks.{
  Answer, HookRun, aborts, hook_batch, after_hook, run_hook, resolved, started, record_row,
  waited_row, waited, system_time_limit, deadline_overflows, failed_row, hook_timeout,
  template_failure,
}
use flowspec_devkitd.App.Scheduler.Request.{set_fields}

-- The kinds of hook that may end a batch.
abbrev pub MayEnd : HookPhase → HookCall → Type 0
MayEnd HookPhase.before_run hook = hook.always_continue ≡ false
MayEnd (HookPhase.before_step id) hook = Unit
MayEnd (HookPhase.after_step id) hook = Unit
MayEnd HookPhase.after_run hook = ⊥

aborts-MayEnd : (phase : HookPhase) (hook : HookCall) → aborts phase hook ≡ true → MayEnd phase hook
unfolding aborts
aborts-MayEnd HookPhase.before_run hook h = ground (arith, h)
aborts-MayEnd (HookPhase.before_step id) hook h = tt
aborts-MayEnd (HookPhase.after_step id) hook h = tt
aborts-MayEnd HookPhase.after_run hook h = cc

module _ (S : StateStore) (json : SerdeJson) (run_id : Text) where
  after_hook_cases :
      (r : HookRun) (o : Partial (Result DevkitdError Value) × S.State)
      (next : S.State → Partial (Option (Text × Text)) × S.State) {name reason : Text}
      {s' : S.State}
      → after_hook S json run_id r o next ≡ (returns (some (name, reason)), s')
      → ((e : DevkitdError) × (o ≡ (returns (err e), s'))
          × MayEnd r.phase r.hook
          × (name ≡ r.hook.hook)
          × (reason ≡ devkitd_error_text e))
        ⊎ ((next o.1 ≡ (returns (some (name, reason)), s'))
            × ((before : S.State → Partial (Option (Text × Text)) × S.State)
                → after_hook S json run_id r o before ≡ before o.1))
  after_hook_cases r (panics, s) next h = cc
  after_hook_cases r (returns (ok v), s) next h = inr (h, λ before. refl)
  after_hook_cases r (returns (err e), s) next {name} {reason} {s'} h =
      elim (Bool-cases (aborts r.phase r.hook)) [
        | inl a ↦
            let ended : Path (Partial (Option (Text × Text)) × S.State)
                (returns (some (r.hook.hook, devkitd_error_text e)), s)
                (returns (some (name, reason)), s') =
              ground (arith, a, h) in
            inl (e, cc ended, aborts-MayEnd r.phase r.hook a, cc ended, cc ended)
        | inr a ↦ inr (ground (arith, a, h), λ before. rw a refl)
      ]

  -- Where a batch fails: at a hook that was run behind hooks that did not end the batch.
  abbrev pub FailsAt : List (HookRun × Answer) → S.State → S.State → Text → Text → Type 0
  FailsAt batch s s' name reason =
      (before : List (HookRun × Answer)) × (r : HookRun) × (answer : Answer) × (later : List
        (HookRun × Answer))
      × (t : S.State) × (e : DevkitdError) × (batch ≡ before ++ (r, answer) ∷ later)
      × (hook_batch S json run_id before s ≡ (returns none, t))
      × (run_hook S json run_id r answer t ≡ (returns (err e), s'))
      × MayEnd r.phase r.hook
      × (name ≡ r.hook.hook)
      × (reason ≡ devkitd_error_text e)

  -- A batch that fails does so by a hook of its own: the hooks before it were run and did not end
  -- the batch, the hook itself was run and failed, and it is neither an `after_run` hook nor a
  -- `before_run` hook that may always continue. The batch names it and the error, and stops.
  pub hook_batch-fails :
      (batch : List (HookRun × Answer)) (s s' : S.State) (name reason : Text)
      → hook_batch S json run_id batch s ≡ (returns (some (name, reason)), s')
      → FailsAt batch s s' name reason
  unfolding hook_batch
  hook_batch-fails [] s s' name reason h = cc
  hook_batch-fails ((r, answer) ∷ rest) s s' name reason h =
      elim (after_hook_cases r (run_hook S json run_id r answer s) (hook_batch S json run_id rest)
        h) [
          | inl (e, ran, may, same, text) ↦
              ([], r, answer, rest, s, e, refl, refl, ran, may, same, text)
          | inr (later, passes) ↦
              let (before, r', answer', after, t, e, split, quiet, ran, may, same, text) =
                hook_batch-fails rest _ s' name reason later in
              (
                (r, answer) ∷ before,
                r',
                answer',
                after,
                t,
                e,
                ap (λ b. (r, answer) ∷ b) split,
                passes (hook_batch S json run_id before) ∙ quiet,
                ran,
                may,
                same,
                text,
              )
        ]

-- The status of a row for a result.
abbrev pub row_status : Result DevkitdError Value → HookStatus
row_status (ok _) = HookStatus.completed
row_status (err _) = HookStatus.failed

waited_row_lem :
    (r : HookRun) (args : Value) (job_id : Text) (result : Result DevkitdError Value)
    → ((waited_row r args job_id result).hook ≡ r.hook.hook)
      × ((waited_row r args job_id result).status ≡ row_status result)
unfolding waited_row
waited_row_lem r args job_id (ok output) = (refl, refl)
waited_row_lem r args job_id (err e) = (refl, refl)

-- The two ways in which the timeout of a hook ends its task: the text cannot be cut before its last
-- byte, or the deadline of the job, once it is started, is too late for a `SystemTime`.
abbrev pub Overflows : HookRun → Answer → Type 0
Overflows r answer =
    (t : Text) × (r.hook.timeout ≡ some t)
    × ((parse_duration t ≡ panics)
        ⊎ ((job_id : Text) × (secs : ℕ) × (answer.start ≡ ok job_id)
            × (parse_duration t ≡ returns (some secs))
            × (system_time_limit ≤ r.waited_at + secs)))

timeout-panics : (r : HookRun) (answer : Answer) → hook_timeout r.hook ≡ panics → Overflows r answer
timeout-panics r answer h = elim (Option-cases r.hook.timeout) [
  | inl q ↦ absurd (ground (arith, q, h))
  | inr (t, q) ↦ (t, q, inl (ground (arith, q, h)))
]

deadline-panics :
    (r : HookRun) (answer : Answer) (job_id : Text) (timeout : Option ℕ)
    → answer.start ≡ ok job_id
    → hook_timeout r.hook ≡ returns timeout
    → deadline_overflows r.waited_at timeout ≡ true
    → Overflows r answer
deadline-panics r answer job_id none start asked late = cc
deadline-panics r answer job_id (some secs) start asked late = elim (Option-cases r.hook.timeout) [
  | inl q ↦ absurd (ground (arith, q, asked))
  | inr (t, q) ↦ (t, q, inr (job_id, secs, start, ground (arith, q, asked), ground (arith, late)))
]

module _ (S : StateStore) (atomic : IsAtomic S) (json : SerdeJson) (run_id : Text) where
  -- The rows of the run after one is recorded.
  record_row-rows :
      (now : Timestamp) (row : HookRunRecord) (s : S.State) (run : RunRecord)
      (rows : List HookRunRecord)
      → S.load_run s run_id ≡ ok run
      → S.list_hook_runs s run_id ≡ ok rows
      → S.list_hook_runs (record_row S json run_id now row s) run_id ≡ ok (rows ++ row ∷ [])
  unfolding record_row apply_all apply_mutation
  record_row-rows now row s run rows found before =
      atomic.hooks now run_id run_id (record_hook_run row ∷ []) s
      ∙ rw (((==_iff run_id run_id).1 refl), found, before) refl

  -- What a hook leaves: its row, with the result.
  abbrev pub Leaves :
      HookRun → List HookRunRecord → Partial (Result DevkitdError Value) × S.State → Type 0
  Leaves r rows o =
      (result : Result DevkitdError Value) × (row : HookRunRecord) × (o.0 ≡ returns result)
      × (row.hook ≡ r.hook.hook)
      × (row.status ≡ row_status result)
      × (S.list_hook_runs o.1 run_id ≡ ok (rows ++ row ∷ []))

  started-Leaves :
      (r : HookRun) (args : Value) (answer : Answer) (timeout : Partial (Option ℕ)) (s : S.State)
      (run : RunRecord) (rows : List HookRunRecord)
      → hook_timeout r.hook ≡ timeout
      → S.load_run s run_id ≡ ok run
      → S.list_hook_runs s run_id ≡ ok rows
      → ((started S json run_id r args answer timeout s ≡ (panics, s)) × Overflows r answer)
        ⊎ Leaves r rows (started S json run_id r args answer timeout s)
  unfolding started waited
  started-Leaves r args answer panics s run rows asked found before =
      inl (refl, timeout-panics r answer asked)
  started-Leaves r args answer (returns timeout) s run rows asked found before =
      elim (Result-cases answer.start) [
        | inr (e, q) ↦
            let row = failed_row r (some args) none e in
            let same : started S json run_id r args answer (returns timeout) s
                ≡ (returns (err e), record_row S json run_id r.completed_at row s) =
              ground (arith, q) in
            let listed = record_row-rows r.completed_at row s run rows found before in
            inr (rw same (err e, row, refl, refl, refl, listed))
        | inl (job_id, q) ↦ elim (Bool-cases (deadline_overflows r.waited_at timeout)) [
          | inl late ↦ inl (rw (q, late) refl, deadline-panics r answer job_id timeout q asked late)
          | inr fine ↦
              let row = waited_row r args job_id answer.wait in
              let same : started S json run_id r args answer (returns timeout) s
                  ≡ (returns answer.wait, record_row S json run_id r.completed_at row s) =
                rw (q, fine) refl in
              let (hook, status) = waited_row_lem r args job_id answer.wait in
              let listed = record_row-rows r.completed_at row s run rows found before in
              inr (rw same (answer.wait, row, refl, hook, status, listed))
        ]
      ]

  resolved-Leaves :
      (r : HookRun) (answer : Answer) (args : Result TemplateError Value) (s : S.State)
      (run : RunRecord) (rows : List HookRunRecord)
      → S.load_run s run_id ≡ ok run
      → S.list_hook_runs s run_id ≡ ok rows
      → ((resolved S json run_id r answer args s ≡ (panics, s))
          × (v : Value) × (args ≡ ok v)
          × Overflows r answer)
        ⊎ Leaves r rows (resolved S json run_id r answer args s)
  unfolding resolved
  resolved-Leaves r answer (ok args) s run rows found before =
      elim (started-Leaves r args answer (hook_timeout r.hook) s run rows refl found before) [
        | inl (stopped, why) ↦ inl (stopped, args, refl, why)
        | inr left ↦ inr left
      ]
  resolved-Leaves r answer (err e) s run rows found before =
      let row = failed_row r none none (template_failure e) in
      inr (
        err (template_failure e),
        row,
        refl,
        refl,
        refl,
        record_row-rows r.completed_at row s run rows found before,
      )

-- A hook of a run that is stored leaves one row, with the status of its result, whatever devkitd
-- answers and even if its arguments do not resolve. The one exception is a hook whose arguments do
-- resolve and whose timeout either cannot be cut before its last byte or sets a deadline that is too
-- late for a `SystemTime`: its task panics, and the store is as it was.
pub run_hook-row :
    (S : StateStore) (json : SerdeJson) (run_id : Text) (r : HookRun) (answer : Answer)
    (s : S.State) (run : RunRecord) (rows : List HookRunRecord)
    → IsAtomic S
    → S.load_run s run_id ≡ ok run
    → S.list_hook_runs s run_id ≡ ok rows
    → ((run_hook S json run_id r answer s ≡ (panics, s))
        × (args : Value) × (resolve_value json
              (build_context run.definition (run_state run) null)
              r.hook.hook
              (object (set_fields end r.hook.args))
            ≡ ok args)
        × Overflows r answer)
      ⊎ ((result : Result DevkitdError Value) × (row : HookRunRecord) × ((run_hook S json run_id r
              answer s).0
            ≡ returns result)
          × (row.hook ≡ r.hook.hook)
          × (row.status ≡ row_status result)
          × (S.list_hook_runs (run_hook S json run_id r answer s).1 run_id ≡ ok (rows ++ row ∷ [])))
unfolding run_hook
run_hook-row S json run_id r answer s run rows atomic found before =
    let args =
      resolve_value json (build_context run.definition (run_state run) null) r.hook.hook
        (object (set_fields end r.hook.args)) in
    let same : run_hook S json run_id r answer s ≡ resolved S json run_id r answer args s =
      ground (arith, found) in
    rw same (resolved-Leaves S atomic json run_id r answer args s run rows found before)
