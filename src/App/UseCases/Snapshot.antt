-- ===== src/App/UseCases/Snapshot.antt =====
-- `flow_run_snapshot` of crates/flowspec-app/src/use_cases/queries.rs: a run as the platform sees it.
-- A duration is a difference of instants, where the source prints a float of seconds.
use mathlib.Core.Option
use mathlib.Core.Option.{get_or}
use flowspec_devkitd.Base.{
  ℕ, ◌-◌, ◌≤◌, ◌≡◌, refl, Bool, false, Text, codes, List, [], ◌∷◌, map, flat_map, Option, none,
  some, leb, max, option_list, if◌then◌else◌, Result, ok, err, arith, All, Memᴰ, ◌⊎◌, inl, inr,
  Option-cases, sym, subst, Bool-cases, ltb,
}
use flowspec_devkitd.Base.Strings.{strip_prefix}
use flowspec_devkitd.Json.{Value}
use flowspec_devkitd.Flow.Types.{FlowDefinition, flow_step, type_name}
use flowspec_devkitd.Run.Types.{RunPhase, ApprovalStatus, Timestamp}
use flowspec_devkitd.Run.Derive.{active_steps}
use flowspec_devkitd.App.Ports.{StepRecord, RunRecord, latest_steps, run_state}
use flowspec_devkitd.App.Store.{StateStore}
use flowspec_devkitd.App.UseCases.{status_str, status_str_phase}
use flowspec_devkitd.App.UseCases.Queries.{QueryError, store}

abbrev pub platform_idempotency_prefix : Text
platform_idempotency_prefix = codes "platform:"

-- `None` for a run that the platform did not start.
unfoldable pub platform_run_id : Option Text → Option Text
unfolding strip_prefix
platform_run_id none = none
platform_run_id (some key) = strip_prefix platform_idempotency_prefix key

pub record StepRunSnapshot : Type 0 where
  pub step_id : Text
  pub status : Text
  pub step_type : Text
  pub with_resolved : Option Value
  pub started_at : Option Timestamp
  pub completed_at : Option Timestamp
  pub duration : Option ℕ
  pub input_resolved : Option Text
  pub child_run_id : Option Text
  pub human_loop : Bool
  pub approval_status : Option Text
  pub approval_comment : Option Text
  pub feedback : Option Text
  pub failure_reason : Option Text
  pub attempt : ℕ

pub record FlowRunSnapshot : Type 0 where
  pub run_id : Text
  pub flow : Text
  pub flow_version : Text
  pub phase : Text
  pub active_steps : List Text
  pub started_at : Timestamp
  pub completed_at : Option Timestamp
  pub steps : List StepRunSnapshot

approval_text : ApprovalStatus → Text
approval_text ApprovalStatus.pending = codes "pending"
approval_text ApprovalStatus.approved = codes "approved"
approval_text ApprovalStatus.rejected = codes "rejected"

-- `duration_since(..).ok()`, if both times are known.
pub duration_between : Option Timestamp → Option Timestamp → Option ℕ
duration_between (some started) (some completed) =
    if leb started completed then some (completed - started) else none
duration_between _ _ = none

pub step_snapshot : FlowDefinition → StepRecord → StepRunSnapshot
unfolding status_str approval_text duration_between type_name
step_snapshot definition s = record {
  step_id = s.run.step_id;
  status = status_str s.run.status;
  step_type =
      get_or (Option.map (λ st. type_name st.step_type) (flow_step definition s.run.step_id))
        (codes "cli");
  with_resolved = s.with_resolved;
  started_at = s.run.started_at;
  completed_at = s.run.completed_at;
  duration = duration_between s.run.started_at s.run.completed_at;
  input_resolved = s.run.input_resolved;
  child_run_id = s.run.child_run_id;
  human_loop = get_or (Option.map (λ st. st.human_loop) (flow_step definition s.run.step_id)) false;
  approval_status = Option.map approval_text s.run.approval_status;
  approval_comment = s.run.approval_comment;
  feedback = s.run.feedback;
  failure_reason = s.run.failure_reason;
  attempt = s.run.attempt;
}

-- `Iterator::max`.
abbrev pub maximum : List ℕ → Option ℕ
maximum [] = none
maximum (n ∷ r) = some (elim (maximum r) [ none ↦ n | some m ↦ max n m ])

-- The times at which attempts have ended.
abbrev pub ends : RunRecord → List Timestamp
ends run = flat_map (λ s. option_list s.run.completed_at) run.steps

-- `is_terminal.then(..)`.
abbrev if_over : RunPhase → Timestamp → Option Timestamp
if_over RunPhase.running t = none
if_over _ t = some t

-- A run that is over ended with its last attempt, or when it was last written.
pub run_end : RunRecord → Option Timestamp
run_end run = if_over run.phase (get_or (maximum (ends run)) run.updated_at)

unfoldable pub snapshot_of : RunRecord → FlowRunSnapshot
unfolding platform_run_id status_str_phase active_steps run_state step_snapshot run_end
snapshot_of run = record {
  run_id = get_or (platform_run_id run.idempotency_key) run.run_id;
  flow = run.flow_name;
  flow_version = run.flow_version;
  phase = status_str_phase run.phase;
  active_steps = active_steps (run_state run);
  started_at = run.created_at;
  completed_at = run_end run;
  steps = map (step_snapshot run.definition) (latest_steps run.steps);
}

unfoldable pub flow_run_snapshot :
    (S : StateStore) → Text → S.State → Result QueryError FlowRunSnapshot
unfolding snapshot_of
flow_run_snapshot S run_id s = elim (S.load_run s run_id) [
  | err e ↦ err (store e)
  | ok run ↦ ok (snapshot_of run)
]

All-map {ℓ κ} :
    {A : Type ℓ} {P Q : A → Type κ} → ((a : A) → P a → Q a) → (xs : List A) → All P xs → All Q xs
All-map f [] h = tt
All-map f (x ∷ xs) h = (f x h.0, All-map f xs h.1)

if_over-some : (p : RunPhase) (x t : Timestamp) → if_over p x ≡ some t → x ≡ t
if_over-some RunPhase.running x t h = cc
if_over-some RunPhase.completed x t h = ground (arith, h)
if_over-some RunPhase.failed x t h = ground (arith, h)
if_over-some RunPhase.cancelled x t h = ground (arith, h)

-- The greatest of some numbers: one of them, and no less than any.
maximum-none : (ns : List ℕ) → maximum ns ≡ none → ns ≡ []
maximum-none [] h = refl
maximum-none (n ∷ ns) h = cc

maximum_lem : (ns : List ℕ) (m : ℕ) → maximum ns ≡ some m → Memᴰ m ns × All (λ n. n ≤ m) ns
maximum_lem [] m h = cc
maximum_lem (n ∷ ns) m h = elim (Option-cases (maximum ns)) [
  | inl e ↦
      let same : n ≡ m = ground (arith, e, h) in
      let empty = maximum-none ns e in (Memᴰ.head (sym same), (omega (arith, same), rw empty tt))
  | inr (k, e) ↦
      let (mem, bounds) = maximum_lem ns k e in
      let greater : m ≡ max n k = ground (arith, e, h) in
      let bigger : k ≤ m = ground (arith, greater) in
      let all : All (λ i. i ≤ m) ns = All-map (λ i i≤k. omega (arith, bigger, i≤k)) ns bounds in
      elim (Bool-cases (ltb n k)) [
        | inl q ↦
            let same : k ≡ m = ground (arith, greater, q) in
            (Memᴰ.tail (subst (λ i. Memᴰ i ns) same mem), (ground (arith, greater, q), all))
        | inr q ↦
            let same : m ≡ n = ground (arith, greater, q) in
            (Memᴰ.head same, (ground (arith, same), all))
      ]
]

-- The end that a snapshot reports is no earlier than the end of any attempt; it is the end of one
-- of them, or the time of the last write if none has ended.
pub snapshot_of-completed_at :
    (run : RunRecord) (t : Timestamp)
    → (snapshot_of run).completed_at ≡ some t
    → All (λ e. e ≤ t) (ends run) × (Memᴰ t (ends run) ⊎ ((ends run ≡ []) × (t ≡ run.updated_at)))
unfolding snapshot_of run_end
snapshot_of-completed_at run t h =
    let reached = if_over-some run.phase (get_or (maximum (ends run)) run.updated_at) t h in
    elim (Option-cases (maximum (ends run))) [
      | inl e ↦
          let empty = maximum-none (ends run) e in
          let last : t ≡ run.updated_at = ground (arith, reached, e) in
          (subst (All (λ i. i ≤ t)) (sym empty) tt, inr (empty, last))
      | inr (m, e) ↦
          let same : m ≡ t = ground (arith, reached, e) in
          let (mem, bounds) = maximum_lem (ends run) m e in
          (
            subst (λ i. All (λ n. n ≤ i) (ends run)) same bounds,
            inl (subst (λ i. Memᴰ i (ends run)) same mem),
          )
    ]
