-- ===== src/App/UseCases/Queries.antt =====
-- The queries of crates/flowspec-app/src/use_cases/queries.rs on runs and steps.
use flowspec_devkitd.Base.{
  ℕ, Text, codes, ◌==◌, List, [], ◌∷◌, map, filter, flat_map, find?, Option, none, some,
  if◌then◌else◌, Result, ok, err, ◌>>=◌,
}
use flowspec_devkitd.Json.{Value}
use flowspec_devkitd.Run.Types.{RunPhase, Timestamp}
use flowspec_devkitd.App.Ports.{JobFailure, StepRecord, RunRecord, latest_steps}
use flowspec_devkitd.App.Mutations.{StoreError, is_attempt}
use flowspec_devkitd.App.Store.{StateStore, RunSummary, RunTree, RunTrees, tree, leaf, branch}
use flowspec_devkitd.App.UseCases.{status_str, status_str_phase}
use flowspec_devkitd.App.UseCases.Approvals.{is_waiting}

pub data QueryError : Type 0 where
  store : StoreError → QueryError
  step_not_found : Text → QueryError
  attempt_not_found : (attempt : ℕ) (step_id : Text) → QueryError
  invalid_phase : Text → QueryError

abbrev pub from_store {ℓ} : {A : Type ℓ} → Result StoreError A → Result QueryError A
from_store (ok a) = ok a
from_store (err e) = err (store e)

-- serde reads the four names that it prints.
pub parse_phase : Text → Result QueryError RunPhase
parse_phase raw =
    if raw == codes "running"
    then ok RunPhase.running
    else if raw == codes "completed"
    then ok RunPhase.completed
    else if raw == codes "failed"
    then ok RunPhase.failed
    else if raw == codes "cancelled"
    then ok RunPhase.cancelled
    else err (invalid_phase raw)

pub record StepOutputResponse : Type 0 where
  pub run_id : Text
  pub step_id : Text
  pub attempt : ℕ
  pub status : Text
  pub output : Option Value
  pub failure_reason : Option Text
  pub failure : Option JobFailure
  pub feedback : Option Text

pub record PendingApproval : Type 0 where
  pub run_id : Text
  pub step_id : Text
  pub output : Option Value

pub record RunSummaryView : Type 0 where
  pub run_id : Text
  pub flow_name : Text
  pub flow_version : Text
  pub phase : Text
  pub created_at : Timestamp
  pub updated_at : Timestamp

-- The attempt that `get_step_output` asks for.
abbrev pub requested : Text → Option ℕ → RunRecord → Result QueryError StepRecord
requested step_id (some attempt) run = elim (find? (is_attempt step_id attempt) run.steps) [
  | none ↦ err (attempt_not_found attempt step_id)
  | some s ↦ ok s
]
requested step_id none run = elim (find? (λ s. s.run.step_id == step_id) (latest_steps run.steps)) [
  | none ↦ err (step_not_found step_id)
  | some s ↦ ok s
]

-- What is waiting in one run.
abbrev pub waiting_in : RunRecord → List PendingApproval
waiting_in run =
    map (λ s. record { run_id = run.run_id; step_id = s.run.step_id; output = s.run.output })
      (filter is_waiting (latest_steps run.steps))

abbrev summary_view : RunSummary → RunSummaryView
summary_view r = record {
  run_id = r.run_id;
  flow_name = r.flow_name;
  flow_version = r.flow_version;
  phase = status_str_phase r.phase;
  created_at = r.created_at;
  updated_at = r.updated_at;
}

abbrev optional_phase : Option Text → Result QueryError (Option RunPhase)
optional_phase none = ok none
optional_phase (some raw) = parse_phase raw >>= λ p. ok (some p)

module _ (S : StateStore) where
  unfoldable pub get_step_output :
      Text → Text → Option ℕ → S.State → Result QueryError StepOutputResponse
  unfolding status_str
  get_step_output run_id step_id attempt s = from_store (S.load_run s run_id) >>= λ run.
      requested step_id attempt run >>= λ step. ok (record {
        run_id = run_id;
        step_id = step.run.step_id;
        attempt = step.run.attempt;
        status = status_str step.run.status;
        output = step.run.output;
        failure_reason = step.run.failure_reason;
        failure = step.failure_detail;
        feedback = step.run.feedback;
      })

  -- `load_run` for each of the runs, up to the first error.
  pub load_all : List RunSummary → S.State → Result QueryError (List RunRecord)
  load_all [] s = ok []
  load_all (r ∷ rest) s =
      from_store (S.load_run s r.run_id) >>= λ run. load_all rest s >>= λ runs. ok (run ∷ runs)

  -- The runs that `pending_approvals` looks at.
  pub asked_runs : Option Text → S.State → Result QueryError (List RunRecord)
  unfolding load_all
  asked_runs (some run_id) s = from_store (S.load_run s run_id) >>= λ run. ok (run ∷ [])
  asked_runs none s =
      from_store (S.list_runs s (record { flow_name = none; phase = none; limit = none }))
      >>= λ runs. load_all runs s

  unfoldable pub pending_approvals :
      Option Text → S.State → Result QueryError (List PendingApproval)
  unfolding asked_runs
  pending_approvals run_id s = asked_runs run_id s >>= λ runs. ok (flat_map waiting_in runs)

  unfoldable pub list_runs :
      Option Text → Option Text → Option ℕ → S.State → Result QueryError (List RunSummaryView)
  unfolding parse_phase status_str_phase
  list_runs flow_name raw limit s = optional_phase raw >>= λ phase.
      from_store (S.list_runs s (record { flow_name = flow_name; phase = phase; limit = limit }))
      >>= λ runs. ok (map summary_view runs)

-- `RunTreeNode` with its list of children.
mutual
  pub data RunTreeNode : Type 0 where
    node : (run_id flow_name flow_version phase : Text) (children : RunTreeNodes) → RunTreeNode

  pub data RunTreeNodes : Type 0 where
    nodes_end : RunTreeNodes
    nodes_more : RunTreeNode → RunTreeNodes → RunTreeNodes

mutual
  unfolding status_str_phase

  pub project_tree : RunTree → RunTreeNode
  project_tree (tree root children) =
      node root.run_id root.flow_name root.flow_version (status_str_phase root.phase)
        (project_trees children)

  pub project_trees : RunTrees → RunTreeNodes
  project_trees leaf = nodes_end
  project_trees (branch t r) = nodes_more (project_tree t) (project_trees r)

unfoldable pub get_run_tree : (S : StateStore) → Text → S.State → Result QueryError RunTreeNode
unfolding project_tree
get_run_tree S run_id s = from_store (S.load_run_tree s run_id) >>= λ t. ok (project_tree t)
