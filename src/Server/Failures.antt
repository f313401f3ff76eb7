-- ===== src/Server/Failures.antt =====
-- crates/flowspec-server/src/mcp_server/error.rs: the failures that the MCP tools report.
use flowspec_devkitd.Base.{Text, codes, ◌++◌}
use flowspec_devkitd.Base.Decimal.{print_nat}
use flowspec_devkitd.App.Mutations.{StoreError}
use flowspec_devkitd.App.UseCases.Approvals.{ApprovalError}
use flowspec_devkitd.App.UseCases.StartFlow.{StartFlowError}
use flowspec_devkitd.App.UseCases.Queries.{QueryError}

pub data ErrorKind : Type 0 where
  run_not_found step_not_found flow_not_found missing_inputs not_approvable : ErrorKind
  no_waiting_step ambiguous_step invalid_phase validation_failed store_error internal : ErrorKind

-- `detail` is always null.
pub record ToolFailure : Type 0 where
  pub error_kind : ErrorKind
  pub message : Text

abbrev failure : ErrorKind → Text → ToolFailure
failure error_kind message = record { error_kind = error_kind; message = message }

pub from_store_error : StoreError → ToolFailure
from_store_error (StoreError.not_found id) = failure ErrorKind.run_not_found (
    codes "Run '"
    ++ (id ++ codes "' was not found. Check the run_id, or call list_runs to see known runs."))
from_store_error (StoreError.duplicate key) =
    failure ErrorKind.validation_failed
      (codes "idempotency_key '" ++ (key ++ codes "' is already in use by another run."))
from_store_error (StoreError.serialization e) =
    failure ErrorKind.store_error (codes "serialization error: " ++ e)
from_store_error (StoreError.backend e) =
    failure ErrorKind.store_error (codes "backend error: " ++ e)

unfoldable pub from_start_flow_error : StartFlowError → ToolFailure
unfolding from_store_error
from_start_flow_error (StartFlowError.flow_not_found name) = failure ErrorKind.flow_not_found (
    codes "Flow '"
    ++ (name
        ++ codes "' was not found. Call list_flows to see available flows and their versions."))
from_start_flow_error (StartFlowError.missing_inputs names) = failure ErrorKind.missing_inputs (
    codes "Missing required input(s): "
    ++ (names ++ codes ". Call list_flows to see the flow's declared inputs."))
from_start_flow_error (StartFlowError.store e) = from_store_error e

unfoldable pub from_approval_error : ApprovalError → ToolFailure
unfolding from_store_error
from_approval_error (ApprovalError.store e) = from_store_error e
from_approval_error ApprovalError.no_waiting_step = failure ErrorKind.no_waiting_step (
    codes
      "No step on this run is waiting for approval. Call pending_approvals to check current status.")
from_approval_error ApprovalError.ambiguous_step = failure ErrorKind.ambiguous_step (
    codes "More than one step on this run is waiting for approval; step_id is required. "
    ++ codes "Call pending_approvals to see which steps are waiting.")
from_approval_error (ApprovalError.not_waiting step_id) = failure ErrorKind.not_approvable (
    codes "Step '"
    ++ (step_id
        ++ codes
            "' is not waiting for approval. Call pending_approvals to see which steps are waiting."))

unfoldable pub from_query_error : QueryError → ToolFailure
unfolding from_store_error
from_query_error (QueryError.store e) = from_store_error e
from_query_error (QueryError.step_not_found step_id) = failure ErrorKind.step_not_found (
    codes "Step '"
    ++ (step_id
        ++ codes "' was not found on this run. Call get_run_status to see the run's steps."))
from_query_error (QueryError.attempt_not_found attempt step_id) = failure ErrorKind.step_not_found (
    codes "Attempt "
    ++ (print_nat attempt
        ++ (codes " of step '"
            ++ (step_id
                ++ (codes "' was not found. Omit attempt to fetch the latest one, or call "
                    ++ codes "get_run_status to see valid attempts.")))))
from_query_error (QueryError.invalid_phase raw) = failure ErrorKind.invalid_phase (
    codes "invalid phase '"
    ++ (raw ++ codes "'; expected one of: running, completed, failed, cancelled"))
