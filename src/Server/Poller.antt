-- ===== src/Server/Poller.antt =====
-- crates/flowspec-server/src/platform/poller.rs: what is done with an action of the platform's queue.
pub mod Laws
use mathlib.Core.Option.{get_or}
use flowspec_devkitd.Base.{
  Bool, true, false, Text, codes, ◌==◌, List, [], ◌∷◌, ◌++◌, is_empty, Option, none, some,
  if◌then◌else◌, Result, ok, err, Partial, returns, panics,
}
use flowspec_devkitd.Json.{Value, string, object, end, field}
use flowspec_devkitd.Flow.Types.{FlowDefinition, FlowFile, SerdeJson, into_definitions}
use flowspec_devkitd.Flow.Schema.{Violation}
use flowspec_devkitd.Flow.Validate.{validate}
use flowspec_devkitd.Run.Types.{Timestamp}
use flowspec_devkitd.App.Store.{StateStore}
use flowspec_devkitd.App.UseCases.{Submit}
use flowspec_devkitd.App.UseCases.Approvals.{
  ApprovalError, ApprovalResponse, approve_step, reject_step,
}
use flowspec_devkitd.App.UseCases.StartFlow.{
  StartFlowError, StartFlowRequestBase, StartFlowResponse, start_flow_with_definition, cancel_run,
}
use flowspec_devkitd.App.UseCases.Snapshot.{platform_idempotency_prefix}

pub record TriggerRunPayload : Type 0 where
  pub run_id : Text
  pub flow_doc : Value
  pub inputs : Value

pub record ApproveRejectPayload : Type 0 where
  pub step_id : Option Text
  pub comment : Option Text
  pub feedback : Option Text

pub record Action : Type 0 where
  pub id : Text
  pub run_id : Text
  pub kind : Text
  pub payload : Value

-- serde on the payload of an action and on a flow document.
pub record Payloads : Type 0 where
  pub trigger_run : Value → Option TriggerRunPayload
  pub approve_reject : Value → Option ApproveRejectPayload
  pub flow_file : Value → Option FlowFile

-- The call to the platform that answers an action, if there is one.
pub data Reply : Type 0 where
  ack : (runtime_run_id : Option Text) → Reply
  delete leave : Reply

pub idempotency_key : Text → Text
idempotency_key platform_run_id = platform_idempotency_prefix ++ platform_run_id

abbrev pub trigger_request : TriggerRunPayload → StartFlowRequestBase
trigger_request p = record {
  inputs = p.inputs;
  trigger = object (
      field (codes "source") (string (codes "platform"))
        (field (codes "platform_run_id") (string p.run_id) end));
  idempotency_key = some (idempotency_key p.run_id);
}

-- `ApproveRejectPayload::default`.
abbrev pub no_payload : ApproveRejectPayload
no_payload = record { step_id = none; comment = none; feedback = none }

-- `set_order` is the order in which the validation walks a hash set.
module _ (json : SerdeJson) (set_order : List Text → List Text) (payloads : Payloads) where
  abbrev if_valid : FlowDefinition → Partial (List Violation) → Partial (Option FlowDefinition)
  if_valid d panics = panics
  if_valid d (returns violations) = returns (if is_empty violations then some d else none)

  -- The first definition of the file.
  unfoldable pub first_valid : List FlowDefinition → Partial (Option FlowDefinition)
  unfolding validate
  first_valid [] = returns none
  first_valid (d ∷ _) = if_valid d (validate json set_order d)

  -- The message of a rejection is only logged.
  unfoldable pub parse_and_validate_flow_doc : Value → Partial (Option FlowDefinition)
  unfolding first_valid into_definitions
  parse_and_validate_flow_doc flow_doc = elim (payloads.flow_file flow_doc) [
    | none ↦ returns none
    | some file ↦ first_valid (into_definitions file)
  ]

  module _ (S : StateStore) (submit : Submit S) (now : Timestamp) (fresh_id : Text) where
    -- The id of the run that a platform's run has here.
    unfoldable pub known_run : Text → S.State → Option Text
    unfolding idempotency_key
    known_run platform_id s = elim (S.find_by_idempotency_key s (idempotency_key platform_id)) [
      | ok (some id) ↦ some id
      | _ ↦ none
    ]

    unfoldable pub trigger_reply :
        Result StartFlowError StartFlowResponse × S.State → Partial Reply × S.State
    trigger_reply (ok r, s) = (returns (ack (some r.run_id)), s)
    trigger_reply (err e, s) = (returns delete, s)

    unfoldable pub start_document :
        TriggerRunPayload → Partial (Option FlowDefinition) → S.State → Partial Reply × S.State
    unfolding trigger_reply start_flow_with_definition idempotency_key
    start_document p panics s = (panics, s)
    start_document p (returns none) s = (returns delete, s)
    start_document p (returns (some d)) s =
        trigger_reply (start_flow_with_definition S submit now fresh_id d (trigger_request p) s)

    -- A redelivered action is acknowledged with the run that it started.
    unfoldable pub trigger_known :
        TriggerRunPayload → Option Text → S.State → Partial Reply × S.State
    unfolding start_document parse_and_validate_flow_doc
    trigger_known p (some id) s = (returns (ack (some id)), s)
    trigger_known p none s = start_document p (parse_and_validate_flow_doc p.flow_doc) s

    unfoldable pub trigger_payload : Option TriggerRunPayload → S.State → Partial Reply × S.State
    unfolding known_run trigger_known
    trigger_payload none s = (returns delete, s)
    trigger_payload (some p) s = trigger_known p (known_run p.run_id s) s

    pub handle_trigger_run : Action → S.State → Partial Reply × S.State
    unfolding trigger_payload
    handle_trigger_run action s = trigger_payload (payloads.trigger_run action.payload) s

    -- An approval that is not possible yet is left for a later pass.
    pub approval_reply : Result ApprovalError ApprovalResponse → Reply
    approval_reply (ok _) = ack none
    approval_reply (err ApprovalError.no_waiting_step) = leave
    approval_reply (err (ApprovalError.not_waiting _)) = leave
    approval_reply (err ApprovalError.ambiguous_step) = delete
    approval_reply (err (ApprovalError.store _)) = leave

    pub decide_approval :
        Bool
        → Text
        → ApproveRejectPayload
        → S.State
        → Result ApprovalError ApprovalResponse × S.State
    unfolding approve_step reject_step
    decide_approval true run_id p s =
        approve_step S submit now
          (record { run_id = run_id; step_id = p.step_id; comment = p.comment }) s
    decide_approval false run_id p s =
        reject_step S submit now
          (record { run_id = run_id; step_id = p.step_id; feedback = get_or p.feedback [] }) s

    pub approval_known : Bool → ApproveRejectPayload → Option Text → S.State → Reply × S.State
    unfolding decide_approval approval_reply
    approval_known is_approve p none s = (delete, s)
    approval_known is_approve p (some run_id) s =
        let (r, s') = decide_approval is_approve run_id p s in (approval_reply r, s')

    pub handle_approve_reject : Bool → Action → S.State → Reply × S.State
    unfolding known_run approval_known
    handle_approve_reject is_approve action s =
        approval_known is_approve (get_or (payloads.approve_reject action.payload) no_payload)
          (known_run action.run_id s) s

    pub cancel_known : Option Text → S.State → Reply × S.State
    unfolding cancel_run
    cancel_known none s = (ack none, s)
    cancel_known (some run_id) s = (ack none, (cancel_run S submit run_id s).1)

    pub handle_cancel : Action → S.State → Reply × S.State
    unfolding known_run cancel_known
    handle_cancel action s = cancel_known (known_run action.run_id s) s

    abbrev replied : Reply × S.State → Partial Reply × S.State
    replied (r, s) = (returns r, s)

    unfoldable pub handle_action : Action → S.State → Partial Reply × S.State
    unfolding handle_trigger_run handle_approve_reject handle_cancel
    handle_action action s =
        if action.kind == codes "trigger_run"
        then handle_trigger_run action s
        else if action.kind == codes "approve"
        then replied (handle_approve_reject true action s)
        else if action.kind == codes "reject"
        then replied (handle_approve_reject false action s)
        else if action.kind == codes "cancel"
        then replied (handle_cancel action s)
        else (returns delete, s)
