-- ===== src/App/UseCases/StartFlow.antt =====
-- crates/flowspec-app/src/use_cases/start_flow.rs, cancel_run.rs and
-- advance_run.rs. The run id and the time are
-- arguments.
pub mod Keys
use flowspec_devkitd.Base.{
  Bool, true, false, Text, codes, List, [], ◌∷◌, map, filter, is_empty, Option, none, some,
  if◌then◌else◌, Result, ok, err, ◌>>=◌,
}
use flowspec_devkitd.Base.Strings.{join}
use flowspec_devkitd.Json.{Value, null, object, end, get_key}
use flowspec_devkitd.Flow.Types.{FlowDefinition}
use flowspec_devkitd.Run.Types.{Event, Timestamp}
use flowspec_devkitd.Run.Derive.{active_steps}
use flowspec_devkitd.App.Ports.{RunRecord, run_state}
use flowspec_devkitd.App.Mutations.{RunEventType, StoreError, duplicate}
use flowspec_devkitd.App.Store.{StateStore, NewRun}
use flowspec_devkitd.App.Scheduler.Events.{event_mutation}
use flowspec_devkitd.App.UseCases.{Submit, status_str_phase}

pub data StartFlowError : Type 0 where
  flow_not_found : Text → StartFlowError
  missing_inputs : Text → StartFlowError
  store : StoreError → StartFlowError

pub record StartFlowRequest : Type 0 where
  pub flow_name : Text
  pub version_req : Option Text
  pub inputs : Value
  pub trigger : Value
  pub idempotency_key : Option Text

pub record StartFlowRequestBase : Type 0 where
  pub inputs : Value
  pub trigger : Value
  pub idempotency_key : Option Text

pub record StartFlowResponse : Type 0 where
  pub run_id : Text
  pub phase : Text
  pub active_steps : List Text
  pub started_at : Timestamp
  pub replayed : Bool

-- `is_null`.
abbrev pub is_null : Value → Bool
is_null null = true
is_null _ = false

-- An input is missing without a value, or with the value null.
abbrev pub is_missing : Value → Text → Bool
is_missing inputs name = elim (get_key inputs name) [ none ↦ true | some v ↦ is_null v ]

pub missing : FlowDefinition → Value → List Text
missing definition inputs =
    map (λ e. e.0)
      (filter (λ e. is_missing inputs e.0) (filter (λ e. e.1.required) definition.inputs))

pub response : Text → Bool → RunRecord → StartFlowResponse
unfolding status_str_phase active_steps run_state
response run_id replayed run = record {
  run_id = run_id;
  phase = status_str_phase run.phase;
  active_steps = active_steps (run_state run);
  started_at = run.created_at;
  replayed = replayed;
}

abbrev pub from_store {ℓ} : {A : Type ℓ} → Result StoreError A → Result StartFlowError A
from_store (ok a) = ok a
from_store (err e) = err (store e)

abbrev pub new_run : FlowDefinition → StartFlowRequestBase → NewRun
new_run definition req = record {
  flow_name = definition.name;
  flow_version = definition.version;
  definition = definition;
  inputs = req.inputs;
  trigger = req.trigger;
  idempotency_key = req.idempotency_key;
}

module _ (S : StateStore) where
  pub replayed_response : Text → S.State → Result StartFlowError StartFlowResponse
  unfolding response
  replayed_response run_id s =
      from_store (S.load_run s run_id) >>= λ run. ok (response run_id true run)

  -- `find_by_idempotency_key`, if there is a key.
  pub existing_run : Option Text → S.State → Result StoreError (Option Text)
  existing_run none s = ok none
  existing_run (some key) s = S.find_by_idempotency_key s key

  -- A create that lost the race for its key replays the run that won.
  replay_winner :
      Text → Result StoreError (Option Text) → S.State → Result StartFlowError StartFlowResponse
  unfolding replayed_response
  replay_winner key (err e) s = err (store e)
  replay_winner key (ok none) s = err (store (duplicate key))
  replay_winner key (ok (some run_id)) s = replayed_response run_id s

  pub create_failed : Option Text → StoreError → S.State → Result StartFlowError StartFlowResponse
  unfolding replay_winner
  create_failed (some key) (duplicate _) s = replay_winner key (S.find_by_idempotency_key s key) s
  create_failed key e s = err (store e)

  module _ (submit : Submit S) (now : Timestamp) where
    unfoldable pub started :
        Text
        → Result StoreError (Unit {0}) × S.State
        → Result StartFlowError StartFlowResponse × S.State
    unfolding response
    started run_id (err e, s) = (err (store e), s)
    started run_id (ok _, s) =
        let s' = submit run_id Event.run_started s in
        (from_store (S.load_run s' run_id) >>= λ run. ok (response run_id false run), s')

    unfoldable pub created :
        StartFlowRequestBase
        → Result StoreError Text × S.State
        → Result StartFlowError StartFlowResponse × S.State
    unfolding started create_failed
    created req (err e, s) = (create_failed req.idempotency_key e s, s)
    created req (ok run_id, s) =
        started run_id (
          S.apply now run_id (event_mutation now RunEventType.run_started none (object end) ∷ []) s)

    unfoldable pub unless_replayed :
        Text
        → FlowDefinition
        → StartFlowRequestBase
        → Result StoreError (Option Text)
        → S.State
        → Result StartFlowError StartFlowResponse × S.State
    unfolding created replayed_response
    unless_replayed fresh_id definition req (err e) s = (err (store e), s)
    unless_replayed fresh_id definition req (ok (some run_id)) s = (replayed_response run_id s, s)
    unless_replayed fresh_id definition req (ok none) s =
        created req (S.create_run now fresh_id (new_run definition req) s)

    unfoldable pub start_flow_with_definition :
        Text
        → FlowDefinition
        → StartFlowRequestBase
        → S.State
        → Result StartFlowError StartFlowResponse × S.State
    unfolding missing unless_replayed existing_run join
    start_flow_with_definition fresh_id definition req s =
        if is_empty (missing definition req.inputs)
        then unless_replayed fresh_id definition req (existing_run req.idempotency_key s) s
        else (err (missing_inputs (join (codes ", ") (missing definition req.inputs))), s)

    abbrev base_of : StartFlowRequest → StartFlowRequestBase
    base_of req = record {
      inputs = req.inputs;
      trigger = req.trigger;
      idempotency_key = req.idempotency_key;
    }

    -- `flows` is `FlowSource::get`.
    unfoldable pub start_flow :
        (Text → Option Text → Option FlowDefinition)
        → Text
        → StartFlowRequest
        → S.State
        → Result StartFlowError StartFlowResponse × S.State
    unfolding start_flow_with_definition
    start_flow flows fresh_id req s = elim (flows req.flow_name req.version_req) [
      | none ↦ (err (flow_not_found req.flow_name), s)
      | some definition ↦ start_flow_with_definition fresh_id definition (base_of req) s
    ]

  pub record CancelRunResponse : Type 0 where
    pub run_id : Text
    pub phase : Text
    pub active_steps : List Text
    pub updated_at : Timestamp

  unfoldable pub cancel_run :
      Submit S → Text → S.State → Result StoreError CancelRunResponse × S.State
  unfolding status_str_phase active_steps run_state
  cancel_run submit run_id s =
      let s' = submit run_id Event.cancel_requested s in
      (
        S.load_run s' run_id >>= λ run. ok (record {
          run_id = run_id;
          phase = status_str_phase run.phase;
          active_steps = active_steps (run_state run);
          updated_at = run.updated_at;
        }),
        s',
      )

  -- The response is the run id.
  unfoldable pub advance_run : Submit S → Text → Event → S.State → Text × S.State
  advance_run submit run_id event s = (run_id, submit run_id event s)
