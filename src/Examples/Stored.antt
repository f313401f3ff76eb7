-- ===== src/Examples/Stored.antt =====
-- The theorems on the store in memory and on the connector, at a store with one run.
use flowspec_devkitd.Base.Map.{get, insert}
use flowspec_devkitd.Base.{
  Option, ◌≤◌, ◌≡◌, refl, true, false, Text, codes, List, [], ◌∷◌, filter, take, max, none, some,
  ok, err, arith, ◌⊎◌, Memᴰ, All, ◌==◌,
}
use flowspec_devkitd.Json.{null, number}
use flowspec_devkitd.Run.Types.{RunPhase, StepStatus}
use flowspec_devkitd.App.Ports.{StepRecord, RunRecord, latest_steps}
use flowspec_devkitd.App.Mutations.{Mutation, RunEventType, RunEventRecord, duplicate, append_event}
use flowspec_devkitd.App.Store.{NewRun}
use flowspec_devkitd.App.Store.Memory.{
  MemoryStore, apply, create_run, find_by_idempotency_key, unpushed_events, mark_events_pushed,
  candidates, stored, empty, load_run,
}
use flowspec_devkitd.App.Store.Memory.Atomic.{memory_store}
use flowspec_devkitd.App.Store.Memory.Outbox.{
  IsGapless, apply-IsGapless, unpushed_events-eq-take, mark_events_pushed-candidates, still,
}
use flowspec_devkitd.App.Store.Memory.Keys.{HasUniqueKeys, create_run-HasUniqueKeys, create_run-key}
use flowspec_devkitd.App.UseCases.{Submit}
use flowspec_devkitd.App.UseCases.Approvals.{
  ApproveRequest, ApprovalResponse, Approves, approve_step, approve_step_iff,
}
use flowspec_devkitd.App.UseCases.Snapshot.{
  snapshot_of, snapshot_of-completed_at, ends, platform_run_id,
}
use flowspec_devkitd.Server.Devkitd.{Serde, CallToolResult, Round, pos, wait}
use flowspec_devkitd.Server.Devkitd.Laws.{Succeeded, wait-ok}
use flowspec_devkitd.Server.Pump.{PlatformClient, drain_once}
use flowspec_devkitd.Server.Pump.Laws.{Untouched, drain_once-Untouched}
use flowspec_devkitd.Examples.{release, plan_id}
use flowspec_devkitd.Examples.Store.{interrupted_run, stored as stored_step}

abbrev sample_key : Text
sample_key = codes "platform:7"

abbrev pub sample_id : Text
sample_id = codes "run-1"

abbrev pub keyed_run : RunRecord
keyed_run = record interrupted_run { idempotency_key = some sample_key }

abbrev sample_event : RunEventRecord
sample_event = record {
  event_type = RunEventType.run_started;
  step_id = none;
  timestamp = 1;
  payload = null;
}

-- One run, without an event.
abbrev pub quiet_store : MemoryStore
quiet_store = record {
  runs = (sample_id, keyed_run) ∷ [];
  hook_runs = [];
  events = [];
  events_pushed_through = [];
}

-- The same run with two events.
abbrev busy_store : MemoryStore
busy_store = record quiet_store {
  events = (sample_id, stored 1 sample_event ∷ stored 2 sample_event ∷ []) ∷ [];
}

abbrev two_events : List Mutation
two_events = append_event sample_event ∷ append_event sample_event ∷ []

apply-IsGapless_example : IsGapless (apply 5 sample_id two_events quiet_store).1
unfolding IsGapless get
apply-IsGapless_example =
    apply-IsGapless 5 sample_id two_events quiet_store (λ id. refl) (omega arith)

unpushed_events-eq-take_example :
    unpushed_events busy_store 1 ≡ ok (take (max 1 1) (candidates busy_store))
unpushed_events-eq-take_example = unpushed_events-eq-take busy_store 1

mark_events_pushed-candidates_example :
    candidates (mark_events_pushed sample_id 1 busy_store).1
    ≡ filter (still sample_id 1) (candidates busy_store)
mark_events_pushed-candidates_example = mark_events_pushed-candidates busy_store sample_id 1

abbrev sample_new : NewRun
sample_new = record {
  flow_name = codes "release";
  flow_version = codes "1";
  definition = release;
  inputs = null;
  trigger = null;
  idempotency_key = some sample_key;
}

pub quiet_store-HasUniqueKeys : HasUniqueKeys quiet_store
unfolding HasUniqueKeys
quiet_store-HasUniqueKeys key = ground arith

create_run-HasUniqueKeys_example :
    HasUniqueKeys (create_run 3 (codes "run-2") sample_new quiet_store).1
create_run-HasUniqueKeys_example =
    create_run-HasUniqueKeys 3 (codes "run-2") sample_new quiet_store quiet_store-HasUniqueKeys

create_run-key_example :
    (find_by_idempotency_key (create_run 3 sample_id sample_new empty).1 sample_key
      ≡ ok (some sample_id))
    × (create_run 4 (codes "run-2") sample_new (create_run 3 sample_id sample_new empty).1
        ≡ (err (duplicate sample_key), (create_run 3 sample_id sample_new empty).1))
unfolding create_run empty
create_run-key_example =
    create_run-key 3 4 sample_id (codes "run-2") sample_key sample_new sample_new empty refl refl
      refl

abbrev plain_submit : Submit memory_store
plain_submit id event s = s

-- The plan waits for approval.
abbrev waiting_store : MemoryStore
waiting_store = record quiet_store {
  runs =
      (
        sample_id,
        record keyed_run { steps = stored_step plan_id StepStatus.waiting_approval 1 ∷ [] },
      )
      ∷ [];
}

abbrev approval_request : ApproveRequest
approval_request = record { run_id = sample_id; step_id = none; comment = some (codes "fine") }

abbrev plan_approved : ApprovalResponse
plan_approved = record { run_id = sample_id; step_id = plan_id }

approve_step_iff_example :
    Approves memory_store plain_submit 4 approval_request waiting_store plan_approved
      (approve_step memory_store plain_submit 4 approval_request waiting_store).1
unfolding approve_step load_run get ◌==◌ latest_steps insert
approve_step_iff_example =
    (approve_step_iff memory_store plain_submit 4 approval_request waiting_store
        (approve_step memory_store plain_submit 4 approval_request waiting_store).1
        plan_approved).0.0
      refl

-- A run that is over, of which one attempt has ended at 7.
abbrev ended_step : StepRecord
ended_step = record {
  run = record {
    step_id = plan_id;
    status = StepStatus.completed;
    attempt = 1;
    started_at = some 3;
    completed_at = some 7;
    input_resolved = none;
    output = none;
    failure_reason = none;
    approval_status = none;
    approval_comment = none;
    feedback = none;
    child_run_id = none;
  };
  job_id = none;
  with_resolved = none;
  failure_detail = none;
}

abbrev over : RunRecord
over = record keyed_run { phase = RunPhase.completed; steps = ended_step ∷ [] }

snapshot_of-completed_at_example :
    All (λ e. e ≤ 7) (ends over) × (Memᴰ 7 (ends over) ⊎ ((ends over ≡ []) × (7 ≡ over.updated_at)))
unfolding snapshot_of
snapshot_of-completed_at_example = snapshot_of-completed_at over 7 refl

abbrev refusing : PlatformClient
refusing = record { push_events = λ id es. false; push_state = λ id snapshot. true }

drain_once-Untouched_example :
    Untouched sample_id busy_store (drain_once refusing memory_store 10 busy_store).1
unfolding get ◌==◌ platform_run_id
drain_once-Untouched_example =
    drain_once-Untouched refusing 10 sample_id (codes "7") busy_store keyed_run refl refl
      (λ es. refl)

-- A job that cannot be reached once, runs, and is done with the output `7`.
abbrev sample_serde : Serde
sample_serde = record {
  job_status = λ t.
      ok (record { state = t; stdout = some (codes "7"); stderr = none; exit_code = some (pos 0) });
  job_created = λ t. ok t;
  from_str = λ t. some (number t);
}

abbrev answer_of : Text → Option CallToolResult
answer_of t = some (record { is_error = false; content = some t ∷ [] })

abbrev sample_rounds : List Round
sample_rounds =
    record { now = 1; answer = none }
    ∷ record { now = 2; answer = answer_of (codes "running") }
    ∷ record { now = 3; answer = answer_of (codes "done") }
    ∷ []

wait-ok_example :
    (r : Round) × Memᴰ r sample_rounds
    × Succeeded sample_serde 256 6 (some 9) r (number (codes "7"))
unfolding wait ◌==◌
wait-ok_example = wait-ok sample_serde 256 6 (some 9) 0 sample_rounds (number (codes "7")) refl
