-- ===== src/Server/Pump.antt =====
-- crates/flowspec-server/src/platform/pump.rs: one pass that drains the event outbox.
pub mod Laws
use mathlib.Core.Option
use mathlib.Core.Option.{get_or}
use flowspec_devkitd.Base.{
  ℕ, Bool, true, false, Text, ◌==◌, List, [], ◌∷◌, ◌++◌, map, is_empty, Option, none, some,
  if◌then◌else◌, Result, ok, err,
}
use flowspec_devkitd.Base.Map.{Map, get}
use flowspec_devkitd.Base.Sets.{sort}
use flowspec_devkitd.App.Ports.{RunRecord}
use flowspec_devkitd.App.Mutations.{StoreError, StoredRunEvent}
use flowspec_devkitd.App.Store.{StateStore}
use flowspec_devkitd.App.UseCases.Snapshot.{
  FlowRunSnapshot, platform_run_id, flow_run_snapshot, maximum,
}

-- Whether the platform takes what is pushed to it: `push_events` and `push_state` of
-- `PlatformClient`.
pub record PlatformClient : Type 0 where
  pub push_events : Text → List StoredRunEvent → Bool
  pub push_state : Text → FlowRunSnapshot → Bool

-- `by_run.entry(run_id).or_default().push(event)`.
push_event : Map (List StoredRunEvent) → Text → StoredRunEvent → Map (List StoredRunEvent)
push_event [] id e = (id, e ∷ []) ∷ []
push_event ((j, es) ∷ m) id e =
    if j == id then (j, es ++ e ∷ []) ∷ m else (j, es) ∷ push_event m id e

pub group_by_run :
    Map (List StoredRunEvent) → List (Text × StoredRunEvent) → Map (List StoredRunEvent)
unfolding push_event
group_by_run m [] = m
group_by_run m ((id, e) ∷ rest) = group_by_run (push_event m id e) rest

module _ (client : PlatformClient) (S : StateStore) where
  -- The mark is set to the greatest sequence of the batch; an error of the store is only logged.
  abbrev pub mark_batch : Text → List StoredRunEvent → S.State → S.State
  mark_batch id es s = elim (maximum (map (λ e. e.sequence) es)) [
    | none ↦ s
    | some n ↦ (S.mark_events_pushed id n s).1
  ]

  abbrev push_snapshot : Text → Text → List StoredRunEvent → S.State → S.State
  push_snapshot id platform_id es s = elim (flow_run_snapshot S id s) [
    | err _ ↦ s
    | ok snapshot ↦ if client.push_state platform_id snapshot then mark_batch id es s else s
  ]

  pub to_platform : Text → Option Text → List StoredRunEvent → S.State → S.State
  unfolding flow_run_snapshot
  to_platform id none es s = mark_batch id es s
  to_platform id (some platform_id) es s =
      if client.push_events platform_id es then push_snapshot id platform_id es s else s

  -- The body of the loop over the runs. A run that the platform did not start has its events marked
  -- without a push.
  pub drain_run : Text → List StoredRunEvent → S.State → S.State
  unfolding to_platform platform_run_id
  drain_run id es s = elim (S.load_run s id) [
    | err _ ↦ s
    | ok run ↦ to_platform id (platform_run_id run.idempotency_key) es s
  ]

  pub drain_runs : List Text → Map (List StoredRunEvent) → S.State → S.State
  unfolding drain_run
  drain_runs [] by_run s = s
  drain_runs (id ∷ rest) by_run s =
      drain_runs rest by_run (drain_run id (get_or (get by_run id) []) s)

  pub drain_once : ℕ → S.State → Result StoreError (Unit {0}) × S.State
  unfolding drain_runs group_by_run sort
  drain_once batch_size s = elim (S.unpushed_events s batch_size) [
    | err e ↦ (err e, s)
    | ok events ↦
        let by_run = group_by_run [] events in
        (ok tt, drain_runs (sort (map (λ e. e.0) by_run)) by_run s)
  ]
