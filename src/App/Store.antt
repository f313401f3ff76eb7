-- ===== src/App/Store.antt =====
-- The store: the trait `StateStore` of crates/flowspec-app/src/ports.rs as an interface. What a
-- caller draws from the clock and from `ids::new_run_id` is an argument.
pub mod Memory
use flowspec_devkitd.Base.{
  ℕ, Text, List, [], ◌∷◌, ◌++◌, flat_map, Option, Result, ok, err, ◌>>=◌, ◌≡◌, ◌==◌, if◌then◌else◌,
}
use flowspec_devkitd.Flow.Types.{FlowDefinition}
use flowspec_devkitd.Json.{Value}
use flowspec_devkitd.Run.Types.{RunPhase, Timestamp}
use flowspec_devkitd.App.Ports.{RunRecord}
use flowspec_devkitd.App.Mutations.{
  Mutation, StoreError, HookRunRecord, RunEventRecord, StoredRunEvent, record_hook_run,
  append_event, apply_all,
}

pub record NewRun : Type 0 where
  pub flow_name : Text
  pub flow_version : Text
  pub definition : FlowDefinition
  pub inputs : Value
  pub trigger : Value
  pub idempotency_key : Option Text

pub record RunSummary : Type 0 where
  pub run_id : Text
  pub flow_name : Text
  pub flow_version : Text
  pub phase : RunPhase
  pub created_at : Timestamp
  pub updated_at : Timestamp

pub record RunFilter : Type 0 where
  pub flow_name : Option Text
  pub phase : Option RunPhase
  pub limit : Option ℕ

-- `RunTree` with its list of children.
mutual
  pub data RunTree : Type 0 where
    tree : (root : RunRecord) (children : RunTrees) → RunTree

  pub data RunTrees : Type 0 where
    leaf : RunTrees
    branch : RunTree → RunTrees → RunTrees

-- A method that writes returns the new state beside its result.
pub record StateStore : Type 1 where
  pub State : Type 0
  pub create_run : Timestamp → Text → NewRun → State → Result StoreError Text × State
  pub load_run : State → Text → Result StoreError RunRecord
  pub find_by_idempotency_key : State → Text → Result StoreError (Option Text)
  pub apply : Timestamp → Text → List Mutation → State → Result StoreError (Unit {0}) × State
  pub list_runs : State → RunFilter → Result StoreError (List RunSummary)
  pub runs_in_phase : State → RunPhase → Result StoreError (List RunRecord)
  pub link_runs : Text → Text → Text → State → Result StoreError (Unit {0}) × State
  pub load_run_tree : State → Text → Result StoreError RunTree
  pub list_hook_runs : State → Text → Result StoreError (List HookRunRecord)
  pub unpushed_events : State → ℕ → Result StoreError (List (Text × StoredRunEvent))
  pub mark_events_pushed : Text → ℕ → State → Result StoreError (Unit {0}) × State

-- The run that a batch leaves: the batch applied as a whole, or what was there.
abbrev pub after :
    Timestamp → List Mutation → Result StoreError RunRecord → Result StoreError RunRecord
after now ms before = elim (before >>= apply_all ms) [
  | ok run ↦ ok (record run { updated_at = now })
  | err _ ↦ before
]

abbrev pub outcome {ℓ} : {A : Type ℓ} → Result StoreError A → Result StoreError (Unit {0})
outcome (ok _) = ok tt
outcome (err e) = err e

-- The `filter_map` for each of the two tables.
abbrev pub hook_record : Mutation → List HookRunRecord
hook_record (record_hook_run h) = h ∷ []
hook_record _ = []

abbrev pub event_record : Mutation → List RunEventRecord
event_record (append_event e) = e ∷ []
event_record _ = []

-- The hook rows of the run behind those that are there, if the batch was applied.
abbrev pub hooks_after :
    List Mutation
    → Result StoreError RunRecord
    → Result StoreError (List HookRunRecord)
    → Result StoreError (List HookRunRecord)
hooks_after ms (ok _) (ok rows) = ok (rows ++ flat_map hook_record ms)
hooks_after ms _ rows = rows

-- "Applied atomically by the store": a batch is applied as a whole to the run that it names, or
-- not at all, and no other run changes. The same holds of the rows of the hooks.
pub record IsAtomic (S : StateStore) : Type 0 where
  pub results :
      (now : Timestamp) (id : Text) (ms : List Mutation) (s : S.State)
      → (S.apply now id ms s).0 ≡ outcome (S.load_run s id >>= apply_all ms)
  pub runs :
      (now : Timestamp) (id other : Text) (ms : List Mutation) (s : S.State)
      → S.load_run (S.apply now id ms s).1 other
        ≡ (if id == other then after now ms (S.load_run s id) else S.load_run s other)
  pub hooks :
      (now : Timestamp) (id other : Text) (ms : List Mutation) (s : S.State)
      → S.list_hook_runs (S.apply now id ms s).1 other ≡ (
          if id == other
          then hooks_after ms (S.load_run s id >>= apply_all ms) (S.list_hook_runs s id)
          else S.list_hook_runs s other)
