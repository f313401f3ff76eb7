-- ===== src/App/Store/Memory.antt =====
-- `InMemoryStateStore` of crates/flowspec-app/src/testkit.rs. A `HashMap` from run ids is a list
-- of entries; where the source sorts what it takes from one, so does the model.
pub mod Atomic
pub mod Outbox
pub mod Keys
use mathlib.Core.Option
use mathlib.Core.Option.{get_or}
use flowspec_devkitd.Base.{
  ℕ, suc, ◌+◌, ◌%◌, Bool, true, false, ◌&&◌, Text, codes, ◌==◌, List, [], ◌∷◌, ◌++◌, map, flat_map,
  filter, find?, any, length, is_empty, Option, none, some, ltb, leb, if◌then◌else◌, Result, ok,
  err, ◌>>=◌, take, max,
}
use flowspec_devkitd.Base.Map.{Map, get, insert}
use flowspec_devkitd.Base.Sets.{sort}
use flowspec_devkitd.Base.Decimal.{u64_mod}
use flowspec_devkitd.Run.Types.{RunPhase, Timestamp, same_phase}
use flowspec_devkitd.App.Store.{
  NewRun, RunSummary, RunFilter, RunTree, tree, leaf, hook_record, event_record,
}
use flowspec_devkitd.App.Ports.{RunRecord}
use flowspec_devkitd.App.Mutations.{
  Mutation, StoreError, HookRunRecord, RunEventRecord, StoredRunEvent, record_hook_run,
  append_event, not_found, duplicate, apply_all,
}

pub record MemoryStore : Type 0 where
  pub runs : Map RunRecord
  pub hook_runs : Map (List HookRunRecord)
  pub events : Map (List StoredRunEvent)
  pub events_pushed_through : Map ℕ

-- `list.last().map(|e| e.sequence + 1).unwrap_or(1)`, as a release build wraps it.
pub next_sequence : List StoredRunEvent → ℕ
next_sequence [] = 1
next_sequence (e ∷ []) = (e.sequence + 1) % u64_mod
next_sequence (e ∷ f ∷ r) = next_sequence (f ∷ r)

abbrev pub stored : ℕ → RunEventRecord → StoredRunEvent
stored sequence e = record {
  sequence = sequence;
  event_type = e.event_type;
  step_id = e.step_id;
  timestamp = e.timestamp;
  payload = e.payload;
}

pub append_events : List StoredRunEvent → List RunEventRecord → List StoredRunEvent
unfolding next_sequence
append_events list [] = list
append_events list (e ∷ r) = append_events (list ++ stored (next_sequence list) e ∷ []) r

-- `entry(run_id).or_default().extend(rows)`, if there are rows.
abbrev pub extend_rows :
    Map (List HookRunRecord) → Text → List HookRunRecord → Map (List HookRunRecord)
extend_rows table id [] = table
extend_rows table id (h ∷ hs) = insert table id (get_or (get table id) [] ++ h ∷ hs)

abbrev pub extend_events :
    Map (List StoredRunEvent) → Text → List RunEventRecord → Map (List StoredRunEvent)
extend_events table id [] = table
extend_events table id (e ∷ es) =
    insert table id (append_events (get_or (get table id) []) (e ∷ es))

pub commit :
    Timestamp
    → Text
    → List Mutation
    → MemoryStore
    → Result StoreError RunRecord
    → Result StoreError (Unit {0}) × MemoryStore
unfolding append_events
commit now id ms s (err e) = (err e, s)
commit now id ms s (ok run) = (
  ok tt,
  record s {
    runs = insert s.runs id (record run { updated_at = now });
    hook_runs = extend_rows s.hook_runs id (flat_map hook_record ms);
    events = extend_events s.events id (flat_map event_record ms);
  },
)

unfoldable pub apply :
    Timestamp → Text → List Mutation → MemoryStore → Result StoreError (Unit {0}) × MemoryStore
unfolding commit apply_all
apply now id ms s = elim (get s.runs id) [
  | none ↦ (err (not_found id), s)
  | some run ↦ commit now id ms s (apply_all ms run)
]

abbrev or_not_found : Text → Option RunRecord → Result StoreError RunRecord
or_not_found id none = err (not_found id)
or_not_found id (some run) = ok run

unfoldable pub load_run : MemoryStore → Text → Result StoreError RunRecord
load_run s id = or_not_found id (get s.runs id)

abbrev pub values : Map RunRecord → List RunRecord
values runs = map (λ e. e.1) runs

-- `r.idempotency_key.as_deref() == Some(key)`.
abbrev pub has_key : Text → RunRecord → Bool
has_key key run = elim run.idempotency_key [ none ↦ false | some k ↦ k == key ]

abbrev run_id_of : RunRecord → Text
run_id_of run = run.run_id

unfoldable pub find_by_idempotency_key : MemoryStore → Text → Result StoreError (Option Text)
find_by_idempotency_key s key = ok (Option.map run_id_of (find? (has_key key) (values s.runs)))

abbrev pub fresh_run : Timestamp → Text → NewRun → RunRecord
fresh_run now run_id new = record {
  run_id = run_id;
  flow_name = new.flow_name;
  flow_version = new.flow_version;
  definition = new.definition;
  inputs = new.inputs;
  trigger = new.trigger;
  phase = RunPhase.running;
  cancelled = false;
  created_at = now;
  updated_at = now;
  idempotency_key = new.idempotency_key;
  steps = [];
}

insert_run : Timestamp → Text → NewRun → MemoryStore → Result StoreError Text × MemoryStore
insert_run now run_id new s =
    (ok run_id, record s { runs = insert s.runs run_id (fresh_run now run_id new) })

-- `run_id` is what `ids::new_run_id` returns.
unfoldable pub create_run :
    Timestamp → Text → NewRun → MemoryStore → Result StoreError Text × MemoryStore
unfolding insert_run
create_run now run_id new s = elim new.idempotency_key [
  | none ↦ insert_run now run_id new s
  | some key ↦
      if any (has_key key) (values s.runs)
      then (err (duplicate key), s)
      else insert_run now run_id new s
]

-- `sort_by_key(|r| r.created_at)`, which is stable.
insert_by_created : RunRecord → List RunRecord → List RunRecord
insert_by_created r [] = r ∷ []
insert_by_created r (q ∷ rest) =
    if leb r.created_at q.created_at then r ∷ q ∷ rest else q ∷ insert_by_created r rest

pub sort_by_created : List RunRecord → List RunRecord
unfolding insert_by_created
sort_by_created [] = []
sort_by_created (r ∷ rest) = insert_by_created r (sort_by_created rest)

unfoldable pub runs_in_phase : MemoryStore → RunPhase → Result StoreError (List RunRecord)
unfolding sort_by_created
runs_in_phase s p = ok (sort_by_created (filter (λ r. same_phase r.phase p) (values s.runs)))

abbrev pub summary : RunRecord → RunSummary
summary r = record {
  run_id = r.run_id;
  flow_name = r.flow_name;
  flow_version = r.flow_version;
  phase = r.phase;
  created_at = r.created_at;
  updated_at = r.updated_at;
}

-- `is_none_or`.
abbrev pub is_none_or {ℓ} : {A : Type ℓ} → Option A → (A → Bool) → Bool
is_none_or none p = true
is_none_or (some a) p = p a

abbrev pub passes : RunFilter → RunRecord → Bool
passes f r =
    is_none_or f.flow_name (λ n. r.flow_name == n) && is_none_or f.phase (λ p. same_phase r.phase p)

-- `truncate(limit)`.
abbrev pub truncate {ℓ} : {A : Type ℓ} → Option ℕ → List A → List A
truncate none xs = xs
truncate (some n) xs = take n xs

-- The rows are sorted as runs, since a summary has the same `created_at`.
unfoldable pub list_runs : MemoryStore → RunFilter → Result StoreError (List RunSummary)
unfolding sort_by_created
list_runs s f =
    ok (truncate f.limit (map summary (sort_by_created (filter (passes f) (values s.runs)))))

-- Only the SQLite store keeps the link.
unfoldable pub link_runs :
    Text → Text → Text → MemoryStore → Result StoreError (Unit {0}) × MemoryStore
link_runs parent_run parent_step child_run s = (ok tt, s)

unfoldable pub load_run_tree : MemoryStore → Text → Result StoreError RunTree
unfolding load_run
load_run_tree s id = load_run s id >>= λ root. ok (tree root leaf)

unfoldable pub list_hook_runs : MemoryStore → Text → Result StoreError (List HookRunRecord)
list_hook_runs s id = ok (get_or (get s.hook_runs id) [])

abbrev pub pushed : MemoryStore → Text → ℕ
pushed s id = get_or (get s.events_pushed_through id) 0

abbrev pub events_of : MemoryStore → Text → List StoredRunEvent
events_of s id = get_or (get s.events id) []

-- What the two nested loops visit and do not pass over.
abbrev pub candidates : MemoryStore → List (Text × StoredRunEvent)
candidates s =
    flat_map
      (λ id. map (λ e. (id, e)) (filter (λ e. ltb (pushed s id) e.sequence) (events_of s id)))
      (sort (map (λ e. e.0) s.events))

-- `out.push(event); if out.len() >= limit { break 'outer }`.
pub push_until {ℓ} : {A : Type ℓ} → ℕ → List A → List A → List A
push_until limit out [] = out
push_until limit out (e ∷ r) =
    let out' = out ++ e ∷ [] in
    let rest = push_until limit out' r in if leb limit (length out') then out' else rest

pub unpushed_events : MemoryStore → ℕ → Result StoreError (List (Text × StoredRunEvent))
unfolding push_until sort
unpushed_events s limit = ok (push_until limit [] (candidates s))

unfoldable pub mark_events_pushed :
    Text → ℕ → MemoryStore → Result StoreError (Unit {0}) × MemoryStore
mark_events_pushed id through s = (
  ok tt,
  record s {
    events_pushed_through = insert s.events_pushed_through id (max (pushed s id) through);
  },
)

unfoldable pub empty : MemoryStore
empty = record { runs = []; hook_runs = []; events = []; events_pushed_through = [] }
