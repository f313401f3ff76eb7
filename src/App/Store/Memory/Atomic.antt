-- ===== src/App/Store/Memory/Atomic.antt =====
-- The store in memory as an instance of the interface, and the law of its batches.
use mathlib.Core.Option.{get_or}
use flowspec_devkitd.Base.{
  ◌≡◌, refl, sym, ap, ◌∙◌, Text, List, [], ◌∷◌, ◌++◌, none, some, ok, err, ◌>>=◌, ◌==◌, ==_iff,
  if◌then◌else◌, arith, inl, inr, Option-cases, Result-cases, Bool-cases, append-nil,
}
use flowspec_devkitd.Base.Map.{Map, get, get-insert}
use flowspec_devkitd.Run.Types.{Timestamp}
use flowspec_devkitd.App.Ports.{RunRecord}
use flowspec_devkitd.App.Mutations.{Mutation, HookRunRecord, apply_all, not_found}
use flowspec_devkitd.App.Store.{StateStore, IsAtomic, after, outcome, hooks_after}
use flowspec_devkitd.App.Store.Memory.{
  MemoryStore, apply, commit, load_run, create_run, find_by_idempotency_key, list_runs,
  runs_in_phase, link_runs, load_run_tree, list_hook_runs, unpushed_events, mark_events_pushed,
  extend_rows,
}

abbrev pub memory_store : StateStore
memory_store = record {
  State = MemoryStore;
  create_run = create_run;
  load_run = load_run;
  find_by_idempotency_key = find_by_idempotency_key;
  apply = apply;
  list_runs = list_runs;
  runs_in_phase = runs_in_phase;
  link_runs = link_runs;
  load_run_tree = load_run_tree;
  list_hook_runs = list_hook_runs;
  unpushed_events = unpushed_events;
  mark_events_pushed = mark_events_pushed;
}

get_or-extend_rows :
    (table : Map (List HookRunRecord)) (id other : Text) (rows : List HookRunRecord)
    → get_or (get (extend_rows table id rows) other) []
      ≡ (if id == other then get_or (get table id) [] ++ rows else get_or (get table other) [])
get_or-extend_rows table id other [] = elim (Bool-cases (id == other)) [
  | inl e ↦ rw (e, (==_iff id other).0 e, append-nil) refl
  | inr e ↦ rw e refl
]
get_or-extend_rows table id other (h ∷ hs) = elim (Bool-cases (id == other)) [
  | inl e ↦ rw (get-insert, e) refl
  | inr e ↦ rw (get-insert, e) refl
]

-- The three ways that a batch ends.
pub apply-missing :
    (now : Timestamp) (id : Text) (ms : List Mutation) (s : MemoryStore)
    → get s.runs id ≡ none
    → apply now id ms s ≡ (err (not_found id), s)
unfolding apply
apply-missing now id ms s h = ground (arith, h)

pub apply-commit :
    (now : Timestamp) (id : Text) (ms : List Mutation) (s : MemoryStore) (run : RunRecord)
    → get s.runs id ≡ some run
    → apply now id ms s ≡ commit now id ms s (apply_all ms run)
unfolding apply
apply-commit now id ms s run h = ground (arith, h)

apply-result :
    (now : Timestamp) (id : Text) (ms : List Mutation) (s : MemoryStore)
    → (apply now id ms s).0 ≡ outcome (load_run s id >>= apply_all ms)
unfolding commit load_run
apply-result now id ms s = elim (Option-cases (get s.runs id)) [
  | inl e ↦ rw (apply-missing now id ms s e, load_run, e) refl
  | inr (run, e) ↦ elim (Result-cases (apply_all ms run)) [
    | inl (run', q) ↦ rw (apply-commit now id ms s run e, load_run, e, q) refl
    | inr (x, q) ↦ rw (apply-commit now id ms s run e, load_run, e, q) refl
  ]
]

-- Where nothing was written, what was there is left.
kept {ℓ} :
    {A : Type ℓ} (f : Text → A) (id other : Text) {x : A}
    → f id ≡ x
    → f other ≡ (if id == other then x else f other)
kept f id other h = elim (Bool-cases (id == other)) [
  | inl e ↦ rw e (ap f (sym ((==_iff id other).0 e)) ∙ h)
  | inr e ↦ rw e refl
]

apply-runs :
    (now : Timestamp) (id other : Text) (ms : List Mutation) (s : MemoryStore)
    → load_run (apply now id ms s).1 other
      ≡ (if id == other then after now ms (load_run s id) else load_run s other)
unfolding commit load_run
apply-runs now id other ms s = elim (Option-cases (get s.runs id)) [
  | inl e ↦
      let before : load_run s id ≡ err (not_found id) = rw (load_run, e) refl in
      rw (apply-missing now id ms s e, before) (kept (load_run s) id other before)
  | inr (run, e) ↦
      let before : load_run s id ≡ ok run = rw (load_run, e) refl in
      elim (Result-cases (apply_all ms run)) [
        | inl (run', q) ↦ elim (Bool-cases (id == other)) [
          | inl same ↦
              rw (apply-commit now id ms s run e, before, q, load_run, get-insert, same, after) refl
          | inr differs ↦ rw (apply-commit now id ms s run e, q, load_run, get-insert, differs) refl
        ]
        | inr (x, q) ↦
            let stays : load_run s id ≡ after now ms (ok run) = rw (before, after, q) refl in
            rw (apply-commit now id ms s run e, q, before) (kept (load_run s) id other stays)
      ]
]

apply-hooks :
    (now : Timestamp) (id other : Text) (ms : List Mutation) (s : MemoryStore)
    → list_hook_runs (apply now id ms s).1 other ≡ (
        if id == other
        then hooks_after ms (load_run s id >>= apply_all ms) (list_hook_runs s id)
        else list_hook_runs s other)
unfolding commit load_run list_hook_runs
apply-hooks now id other ms s = elim (Option-cases (get s.runs id)) [
  | inl e ↦
      let before : load_run s id ≡ err (not_found id) = rw (load_run, e) refl in
      rw (apply-missing now id ms s e, before) (kept (list_hook_runs s) id other refl)
  | inr (run, e) ↦
      let before : load_run s id ≡ ok run = rw (load_run, e) refl in
      elim (Result-cases (apply_all ms run)) [
        | inl (run', q) ↦ elim (Bool-cases (id == other)) [
          | inl same ↦
              rw
                (
                  apply-commit now id ms s run e,
                  before,
                  q,
                  list_hook_runs,
                  get_or-extend_rows,
                  same,
                )
                refl
          | inr differs ↦
              rw (apply-commit now id ms s run e, q, list_hook_runs, get_or-extend_rows, differs)
                refl
        ]
        | inr (x, q) ↦
            rw (apply-commit now id ms s run e, before, q) (kept (list_hook_runs s) id other refl)
      ]
]

-- The store in memory applies a batch as a whole to the run that the batch names, with its rows of
-- hooks, or not at all, and leaves the other runs alone.
pub memory_store-IsAtomic : IsAtomic memory_store
memory_store-IsAtomic = record { results = apply-result; runs = apply-runs; hooks = apply-hooks }
