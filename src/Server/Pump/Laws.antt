-- ===== src/Server/Pump/Laws.antt =====
-- What a pass over the outbox of the store in memory may change.
use mathlib.Core.Option.{get_or}
use flowspec_devkitd.Base.{
  ℕ, false, Text, ◌==◌, ==_iff, List, [], ◌∷◌, map, Option, none, some, ok, ◌≡◌, refl, ◌∙◌, inl,
  inr, Option-cases, Bool-cases, Result-cases, ◌⊎◌, arith,
}
use flowspec_devkitd.Base.Map.{Map, get, get-insert}
use flowspec_devkitd.Base.Sets.{sort}
use flowspec_devkitd.App.Ports.{RunRecord}
use flowspec_devkitd.App.Mutations.{StoredRunEvent}
use flowspec_devkitd.App.Store.{StateStore}
use flowspec_devkitd.App.Store.Memory.{
  MemoryStore, load_run, mark_events_pushed, unpushed_events, pushed,
}
use flowspec_devkitd.App.Store.Memory.Atomic.{memory_store}
use flowspec_devkitd.App.UseCases.Snapshot.{platform_run_id, flow_run_snapshot, maximum}
use flowspec_devkitd.Server.Pump.{
  PlatformClient, mark_batch, to_platform, drain_run, drain_runs, drain_once, group_by_run,
}

-- The runs are as they were, and so is the mark of the run `id`.
abbrev pub Untouched : Text → MemoryStore → MemoryStore → Type 0
Untouched id s s' = (s'.runs ≡ s.runs) × (s'.events ≡ s.events) × (pushed s' id ≡ pushed s id)

-- A run is marked, or nothing is written.
module _ (client : PlatformClient) (S : StateStore) where
  mark_batch_cases :
      (id : Text) (es : List StoredRunEvent) (s : S.State)
      → (mark_batch client S id es s ≡ s)
        ⊎ ((n : ℕ) × (mark_batch client S id es s ≡ (S.mark_events_pushed id n s).1))
  mark_batch_cases id es s = elim (Option-cases (maximum (map (λ e. e.sequence) es))) [
    | inl e ↦ inl (ground (arith, e))
    | inr (n, e) ↦ inr (n, ground (arith, e))
  ]

  to_platform_cases :
      (id : Text) (platform_id : Option Text) (es : List StoredRunEvent) (s : S.State)
      → (to_platform client S id platform_id es s ≡ s)
        ⊎ (to_platform client S id platform_id es s ≡ mark_batch client S id es s)
  unfolding to_platform
  to_platform_cases id none es s = inr refl
  to_platform_cases id (some p) es s = elim (Bool-cases (client.push_events p es)) [
    | inr e ↦ inl (ground (arith, e))
    | inl e ↦ elim (Result-cases (flow_run_snapshot S id s)) [
      | inr (x, q) ↦ inl (ground (arith, e, q))
      | inl (snapshot, q) ↦ elim (Bool-cases (client.push_state p snapshot)) [
        | inl r ↦ inr (ground (arith, e, q, r))
        | inr r ↦ inl (ground (arith, e, q, r))
      ]
    ]
  ]

  drain_run_cases :
      (id : Text) (es : List StoredRunEvent) (s : S.State)
      → (drain_run client S id es s ≡ s)
        ⊎ (drain_run client S id es s ≡ mark_batch client S id es s)
  unfolding drain_run
  drain_run_cases id es s = elim (Result-cases (S.load_run s id)) [
    | inr (x, q) ↦ inl (ground (arith, q))
    | inl (run, q) ↦
        let same : drain_run client S id es s
            ≡ to_platform client S id (platform_run_id run.idempotency_key) es s =
          ground (arith, q) in
        rw same (to_platform_cases id (platform_run_id run.idempotency_key) es s)
  ]

  drain_run-refused :
      (id platform_id : Text) (es : List StoredRunEvent) (s : S.State) (run : RunRecord)
      → S.load_run s id ≡ ok run
      → platform_run_id run.idempotency_key ≡ some platform_id
      → client.push_events platform_id es ≡ false
      → drain_run client S id es s ≡ s
  unfolding drain_run to_platform
  drain_run-refused id platform_id es s run found its_id refused =
      ground (arith, found, its_id, refused)

module _ (client : PlatformClient) where
  mark_batch-Untouched :
      (id j : Text) (es : List StoredRunEvent) (s : MemoryStore)
      → (j == id) ≡ false
      → Untouched id s (mark_batch client memory_store j es s)
  unfolding mark_events_pushed
  mark_batch-Untouched id j es s other = elim (mark_batch_cases client memory_store j es s) [
    | inl e ↦ rw e (refl, refl, refl)
    | inr (n, e) ↦ rw e (refl, refl, rw (get-insert, other) refl)
  ]

  drain_run-Untouched :
      (id platform_id j : Text) (es : List StoredRunEvent) (s : MemoryStore) (run : RunRecord)
      → get s.runs id ≡ some run
      → platform_run_id run.idempotency_key ≡ some platform_id
      → ((events : List StoredRunEvent) → client.push_events platform_id events ≡ false)
      → Untouched id s (drain_run client memory_store j es s)
  unfolding load_run
  drain_run-Untouched id platform_id j es s run found its_id refused = elim (Bool-cases (j == id)) [
    | inl e ↦
        let same : get s.runs j ≡ some run = rw ((==_iff j id).0 e) found in
        let loaded : load_run s j ≡ ok run = rw (load_run, same) refl in
        rw (drain_run-refused client memory_store j platform_id es s run loaded its_id (refused es))
          (refl, refl, refl)
    | inr e ↦ elim (drain_run_cases client memory_store j es s) [
      | inl q ↦ rw q (refl, refl, refl)
      | inr q ↦ rw q (mark_batch-Untouched id j es s e)
    ]
  ]

  drain_runs-Untouched :
      (ids : List Text) (by_run : Map (List StoredRunEvent)) (id platform_id : Text)
      (s : MemoryStore) (run : RunRecord)
      → get s.runs id ≡ some run
      → platform_run_id run.idempotency_key ≡ some platform_id
      → ((events : List StoredRunEvent) → client.push_events platform_id events ≡ false)
      → Untouched id s (drain_runs client memory_store ids by_run s)
  unfolding drain_runs
  drain_runs-Untouched [] by_run id platform_id s run found its_id refused = (refl, refl, refl)
  drain_runs-Untouched (j ∷ ids) by_run id platform_id s run found its_id refused =
      let es = get_or (get by_run j) [] in
      let first = drain_run-Untouched id platform_id j es s run found its_id refused in
      let rest =
        drain_runs-Untouched ids by_run id platform_id (drain_run client memory_store j es s) run
          (rw (first.0) found) its_id refused in
      (rest.0 ∙ first.0, rest.1 ∙ first.1, rest.2 ∙ first.2)

-- While the platform refuses the events of one of its runs, a pass over the outbox does not mark
-- them as pushed, and it changes no run and no event.
pub drain_once-Untouched :
    (client : PlatformClient) (batch_size : ℕ) (id platform_id : Text) (s : MemoryStore)
    (run : RunRecord)
    → get s.runs id ≡ some run
    → platform_run_id run.idempotency_key ≡ some platform_id
    → ((events : List StoredRunEvent) → client.push_events platform_id events ≡ false)
    → Untouched id s (drain_once client memory_store batch_size s).1
unfolding drain_once
drain_once-Untouched client batch_size id platform_id s run found its_id refused =
    elim (Result-cases (unpushed_events s batch_size)) [
      | inr (e, q) ↦
          let same : (drain_once client memory_store batch_size s).1 ≡ s = ground (arith, q) in
          rw same (refl, refl, refl)
      | inl (events, q) ↦
          let same : (drain_once client memory_store batch_size s).1
              ≡ drain_runs client memory_store (sort (map (λ e. e.0) (group_by_run [] events)))
                  (group_by_run [] events) s =
            ground (arith, q) in
          rw same (
            drain_runs-Untouched client (sort (map (λ e. e.0) (group_by_run [] events)))
              (group_by_run [] events) id platform_id s run found its_id refused)
    ]
