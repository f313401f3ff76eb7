-- ===== src/App/UseCases/StartFlow/Keys.antt =====
-- A flow that is started with an idempotency key is found by that key.
use flowspec_devkitd.Base.{
  Bool, true, false, Text, [], ◌∷◌, Option, none, some, Result, ok, err, ◌≡◌, refl, ◌∙◌, sym, ap,
  subst, inl, inr, Bool-cases, is_empty, arith, ◌>>=◌,
}
use flowspec_devkitd.Json.{object, end}
use flowspec_devkitd.Flow.Types.{FlowDefinition}
use flowspec_devkitd.Run.Types.{Event, Timestamp}
use flowspec_devkitd.App.Ports.{RunRecord}
use flowspec_devkitd.App.Mutations.{RunEventType, StoreError, duplicate}
use flowspec_devkitd.App.Store.Memory.{
  MemoryStore, apply, create_run, find_by_idempotency_key, load_run,
}
use flowspec_devkitd.App.Store.Memory.Atomic.{memory_store}
use flowspec_devkitd.App.Store.Memory.Keys.{apply-find, create_run-found}
use flowspec_devkitd.App.Scheduler.Events.{event_mutation}
use flowspec_devkitd.App.UseCases.{Submit}
use flowspec_devkitd.App.UseCases.StartFlow.{
  StartFlowResponse, StartFlowRequestBase, start_flow_with_definition, unless_replayed,
  existing_run, missing, created, started, new_run, replayed_response, response, from_store,
  create_failed, replay_winner,
}

-- The run that a key finds.
abbrev pub Finds : Text → Text → MemoryStore → Type 0
Finds key id s = find_by_idempotency_key s key ≡ ok (some id)

response-run_id :
    (run_id : Text) (replayed : Bool) (loaded : Result StoreError RunRecord) (r : StartFlowResponse)
    → (from_store loaded >>= λ run. ok (response run_id replayed run)) ≡ ok r
    → r.run_id ≡ run_id
unfolding response
response-run_id run_id replayed (ok run) r h =
    let same : r ≡ response run_id replayed run = cc h in
    ap (λ (x : StartFlowResponse). x.run_id) same
response-run_id run_id replayed (err e) r h = cc

module _ (submit : Submit memory_store)
    (kept : (id : Text) (event : Event) (s : MemoryStore) (key found : Text)
      → Finds key found s
      → Finds key found (submit id event s))
    (now : Timestamp) (key : Text) where
  started-Finds :
      (id : Text) (o : Result StoreError (Unit {0}) × MemoryStore) (r : StartFlowResponse)
      (s' : MemoryStore)
      → Finds key id o.1
      → started memory_store submit now id o ≡ (ok r, s')
      → Finds key r.run_id s'
  unfolding started
  started-Finds id (err e, s) r s' p h = cc
  started-Finds id (ok _, s) r s' p h =
      let t : MemoryStore = submit id Event.run_started s in
      let left : t ≡ s' = cc h in
      let answered : (from_store (load_run t id) >>= λ run. ok (response id false run)) ≡ ok r =
        cc h in
      let same = response-run_id id false (load_run t id) r answered in
      let there : Finds key id t = kept id Event.run_started s key id p in
      subst (λ x. Finds key r.run_id x) left (subst (λ x. Finds key x t) (sym same) there)

  replayed-Finds :
      (id : Text) (s : MemoryStore) (r : StartFlowResponse)
      → replayed_response memory_store id s ≡ ok r
      → r.run_id ≡ id
  unfolding replayed_response
  replayed-Finds id s r h = response-run_id id true (load_run s id) r h

  replay_winner-Finds :
      (found : Result StoreError (Option Text)) (s : MemoryStore) (r : StartFlowResponse)
      → find_by_idempotency_key s key ≡ found
      → replay_winner memory_store key found s ≡ ok r
      → Finds key r.run_id s
  unfolding replay_winner
  replay_winner-Finds (err e) s r p h = cc
  replay_winner-Finds (ok none) s r p h = cc
  replay_winner-Finds (ok (some id)) s r p h =
      subst (λ x. Finds key x s) (sym (replayed-Finds id s r h)) p

  create_failed-Finds :
      (e : StoreError) (s : MemoryStore) (r : StartFlowResponse)
      → create_failed memory_store (some key) e s ≡ ok r
      → Finds key r.run_id s
  unfolding create_failed
  create_failed-Finds (duplicate _) s r h = replay_winner-Finds _ s r refl h
  create_failed-Finds e s r h = cc

  created-Finds :
      (req : StartFlowRequestBase) (o : Result StoreError Text × MemoryStore) (s' : MemoryStore)
      (r : StartFlowResponse)
      → req.idempotency_key ≡ some key
      → ((id : Text) → o.0 ≡ ok id → Finds key id o.1)
      → created memory_store submit now req o ≡ (ok r, s')
      → Finds key r.run_id s'
  unfolding created
  created-Finds req (err e, s) s' r keyed fresh h =
      let failed : create_failed memory_store req.idempotency_key e s ≡ ok r = cc h in
      let left : s ≡ s' = cc h in
      subst (λ x. Finds key r.run_id x) left
        (create_failed-Finds e s r
          (subst (λ k. create_failed memory_store k e s ≡ ok r) keyed failed))
  created-Finds req (ok id, s) s' r keyed fresh h =
      let there = fresh id refl in
      started-Finds id
        (apply now id (event_mutation now RunEventType.run_started none (object end) ∷ []) s) r s'
        (apply-find now id (event_mutation now RunEventType.run_started none (object end) ∷ []) s
            key
          ∙ there)
        h

  unless_replayed-Finds :
      (req : StartFlowRequestBase) (fresh : Text) (d : FlowDefinition)
      (found : Result StoreError (Option Text)) (s s' : MemoryStore) (r : StartFlowResponse)
      → req.idempotency_key ≡ some key
      → find_by_idempotency_key s key ≡ found
      → unless_replayed memory_store submit now fresh d req found s ≡ (ok r, s')
      → Finds key r.run_id s'
  unfolding unless_replayed
  unless_replayed-Finds req fresh d (err e) s s' r keyed p h = cc
  unless_replayed-Finds req fresh d (ok none) s s' r keyed p h =
      created-Finds req (create_run now fresh (new_run d req) s) s' r keyed
        (λ id made. create_run-found now fresh key (new_run d req) s id keyed made) h
  unless_replayed-Finds req fresh d (ok (some id)) s s' r keyed p h =
      let same = replayed-Finds id s r (cc h) in
      let left : s ≡ s' = cc h in
      subst (λ x. Finds key r.run_id x) left (subst (λ x. Finds key x s) (sym same) p)

  -- A flow that is started with a key is found by it.
  pub start_flow_with_definition-Finds :
      (req : StartFlowRequestBase) (fresh : Text) (d : FlowDefinition) (s s' : MemoryStore)
      (r : StartFlowResponse)
      → req.idempotency_key ≡ some key
      → start_flow_with_definition memory_store submit now fresh d req s ≡ (ok r, s')
      → Finds key r.run_id s'
  unfolding start_flow_with_definition existing_run
  start_flow_with_definition-Finds req fresh d s s' r keyed h =
      elim (Bool-cases (is_empty (missing d req.inputs))) [
        | inl e ↦
            let on : unless_replayed memory_store submit now fresh d req
                  (existing_run memory_store req.idempotency_key s) s
                ≡ (ok r, s') =
              ground (arith, e, h) in
            let p : find_by_idempotency_key s key
                ≡ existing_run memory_store req.idempotency_key s =
              rw keyed refl in
            unless_replayed-Finds req fresh d (existing_run memory_store req.idempotency_key s) s s'
              r keyed p on
        | inr e ↦ absurd (ground (arith, e, h))
      ]
