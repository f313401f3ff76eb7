-- ===== src/Server/Poller/Laws.antt =====
-- A trigger_run that the platform delivers again starts no second run.
use flowspec_devkitd.Base.{
  true, Text, List, codes, ◌==◌, Option, none, some, Result, ok, err, Partial, returns, panics, ◌≡◌,
  refl, sym, ◌∙◌, ap, Result-cases, subst, inl, inr, Option-cases, arith,
}
use flowspec_devkitd.Flow.Types.{FlowDefinition, SerdeJson}
use flowspec_devkitd.Run.Types.{Event, Timestamp}
use flowspec_devkitd.App.Store.Memory.{MemoryStore, find_by_idempotency_key}
use flowspec_devkitd.App.Store.Memory.Atomic.{memory_store}
use flowspec_devkitd.App.UseCases.{Submit}
use flowspec_devkitd.App.UseCases.StartFlow.{
  StartFlowError, StartFlowResponse, start_flow_with_definition,
}
use flowspec_devkitd.App.UseCases.StartFlow.Keys.{Finds, start_flow_with_definition-Finds}
use flowspec_devkitd.Server.Poller.{
  Action, Payloads, TriggerRunPayload, Reply, ack, handle_action, handle_trigger_run, trigger_known,
  trigger_payload, trigger_request, start_document, trigger_reply, known_run,
  parse_and_validate_flow_doc, idempotency_key,
}

module _ (json : SerdeJson) (set_order : List Text → List Text) (payloads : Payloads)
    (submit : Submit memory_store)
    (kept : (id : Text) (event : Event) (s : MemoryStore) (key found : Text)
      → Finds key found s
      → Finds key found (submit id event s))
    (now : Timestamp) (fresh_id : Text) where
  known_run-Finds :
      (platform_id id : Text) (s : MemoryStore)
      → Finds (idempotency_key platform_id) id s
      → known_run json set_order payloads memory_store submit now fresh_id platform_id s ≡ some id
  unfolding known_run
  known_run-Finds platform_id id s h = ground (arith, h)

  Finds-known_run :
      (platform_id id : Text) (s : MemoryStore)
      → known_run json set_order payloads memory_store submit now fresh_id platform_id s ≡ some id
      → Finds (idempotency_key platform_id) id s
  unfolding known_run
  Finds-known_run platform_id id s h =
      elim (Result-cases (find_by_idempotency_key s (idempotency_key platform_id))) [
        | inr (e, q) ↦ absurd (ground (arith, q, h))
        | inl (found, q) ↦ elim (Option-cases found) [
          | inl z ↦ absurd (ground (arith, q, z, h))
          | inr (other, z) ↦
              let same : other ≡ id = ground (arith, q, z, h) in q ∙ ap ok (z ∙ ap some same)
        ]
      ]

  trigger_reply-ok :
      (o : Result StartFlowError StartFlowResponse × MemoryStore) (s' : MemoryStore) (id : Text)
      → trigger_reply json set_order payloads memory_store submit now fresh_id o
        ≡ (returns (ack (some id)), s')
      → (r : StartFlowResponse) × (o ≡ (ok r, s')) × (r.run_id ≡ id)
  unfolding trigger_reply
  trigger_reply-ok (err e, s) s' id h = cc
  trigger_reply-ok (ok r, s) s' id h =
      let left : s ≡ s' = cc h in (r, ap (λ t. (ok r, t)) left, cc h)

  start_document-Finds :
      (p : TriggerRunPayload) (d : Partial (Option FlowDefinition)) (s s' : MemoryStore) (id : Text)
      → start_document json set_order payloads memory_store submit now fresh_id p d s
        ≡ (returns (ack (some id)), s')
      → Finds (idempotency_key p.run_id) id s'
  unfolding start_document trigger_reply
  start_document-Finds p panics s s' id h = cc
  start_document-Finds p (returns none) s s' id h = cc
  start_document-Finds p (returns (some d)) s s' id h =
      let (r, started, same) =
        trigger_reply-ok
          (start_flow_with_definition memory_store submit now fresh_id d (trigger_request p) s) s'
          id h in
      subst (λ x. Finds (idempotency_key p.run_id) x s') same
        (start_flow_with_definition-Finds submit kept now (idempotency_key p.run_id)
          (trigger_request p) fresh_id d s s' r refl started)

  trigger_payload-none :
      (s s' : MemoryStore) (id : Text)
      → ¬ (
          trigger_payload json set_order payloads memory_store submit now fresh_id none s
          ≡ (returns (ack (some id)), s'))
  unfolding trigger_payload
  trigger_payload-none s s' id h = cc

  trigger_payload-Finds :
      (p : TriggerRunPayload) (s s' : MemoryStore) (id : Text)
      → trigger_payload json set_order payloads memory_store submit now fresh_id (some p) s
        ≡ (returns (ack (some id)), s')
      → Finds (idempotency_key p.run_id) id s'
  unfolding trigger_payload trigger_known
  trigger_payload-Finds p s s' id h =
      let known : Option Text =
        known_run json set_order payloads memory_store submit now fresh_id p.run_id s in
      elim (Option-cases known) [
        | inl q ↦
            start_document-Finds p (parse_and_validate_flow_doc json set_order payloads p.flow_doc)
              s s' id
              (subst
                (λ k.
                  trigger_known json set_order payloads memory_store submit now fresh_id p k s
                  ≡ (returns (ack (some id)), s'))
                q h)
        | inr (found, q) ↦
            let acked : Path (Partial Reply × MemoryStore) (returns (ack (some found)), s)
                (returns (ack (some id)), s') =
              subst
                (λ k.
                  trigger_known json set_order payloads memory_store submit now fresh_id p k s
                  ≡ (returns (ack (some id)), s'))
                q h in
            let same : found ≡ id = cc acked in
            let left : s ≡ s' = cc acked in
            subst (λ x. Finds (idempotency_key p.run_id) id x) left
              (subst (λ x. Finds (idempotency_key p.run_id) x s) same
                (Finds-known_run p.run_id found s q))
      ]

  Finds-trigger_payload :
      (p : TriggerRunPayload) (s : MemoryStore) (id : Text)
      → Finds (idempotency_key p.run_id) id s
      → trigger_payload json set_order payloads memory_store submit now fresh_id (some p) s
        ≡ (returns (ack (some id)), s)
  unfolding trigger_payload trigger_known
  Finds-trigger_payload p s id h =
      ap (λ k. trigger_known json set_order payloads memory_store submit now fresh_id p k s)
        (known_run-Finds p.run_id id s h)

-- A trigger_run action that has been answered with the id of a run is answered with the same id
-- when it is delivered again, at any later time, and the store is as the first delivery left it: no
-- second run is started. The scheduler may do to the store what it likes as long as an idempotency
-- key goes on finding its run.
pub handle_action-redelivered :
    (json : SerdeJson) (set_order : List Text → List Text) (payloads : Payloads)
    (submit : Submit memory_store) (now later : Timestamp) (fresh_id other_id : Text)
    (action : Action) (s s' : MemoryStore) (id : Text)
    → ((run : Text) (event : Event) (t : MemoryStore) (key found : Text)
        → Finds key found t
        → Finds key found (submit run event t))
    → (action.kind == codes "trigger_run") ≡ true
    → handle_action json set_order payloads memory_store submit now fresh_id action s
      ≡ (returns (ack (some id)), s')
    → handle_action json set_order payloads memory_store submit later other_id action s'
      ≡ (returns (ack (some id)), s')
unfolding handle_action handle_trigger_run
handle_action-redelivered json set_order payloads submit now later fresh_id other_id action s s' id
      kept kind h =
    let payload : Option TriggerRunPayload = payloads.trigger_run action.payload in
    let taken : handle_action json set_order payloads memory_store submit now fresh_id action s
        ≡ trigger_payload json set_order payloads memory_store submit now fresh_id payload s =
      rw kind refl in
    let first = sym taken ∙ h in
    elim (Option-cases payload) [
      | inl q ↦ absurd (
          trigger_payload-none json set_order payloads submit kept now fresh_id s s' id (
            subst
              (λ x.
                trigger_payload json set_order payloads memory_store submit now fresh_id x s
                ≡ (returns (ack (some id)), s'))
              q first))
      | inr (p, q) ↦
          let found =
            trigger_payload-Finds json set_order payloads submit kept now fresh_id p s s' id (
              subst
                (λ x.
                  trigger_payload json set_order payloads memory_store submit now fresh_id x s
                  ≡ (returns (ack (some id)), s'))
                q first) in
          rw (kind, q)
            (Finds-trigger_payload json set_order payloads submit kept later other_id p s' id found)
    ]
