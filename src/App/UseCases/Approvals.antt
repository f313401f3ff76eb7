-- ===== src/App/UseCases/Approvals.antt =====
-- crates/flowspec-app/src/use_cases/approvals.rs: approving and rejecting a step that waits.
use flowspec_devkitd.Base.{
  Bool, true, false, Text, codes, List, [], ◌∷◌, map, filter, any, ◌==◌, Option, none, some,
  if◌then◌else◌, Result, ok, err, ◌≡◌, ◌⊎◌, inl, inr, Memᴰ, arith, ==_iff, sym, subst, any-eq-true,
  any_iff, mem-filter, mem-map, refl, ap, ◌∙◌, ◌↔◌, Bool-cases, Result-cases,
}
use flowspec_devkitd.Json.{Value, null, string, object, end, field}
use flowspec_devkitd.Run.Types.{Event, StepStatus, Timestamp}
use flowspec_devkitd.App.Ports.{StepRecord, RunRecord, latest_steps}
use flowspec_devkitd.App.Mutations.{Mutation, RunEventType, StoreError}
use flowspec_devkitd.App.Store.{StateStore}
use flowspec_devkitd.App.Scheduler.Events.{event_mutation}
use flowspec_devkitd.App.UseCases.{Submit}

pub data ApprovalError : Type 0 where
  store : StoreError → ApprovalError
  no_waiting_step ambiguous_step : ApprovalError
  not_waiting : Text → ApprovalError

pub record ApproveRequest : Type 0 where
  pub run_id : Text
  pub step_id : Option Text
  pub comment : Option Text

pub record RejectRequest : Type 0 where
  pub run_id : Text
  pub step_id : Option Text
  pub feedback : Text

pub record ApprovalResponse : Type 0 where
  pub run_id : Text
  pub step_id : Text

abbrev pub is_waiting : StepRecord → Bool
is_waiting s = elim s.run.status [ StepStatus.waiting_approval ↦ true | _ ↦ false ]

abbrev pub waiting_steps : RunRecord → List Text
waiting_steps run = map (λ s. s.run.step_id) (filter is_waiting (latest_steps run.steps))

-- The `if` chain of `resolve_step_id`.
pub choose_step : Option Text → List Text → Result ApprovalError Text
choose_step (some id) waiting = if any (λ w. w == id) waiting then ok id else err (not_waiting id)
choose_step none [] = err no_waiting_step
choose_step none (id ∷ []) = ok id
choose_step none (id ∷ other ∷ rest) = err ambiguous_step

abbrev pub optional : Option Text → Value
optional none = null
optional (some s) = string s

module _ (S : StateStore) (submit : Submit S) (now : Timestamp) where
  pub resolve_step_id : Text → Option Text → S.State → Result ApprovalError Text
  unfolding choose_step
  resolve_step_id run_id explicit s = elim (S.load_run s run_id) [
    | err e ↦ err (store e)
    | ok run ↦ choose_step explicit (waiting_steps run)
  ]

  -- The event of the outbox, whose write may fail, and then the event of the engine.
  abbrev pub resolved_by : Text → Text → Value → Event → S.State → S.State
  resolved_by run_id step_id payload event s =
      submit run_id event
        (S.apply now run_id
          (event_mutation now RunEventType.approval_resolved (some step_id) payload ∷ []) s).1

  unfoldable pub respond :
      Text
      → Result ApprovalError Text
      → (Text → S.State → S.State)
      → S.State
      → Result ApprovalError ApprovalResponse × S.State
  respond run_id (err e) write s = (err e, s)
  respond run_id (ok step_id) write s =
      (ok (record { run_id = run_id; step_id = step_id }), write step_id s)

  abbrev pub approval_payload : Option Text → Value
  approval_payload comment = object (
      field (codes "decision") (string (codes "approved"))
        (field (codes "comment") (optional comment) end))

  abbrev pub rejection_payload : Text → Value
  rejection_payload feedback = object (
      field (codes "decision") (string (codes "rejected"))
        (field (codes "feedback") (string feedback) end))

  -- What an approval, and a rejection, writes.
  abbrev pub write_approval : ApproveRequest → Text → S.State → S.State
  write_approval req step_id s =
      resolved_by req.run_id step_id (approval_payload req.comment)
        (Event.step_approved step_id req.comment) s

  abbrev pub write_rejection : RejectRequest → Text → S.State → S.State
  write_rejection req step_id s =
      resolved_by req.run_id step_id (rejection_payload req.feedback)
        (Event.step_rejected step_id req.feedback) s

  unfoldable pub approve_step :
      ApproveRequest → S.State → Result ApprovalError ApprovalResponse × S.State
  unfolding respond resolve_step_id
  approve_step req s =
      respond req.run_id (resolve_step_id req.run_id req.step_id s) (write_approval req) s

  unfoldable pub reject_step :
      RejectRequest → S.State → Result ApprovalError ApprovalResponse × S.State
  unfolding respond resolve_step_id
  reject_step req s =
      respond req.run_id (resolve_step_id req.run_id req.step_id s) (write_rejection req) s

-- The latest attempt of the step waits for approval.
abbrev pub Waits : RunRecord → Text → Type 0
Waits run id =
    (step : StepRecord) × Memᴰ step (latest_steps run.steps)
    × (step.run.status ≡ StepStatus.waiting_approval)
    × (step.run.step_id ≡ id)

-- The step that a request names, or the only one that waits.
abbrev pub Chosen : RunRecord → Option Text → Text → Type 0
Chosen run (some named) id = (named ≡ id) × Waits run id
Chosen run none id = (waiting_steps run ≡ id ∷ []) × Waits run id

-- What an approval leaves: its event is in the outbox, if it can be written, and the engine is told
-- that the step is approved.
abbrev pub approved :
    (S : StateStore) → Submit S → Timestamp → ApproveRequest → S.State → Text → S.State
approved S submit now req s id =
    submit req.run_id (Event.step_approved id req.comment)
      (S.apply now req.run_id
        (Mutation.append_event (record {
          event_type = RunEventType.approval_resolved;
          step_id = some id;
          timestamp = now;
          payload = object (
              field (codes "decision") (string (codes "approved")) (
                field (codes "comment") (elim req.comment [ none ↦ null | some c ↦ string c ])
                  end));
        })
          ∷ [])
        s).1

is_waiting_iff :
    (step : StepRecord) → (is_waiting step ≡ true) ↔ (step.run.status ≡ StepStatus.waiting_approval)
is_waiting_iff step = ground arith

Waits-iff : (run : RunRecord) (id : Text) → Memᴰ id (waiting_steps run) ↔ Waits run id
Waits-iff run id = (
  λ m.
      let (step, kept, same) =
        (mem-map (λ s. s.run.step_id) id (filter is_waiting (latest_steps run.steps))).0 m in
      let (listed, waits) = (mem-filter is_waiting step (latest_steps run.steps)).0 kept in
      (step, listed, (is_waiting_iff step).0 waits, same),
  λ (step, listed, waits, same).
      (mem-map (λ s. s.run.step_id) id (filter is_waiting (latest_steps run.steps))).1 (
        step,
        (mem-filter is_waiting step (latest_steps run.steps)).1
            (listed, (is_waiting_iff step).1 waits),
        same,
      ),
)

any-mem : (id : Text) (ids : List Text) → (any (λ w. w == id) ids ≡ true) ↔ Memᴰ id ids
any-mem id ids = (
  λ h.
      let (w, m, e) = any-eq-true (λ w. w == id) ids h in
      subst (λ x. Memᴰ x ids) ((==_iff w id).0 e) m,
  λ m. elim (Bool-cases (any (λ w. w == id) ids)) [
    | inl e ↦ e
    | inr e ↦
        let no = (any_iff (λ w. w == id) ids).0 e id m in let yes = (==_iff id id).1 refl in cc
  ],
)

only_one_iff :
    (waiting : List Text) (id : Text) {P : Type 0}
    → (waiting ≡ id ∷ [] → P)
    → (choose_step none waiting ≡ ok id) ↔ ((waiting ≡ id ∷ []) × P)
unfolding choose_step
only_one_iff [] id p = (λ e. cc, λ h. let q = h.0 in cc)
only_one_iff (w ∷ []) id p = (
  λ e. let same : w ∷ [] ≡ id ∷ [] = ap (λ x. x ∷ []) (ground (arith, e)) in (same, p same),
  λ h. let q = h.0 in cc,
)
only_one_iff (w ∷ v ∷ rest) id p = (λ e. cc, λ h. let q = h.0 in cc)

choose_step_iff :
    (run : RunRecord) (explicit : Option Text) (id : Text)
    → (choose_step explicit (waiting_steps run) ≡ ok id) ↔ Chosen run explicit id
unfolding choose_step
choose_step_iff run (some named) id = (
  λ e. elim (Bool-cases (any (λ w. w == named) (waiting_steps run))) [
    | inl h ↦
        let same : named ≡ id = ground (arith, e, h) in
        (
          same,
          subst (Waits run) same
              ((Waits-iff run named).0 ((any-mem named (waiting_steps run)).0 h)),
        )
    | inr h ↦ absurd (ground (arith, e, h))
  ],
  λ (same, waits).
      let m = (Waits-iff run named).1 (subst (Waits run) (sym same) waits) in
      let h = (any-mem named (waiting_steps run)).1 m in ground (arith, h, same),
)
choose_step_iff run none id =
    only_one_iff (waiting_steps run) id (λ e. (Waits-iff run id).0 (rw e (Memᴰ.head refl)))

-- What is answered, and the store that is left, in full.
abbrev pub Approves :
    (S : StateStore)
    → Submit S
    → Timestamp
    → ApproveRequest
    → S.State
    → ApprovalResponse
    → S.State
    → Type 0
Approves S submit now req s response s' =
    (run : RunRecord) × (S.load_run s req.run_id ≡ ok run)
    × (response.run_id ≡ req.run_id)
    × Chosen run req.step_id response.step_id
    × (s' ≡ approved S submit now req s response.step_id)

-- An approval is accepted exactly if the run is stored and the step of the response is the one that
-- the request names, or without a name the only one that waits; its latest attempt waits for
-- approval. It leaves the event in the outbox, if that can be written, and has the approval of that
-- step submitted. An approval that is not accepted leaves the store as it was.
pub approve_step_iff :
    (S : StateStore) (submit : Submit S) (now : Timestamp) (req : ApproveRequest) (s s' : S.State)
    (response : ApprovalResponse)
    → ((approve_step S submit now req s ≡ (ok response, s'))
        ↔ Approves S submit now req s response s')
      × (((e : ApprovalError) × (approve_step S submit now req s ≡ (err e, s)))
          ⊎ ((r : ApprovalResponse) × ((approve_step S submit now req s).0 ≡ ok r)))
unfolding approve_step respond resolve_step_id
approve_step_iff S submit now req s s' response = elim (Result-cases (S.load_run s req.run_id)) [
  | inr (e, q) ↦ (
    (
      λ h. absurd (ground (arith, q, h)),
      λ (run, found, rest, chosen, left). absurd (cc (q, found)),
    ),
    inl (store e, ground (arith, q)),
  )
  | inl (run, q) ↦ elim (Result-cases (choose_step req.step_id (waiting_steps run))) [
    | inr (e, c) ↦ (
      (
        λ h. absurd (ground (arith, q, c, h)),
        λ (run', found, same, chosen, left).
            let loaded : run' ≡ run = cc (q, found) in
            let c' =
              (choose_step_iff run req.step_id response.step_id).1
                (subst (λ r. Chosen r req.step_id response.step_id) loaded chosen) in
            absurd (cc (c, c')),
      ),
      inl (e, ground (arith, q, c)),
    )
    | inl (id, c) ↦
        let answer : ApprovalResponse = record { run_id = req.run_id; step_id = id } in
        let out : approve_step S submit now req s ≡ (ok answer, approved S submit now req s id) =
          ground (arith, q, c) in
        (
          (
            λ h.
                let whole : Path (Result ApprovalError ApprovalResponse × S.State)
                    (ok answer, approved S submit now req s id) (ok response, s') =
                  cc (out, h) in
                let same : answer ≡ response = cc whole in
                let left : approved S submit now req s id ≡ s' = cc whole in
                let chosen = (choose_step_iff run req.step_id id).0 c in
                (
                  run,
                  q,
                  ap (λ r. r.run_id) (sym same),
                  subst (λ i. Chosen run req.step_id i) (ap (λ r. r.step_id) same) chosen,
                  sym left ∙ ap (λ r. approved S submit now req s r.step_id) same,
                ),
            λ (run', found, same, chosen, left).
                let loaded : run' ≡ run = cc (q, found) in
                let c' =
                  (choose_step_iff run req.step_id response.step_id).1
                    (subst (λ r. Chosen r req.step_id response.step_id) loaded chosen) in
                let same_id : id ≡ response.step_id = cc (c, c') in
                let same_answer : answer ≡ response = ground (arith, same, same_id) in
                cc (out, same_answer, same_id, left),
          ),
          inr (answer, ground (arith, q, c)),
        )
  ]
]
