-- ===== src/App/Scheduler/Durable.antt =====
-- Steps are started only behind the write of their rows.
use flowspec_devkitd.Base.{
  ℕ, Option, ◌>>=◌, true, some, map, flat_map, All, arith, subst, ap, ◌∙◌, sym, >>=-eq-ok, List, [],
  ◌∷◌, ◌++◌, is_empty, Result, ok, err, ◌≡◌, refl, ◌⊎◌, inl, inr, Result-cases, Bool-cases,
  append-nil, Text,
}
use flowspec_devkitd.Json.{Value, null}
use flowspec_devkitd.Flow.Types.{SerdeJson, Step, flow_step}
use flowspec_devkitd.Template.{build_context}
use flowspec_devkitd.Run.Types.{StepStatus, Event, StepActivation, Timestamp}
use flowspec_devkitd.App.Ports.{StepRecord, RunRecord, run_state}
use flowspec_devkitd.App.Mutations.{Mutation, RunEventType, StoreError}
use flowspec_devkitd.App.Store.{StateStore}
use flowspec_devkitd.App.Scheduler.Types.{
  SchedulerConfig, SchedulerError, StartRequest, Effect, spawn_step,
}
use flowspec_devkitd.App.Scheduler.Request.{
  activation_of, or_unknown_step, build_step_request, build_activation, build_activations,
}
use flowspec_devkitd.App.Scheduler.Commands.{
  Turn, activate_steps, activated, flush, after_apply, spawn_all, row_mutations,
}

abbrev pub Built : Type 0
Built = List (StepActivation × StepRecord × StartRequest)

nothing_built :
    (now : Timestamp) (ms : List Mutation) (built : Built)
    → is_empty (ms ++ row_mutations now built) ≡ true
    → spawn_all built ≡ []
nothing_built now ms [] h = refl
nothing_built now [] (b ∷ built) h = cc
nothing_built now (m ∷ ms) (b ∷ built) h = cc

module _ (S : StateStore) (now : Timestamp) (run_id : Text) where
  after_apply-effects :
      (es : List Effect) (t : Turn S.State) (r : Result StoreError (Unit {0}) × S.State)
      → ((after_apply S now run_id es t r).1.effects ≡ t.effects)
        ⊎ ((r.0 ≡ ok tt) × ((after_apply S now run_id es t r).1.effects ≡ t.effects ++ es))
  unfolding after_apply
  after_apply-effects es t (err e, s) = inl refl
  after_apply-effects es t (ok u, s) = inr (refl, refl)

-- The row of an activation is a running attempt, started now, with the activation's number and
-- input.
abbrev pub IsRow : Timestamp → StepActivation × StepRecord × StartRequest → Type 0
IsRow now (a, row, request) =
    (row.run.step_id ≡ a.step_id)
    × (row.run.attempt ≡ a.attempt)
    × (row.run.status ≡ StepStatus.running)
    × (row.run.started_at ≡ some now)
    × (row.run.input_resolved ≡ some a.input)

-- The rows as they are written, each behind its event.
abbrev pub written : Timestamp → Built → List Mutation
written now built =
    flat_map
      (λ b.
        Mutation.append_event (record {
          event_type = RunEventType.step_activated;
          step_id = some b.1.run.step_id;
          timestamp = now;
          payload = null;
        })
        ∷ Mutation.insert_step_run b.1
        ∷ [])
      built

row_mutations-written :
    (now : Timestamp) (built : Built) → row_mutations now built ≡ written now built
row_mutations-written now [] = refl
row_mutations-written now (b ∷ built) = ground (arith, row_mutations-written now built)

spawn_all-map : (built : Built) → spawn_all built ≡ map (λ b. spawn_step b.0 b.2) built
spawn_all-map [] = refl
spawn_all-map (b ∷ built) = ground (arith, spawn_all-map built)

build_activation-IsRow :
    (json : SerdeJson) (config : SchedulerConfig) (now : Timestamp) (run : RunRecord)
    (a : StepActivation) (row : StepRecord) (request : StartRequest)
    → build_activation json config now run a ≡ ok (row, request)
    → IsRow now (a, row, request)
unfolding build_activation
build_activation-IsRow json config now run a row request h =
    let request_of : Step → Result SchedulerError (Value × Text × Option ℕ) = λ step.
      build_step_request json config step (build_context run.definition (run_state run) null)
        run.definition a.input in
    let (step, found, h1) =
      >>=-eq-ok (or_unknown_step json config a.step_id (flow_step run.definition a.step_id))
        (λ step. request_of step >>= λ built. ok (activation_of now run a built)) h in
    let (parts, made, h2) =
      >>=-eq-ok (request_of step) (λ built. ok (activation_of now run a built)) h1 in
    let its_row : (activation_of now run a parts).0 ≡ row = cc h2 in
    (
      ap (λ r. r.run.step_id) (sym its_row),
      ap (λ r. r.run.attempt) (sym its_row),
      ap (λ r. r.run.status) (sym its_row),
      ap (λ r. r.run.started_at) (sym its_row),
      ap (λ r. r.run.input_resolved) (sym its_row),
    )

build_activations-IsRow :
    (json : SerdeJson) (config : SchedulerConfig) (now : Timestamp) (run : RunRecord)
    (activations : List StepActivation) (built : Built)
    → build_activations json config now run activations ≡ ok built
    → (map (λ b. b.0) built ≡ activations) × All (IsRow now) built
unfolding build_activations
build_activations-IsRow json config now run [] built h =
    let same : [] ≡ built = cc h in
    subst (λ b. (map (λ x. x.0) b ≡ []) × All (IsRow now) b) same (refl, tt)
build_activations-IsRow json config now run (a ∷ r) built h =
    let rest_of : Result SchedulerError Built = build_activations json config now run r in
    let (b, made, h1) =
      >>=-eq-ok (build_activation json config now run a)
        (λ b. rest_of >>= λ later. ok ((a, b.0, b.1) ∷ later)) h in
    let (later, rest, h2) = >>=-eq-ok rest_of (λ later. ok ((a, b.0, b.1) ∷ later)) h1 in
    let same : Path Built ((a, b.0, b.1) ∷ later) built = cc h2 in
    let (starts, rows) = build_activations-IsRow json config now run r later rest in
    subst (λ x. (map (λ y. y.0) x ≡ a ∷ r) × All (IsRow now) x) same
      (ap (λ x. a ∷ x) starts, (build_activation-IsRow json config now run a b.0 b.1 made, rows))

-- Either activating steps starts nothing, or the store has taken the batch that ends with the rows
-- of the steps, a running attempt for each activation and in their order, and just these attempts
-- are started.
pub activate_steps-effects :
    (S : StateStore) (now : Timestamp) (run_id : Text) (json : SerdeJson) (config : SchedulerConfig)
    (run : RunRecord) (event : Event) (activations : List StepActivation) (t : Turn S.State)
    → ((activate_steps S now run_id json config run event activations t).1.effects ≡ t.effects)
      ⊎ ((built : Built) × (map (λ b. b.0) built ≡ activations)
          × All (IsRow now) built
          × ((S.apply now run_id (t.mutations ++ written now built) t.state).0 ≡ ok tt)
          × ((activate_steps S now run_id json config run event activations t).1.effects
              ≡ t.effects ++ map (λ b. spawn_step b.0 b.2) built))
unfolding activate_steps activated flush
activate_steps-effects S now run_id json config run event activations t =
    elim (Result-cases (build_activations json config now run activations)) [
      | inr (e, q) ↦ inl (rw q refl)
      | inl (built, q) ↦
          let ms = t.mutations ++ row_mutations now built in
          elim (Bool-cases (is_empty ms)) [
            | inl none_pending ↦
                let idle = nothing_built now t.mutations built none_pending in
                inl (rw (q, none_pending, idle) (append-nil t.effects))
            | inr pending ↦
                elim (after_apply-effects S now run_id (spawn_all built)
                  (record t { mutations = ms }) (S.apply now run_id ms t.state)) [
                    | inl kept ↦ inl (rw (q, pending) kept)
                    | inr (done, started) ↦
                        let (same, rows) =
                          build_activations-IsRow json config now run activations built q in
                        inr (
                          built,
                          same,
                          rows,
                          subst (λ ms. (S.apply now run_id (t.mutations ++ ms) t.state).0 ≡ ok tt)
                              (row_mutations-written now built) done,
                          rw (q, pending)
                              (started ∙ ap (λ es. t.effects ++ es) (spawn_all-map built)),
                        )
                  ]
          ]
    ]
