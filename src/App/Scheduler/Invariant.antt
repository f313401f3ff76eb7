-- ===== src/App/Scheduler/Invariant.antt =====
-- The scheduler writes to the store through batches only: what every batch keeps, a whole run of
-- events keeps.
use flowspec_devkitd.Base.{
  ℕ, zero, suc, Bool, true, false, Text, List, [], ◌∷◌, ◌++◌, Option, none, some, is_empty, Result,
  ok, err, ◌≡◌, inl, inr, Bool-cases, subst,
}
use flowspec_devkitd.Flow.Types.{SerdeJson}
use flowspec_devkitd.Run.Types.{Command, Event, RunPhase, StepStatus, EngineError, Timestamp}
use flowspec_devkitd.Run.Engine.{decide}
use flowspec_devkitd.App.Ports.{RunRecord, run_state}
use flowspec_devkitd.App.Mutations.{Mutation, RunEventType, StoreError}
use flowspec_devkitd.App.Store.{StateStore}
use flowspec_devkitd.App.Split.{HooksContinuation, split_at_hooks}
use flowspec_devkitd.App.Scheduler.Types.{SchedulerConfig, SchedulerError, Effect}
use flowspec_devkitd.App.Scheduler.Request.{build_activations}
use flowspec_devkitd.App.Scheduler.Events.{step_attempt}
use flowspec_devkitd.App.Scheduler.Commands.{
  Turn, Step, and_then_do, continue_by, flush, after_apply, activate_steps, activated, marked,
  waits, ended, spawn_all, row_mutations, start_child_run, mark_step, wait_approval, mark_run,
  terminal_event, execute_command, execute_all, execute_commands,
}
use flowspec_devkitd.App.Scheduler.Drive.{
  Outcome, finish, drive_commands, locked, decided, is_terminal_phase, run_locked_event, turn,
  submit_all, submit,
}

module _ (S : StateStore) (P : S.State → Type 0)
    (kept : (now : Timestamp) (id : Text) (ms : List Mutation) (s : S.State)
      → P s
      → P (S.apply now id ms s).1) where
  Keeps : Step S.State → Type 0
  Keeps f = (t : Turn S.State) → P t.state → P (f t).1.state

  continue_by-Keeps :
      (r : Result SchedulerError (Unit {0})) (g : Step S.State) → Keeps g → Keeps (continue_by r g)
  unfolding continue_by Keeps
  continue_by-Keeps (ok _) g h t p = h t p
  continue_by-Keeps (err e) g h t p = p

  and_then_do-Keeps : (f g : Step S.State) → Keeps f → Keeps g → Keeps (and_then_do f g)
  unfolding and_then_do Keeps
  and_then_do-Keeps f g hf hg t p = continue_by-Keeps (f t).0 g hg (f t).1 (hf t p)

  module _ (now : Timestamp) (run_id : Text) where
    after_apply-Keeps :
        (es : List Effect) (t : Turn S.State) (r : Result StoreError (Unit {0}) × S.State)
        → P r.1
        → P (after_apply S now run_id es t r).1.state
    unfolding after_apply
    after_apply-Keeps es t (err e, s) p = p
    after_apply-Keeps es t (ok _, s) p = p

    flush-Keeps : (es : List Effect) → Keeps (flush S now run_id es)
    unfolding flush Keeps
    flush-Keeps es t p = elim (Bool-cases (is_empty t.mutations)) [
      | inl e ↦ rw e p
      | inr e ↦ rw e (
          after_apply-Keeps es t (S.apply now run_id t.mutations t.state)
            (kept now run_id t.mutations t.state p))
    ]

    module _ (json : SerdeJson) (config : SchedulerConfig) (run : RunRecord) (event : Event) where
      activated-Keeps : (r : _) → Keeps (activated S now run_id json config run event r)
      unfolding activated Keeps
      activated-Keeps (err e) t p = p
      activated-Keeps (ok built) t p =
          flush-Keeps (spawn_all built)
            (record t { mutations = t.mutations ++ row_mutations now built }) p

      marked-Keeps :
          (id : Text) (status : StepStatus) (r : Result SchedulerError ℕ)
          → Keeps (marked S now run_id json config run event id status r)
      unfolding marked Keeps
      marked-Keeps id status (ok attempt) t p = p
      marked-Keeps id StepStatus.skipped (err e) t p = p
      marked-Keeps id status (err e) t p = p

      waits-Keeps :
          (id : Text) (r : Result SchedulerError ℕ)
          → Keeps (waits S now run_id json config run event id r)
      unfolding waits Keeps
      waits-Keeps id (ok attempt) t p = p
      waits-Keeps id (err e) t p = p

      ended-Keeps :
          (ph : RunPhase) (e : Option RunEventType)
          → Keeps (ended S now run_id json config run event ph e)
      unfolding ended Keeps
      ended-Keeps ph none t p = p
      ended-Keeps ph (some e) t p = p

      execute_command-Keeps :
          (c : Command) → Keeps (execute_command S now run_id json config run event c)
      unfolding execute_command activate_steps mark_step wait_approval mark_run start_child_run
          Keeps
      execute_command-Keeps (Command.activate_steps a) t p =
          activated-Keeps (build_activations json config now run a) t p
      execute_command-Keeps (Command.wait_approval id) t p =
          waits-Keeps id (step_attempt run id) t p
      execute_command-Keeps (Command.start_child_run id) t p = p
      execute_command-Keeps (Command.run_hooks at hooks) t p = p
      execute_command-Keeps (Command.cancel_steps ids) t p = p
      execute_command-Keeps (Command.mark_step_status id status) t p =
          marked-Keeps id status (step_attempt run id) t p
      execute_command-Keeps (Command.mark_run_terminal ph) t p =
          ended-Keeps ph (terminal_event ph) t p

      execute_all-Keeps :
          (cs : List Command) → Keeps (execute_all S now run_id json config run event cs)
      unfolding execute_all
      execute_all-Keeps [] = flush-Keeps []
      execute_all-Keeps (c ∷ cs) =
          and_then_do-Keeps (execute_command S now run_id json config run event c)
            (execute_all S now run_id json config run event cs) (execute_command-Keeps c)
            (execute_all-Keeps cs)

  module _ (json : SerdeJson) (config : SchedulerConfig) (now : Timestamp) (run_id : Text) where
    finish-Keeps :
        (event : Event) (rest : Option HooksContinuation)
        (r : Result SchedulerError (Unit {0}) × Turn S.State)
        → P r.1.state
        → P (finish S json config now run_id event rest r).state
    unfolding finish
    finish-Keeps event rest (err e, t) p = p
    finish-Keeps event none (ok _, t) p = p
    finish-Keeps event (some k) (ok _, t) p = p

    drive_commands-Keeps :
        (event : Event) (run : RunRecord) (commands : List Command) (s : S.State)
        → P s
        → P (drive_commands S json config now run_id event run commands s).state
    unfolding drive_commands execute_commands Keeps
    drive_commands-Keeps event run commands s p =
        let (pre, rest) = split_at_hooks commands in
        finish-Keeps event rest (execute_commands S now run_id json config run event pre s) (
          execute_all-Keeps now run_id json config run event pre
            (record { state = s; effects = []; mutations = []; follow_ons = [] }) p)

    decided-Keeps :
        (event : Event) (run : RunRecord) (r : Result EngineError (List Command)) (s : S.State)
        → P s
        → P (decided S json config now run_id event run r s).state
    unfolding decided
    decided-Keeps event run (err e) s p = p
    decided-Keeps event run (ok commands) s p = drive_commands-Keeps event run commands s p

    locked-Keeps :
        (r : Result StoreError RunRecord) (f : RunRecord → Outcome S.State) (s : S.State)
        → ((run : RunRecord) → P (f run).state)
        → P s
        → P (locked S json config now run_id r f s).state
    unfolding locked
    locked-Keeps (err e) f s h p = p
    locked-Keeps (ok run) f s h p = elim (Bool-cases (is_terminal_phase run.phase)) [
      | inl e ↦ rw e p
      | inr e ↦ rw e (h run)
    ]

    pub run_locked_event-Keeps :
        (event : Event) (s : S.State)
        → P s
        → P (run_locked_event S json config now run_id event s).state
    unfolding run_locked_event
    run_locked_event-Keeps event s p =
        locked-Keeps (S.load_run s run_id) _ s
          (λ run.
            decided-Keeps event run (decide json run.definition (run_state run) event now) s p)
          p

    turn-Keeps :
        (stopped : Bool) (event : Event) (s : S.State)
        → P s
        → P (turn S json config now run_id stopped event s).state
    unfolding turn
    turn-Keeps true event s p = p
    turn-Keeps false event s p = run_locked_event-Keeps event s p

    -- `submit_all` in whatever it returns.
    submit_all-Keeps :
        (shutdown : ℕ → Bool) (fuel : ℕ) (events : List Event) (s s' : S.State)
        (effects effects' : List Effect)
        → P s
        → submit_all S json config now run_id shutdown fuel events s effects ≡ some (s', effects')
        → P s'
    unfolding submit_all
    submit_all-Keeps shutdown fuel [] s s' effects effects' p h =
        let same : s ≡ s' = cc in subst P same p
    submit_all-Keeps shutdown zero (e ∷ rest) s s' effects effects' p h = cc
    submit_all-Keeps shutdown (suc fuel) (e ∷ rest) s s' effects effects' p h =
        submit_all-Keeps shutdown fuel _ _ s' _ effects' (turn-Keeps (shutdown fuel) e s p) h

    -- A property of the store that every batch keeps holds again after an event and all that
    -- follows from it, wherever that ends.
    pub submit-Keeps :
        (shutdown : ℕ → Bool) (fuel : ℕ) (event : Event) (s s' : S.State) (effects : List Effect)
        → P s
        → submit S json config now run_id shutdown fuel event s ≡ some (s', effects)
        → P s'
    unfolding submit
    submit-Keeps shutdown fuel event s s' effects p h =
        submit_all-Keeps shutdown fuel (event ∷ []) s s' [] effects p h
