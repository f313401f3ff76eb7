-- ===== src/Examples/Scheduler.antt =====
-- The theorems on the scheduler, at a store with one run.
use flowspec_devkitd.Template.{resolve_value, build_context}
use flowspec_devkitd.Base.Map.{get}
use flowspec_devkitd.Base.Utf8.{utf8_length}
use flowspec_devkitd.Base.Decimal.{print_nat}
use flowspec_devkitd.Base.{
  ◌*◌, ◌≤◌, ◌≡◌, ◌≢◌, refl, true, false, codes, Text, List, [], ◌∷◌, ◌++◌, map, All, length, Result,
  ok, err, ◌⊎◌, returns, panics, ◌==◌,
}
use flowspec_devkitd.Json.{Value, null, string, object, end}
use flowspec_devkitd.Run.Types.{Event, HookPhase, RunPhase, StepActivation}
use flowspec_devkitd.App.Ports.{RunRecord, run_state}
use flowspec_devkitd.App.Mutations.{HookRunRecord}
use flowspec_devkitd.App.Wire.{DevkitdError, summarize_output, output_text}
use flowspec_devkitd.App.Wire.Summary.{summarize_output-bound}
use flowspec_devkitd.App.Store.Memory.{MemoryStore, load_run, list_hook_runs}
use flowspec_devkitd.App.Store.Memory.Atomic.{memory_store, memory_store-IsAtomic}
use flowspec_devkitd.App.Scheduler.Types.{default_config, spawn_step}
use flowspec_devkitd.App.Scheduler.Request.{set_fields}
use flowspec_devkitd.App.Scheduler.Commands.{Turn, activate_steps}
use flowspec_devkitd.App.Scheduler.Durable.{Built, IsRow, written, activate_steps-effects}
use flowspec_devkitd.App.Scheduler.Hooks.{Answer, HookRun, hook_batch, run_hook}
use flowspec_devkitd.App.Scheduler.Hooks.Laws.{
  FailsAt, Overflows, hook_batch-fails, run_hook-row, row_status,
}
use flowspec_devkitd.Examples.{sample_json, plan_id, notify_hook}
use flowspec_devkitd.Examples.Stored.{sample_id, keyed_run, quiet_store}

summarize_output-bound_example :
    ((summarize_output sample_json (string (codes "abc")) 2).bytes
      ≡ utf8_length (output_text sample_json (string (codes "abc"))))
    × (length (output_text sample_json (string (codes "abc")))
        ≤ (summarize_output sample_json (string (codes "abc")) 2).bytes)
    × ((summarize_output sample_json (string (codes "abc")) 2).bytes
        ≤ 4 * length (output_text sample_json (string (codes "abc"))))
    × (((summarize_output sample_json (string (codes "abc")) 2).truncated ≡ false)
          × ((summarize_output sample_json (string (codes "abc")) 2).text
              ≡ output_text sample_json (string (codes "abc")))
          × (length (output_text sample_json (string (codes "abc"))) ≤ 2)
        ⊎ ((summarize_output sample_json (string (codes "abc")) 2).truncated ≡ true)
          × (shown : Text) × (rest : Text) × (output_text sample_json (string (codes "abc"))
              ≡ shown ++ rest)
          × (length shown ≡ 2)
          × (rest ≢ [])
          × ((summarize_output sample_json (string (codes "abc")) 2).text
              ≡ shown
                ++ (codes "…[truncated, "
                    ++ (print_nat (utf8_length (output_text sample_json (string (codes "abc"))))
                        ++ codes " bytes total; use get_step_output]"))))
summarize_output-bound_example = summarize_output-bound sample_json (string (codes "abc")) 2

-- The run has been cancelled when a step reports its output and a hook its end.
abbrev ended_run : RunRecord
ended_run = record keyed_run { phase = RunPhase.cancelled }

abbrev ended_store : MemoryStore
ended_store = record quiet_store { runs = (sample_id, ended_run) ∷ [] }

abbrev late_event : Event
late_event = Event.step_completed plan_id (string (codes "done"))

-- A hook that gates the run, and cannot be started.
abbrev gate : HookRun
gate = record {
  phase = HookPhase.before_run;
  hook = record notify_hook { always_continue = false };
  started_at = 2;
  waited_at = 2;
  completed_at = 3;
}

abbrev timed_out : Answer
timed_out = record { start = err DevkitdError.timeout; wait = ok null }

abbrev second_gate : HookRun
second_gate = record gate { hook = record notify_hook { hook = codes "check" } }

hook_batch-fails_example :
    FailsAt memory_store sample_json sample_id
      ((gate, timed_out) ∷ (second_gate, timed_out) ∷ [])
      quiet_store
      (hook_batch memory_store sample_json sample_id
        ((gate, timed_out) ∷ (second_gate, timed_out) ∷ [])
        quiet_store).1
      (codes "notify")
      (codes "timeout")
unfolding hook_batch load_run get ◌==◌ resolve_value
hook_batch-fails_example =
    hook_batch-fails memory_store sample_json sample_id
      ((gate, timed_out) ∷ (second_gate, timed_out) ∷ []) quiet_store
      (hook_batch memory_store sample_json sample_id
        ((gate, timed_out) ∷ (second_gate, timed_out) ∷ []) quiet_store).1
      (codes "notify") (codes "timeout") refl

run_hook-row_example :
    ((run_hook memory_store sample_json sample_id gate timed_out quiet_store
        ≡ (panics, quiet_store))
      × (args : Value) × (resolve_value sample_json
            (build_context keyed_run.definition (run_state keyed_run) null)
            (codes "notify")
            (object (set_fields end gate.hook.args))
          ≡ ok args)
      × Overflows gate timed_out)
    ⊎ ((result : Result DevkitdError Value) × (row : HookRunRecord) × ((run_hook memory_store
            sample_json sample_id gate timed_out quiet_store).0
          ≡ returns result)
        × (row.hook ≡ codes "notify")
        × (row.status ≡ row_status result)
        × (memory_store.list_hook_runs
              (run_hook memory_store sample_json sample_id gate timed_out quiet_store).1
              sample_id
            ≡ ok (row ∷ [])))
unfolding load_run get ◌==◌ list_hook_runs
run_hook-row_example =
    run_hook-row memory_store sample_json sample_id gate timed_out quiet_store keyed_run []
      memory_store-IsAtomic refl refl

abbrev first_plan : List StepActivation
first_plan = record { step_id = plan_id; attempt = 1; input = codes "plan it" } ∷ []

abbrev fresh_turn : Turn MemoryStore
fresh_turn = record { state = quiet_store; effects = []; mutations = []; follow_ons = [] }

activate_steps-effects_example :
    ((activate_steps memory_store 4 sample_id sample_json default_config keyed_run Event.run_started
        first_plan fresh_turn).1.effects
      ≡ [])
    ⊎ ((built : Built) × (map (λ b. b.0) built ≡ first_plan)
        × All (IsRow 4) built
        × ((memory_store.apply 4 sample_id ([] ++ written 4 built) quiet_store).0 ≡ ok tt)
        × ((activate_steps memory_store 4 sample_id sample_json default_config keyed_run
              Event.run_started first_plan fresh_turn).1.effects
            ≡ [] ++ map (λ b. spawn_step b.0 b.2) built))
activate_steps-effects_example =
    activate_steps-effects memory_store 4 sample_id sample_json default_config keyed_run
      Event.run_started first_plan fresh_turn
