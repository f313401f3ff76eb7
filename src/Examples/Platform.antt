-- ===== src/Examples/Platform.antt =====
-- The platform delivers the start of the sample flow twice; the scheduler takes the events of the
-- run.
use mathlib.Core.Option
use mathlib.Core.Option.{get_or}
use flowspec_devkitd.Base.{
  ◌≡◌, refl, subst, sym, false, Text, codes, List, [], Option, none, some, returns, ◌==◌,
  Option-cases, inl, inr, ap, Partial, ◌∙◌,
}
use flowspec_devkitd.Base.Map.{get, insert}
use flowspec_devkitd.Base.Strings.{join, strip_prefix, trim, split_once}
use flowspec_devkitd.Flow.Types.{kind, FlowDefinition}
use flowspec_devkitd.Run.Engine.{
  decide, activate_targets, activate_target, needs_satisfied, activate_step, resolve_input,
}
use flowspec_devkitd.Flow.Dag.{entry_steps, steps_with_incoming_edges}
use flowspec_devkitd.Template.{resolve, whole_span, resolve_value}
use flowspec_devkitd.App.Scheduler.Request.{
  build_activations, build_step_request, request_fields, step_timeout,
}
use flowspec_devkitd.Flow.Schema.{parse_duration}
use flowspec_devkitd.Json.{null}
use flowspec_devkitd.Flow.Types.{FlowFile}
use flowspec_devkitd.Run.Types.{Event}
use flowspec_devkitd.App.Store.Memory.{
  MemoryStore, empty, find_by_idempotency_key, create_run, apply, load_run,
}
use flowspec_devkitd.App.Store.Memory.Atomic.{memory_store}
use flowspec_devkitd.App.Store.Memory.Keys.{apply-find}
use flowspec_devkitd.App.Scheduler.Types.{Effect, default_config}
use flowspec_devkitd.App.Scheduler.Drive.{submit}
use flowspec_devkitd.App.Scheduler.Invariant.{submit-Keeps}
use flowspec_devkitd.App.UseCases.{Submit}
use flowspec_devkitd.App.UseCases.StartFlow.Keys.{Finds}
use flowspec_devkitd.Server.Poller.{
  Action, Payloads, TriggerRunPayload, Reply, ack, handle_action, start_document, trigger_payload,
  trigger_known, known_run, parse_and_validate_flow_doc, first_valid,
}
use flowspec_devkitd.Server.Poller.Laws.{handle_action-redelivered}
use flowspec_devkitd.Examples.{release, sample_json}
use flowspec_devkitd.Examples.Rules.{same_order, release-accepted}

-- The scheduler, with fuel for one turn.
abbrev scheduled : Submit memory_store
scheduled id event s =
    (get_or (submit memory_store sample_json default_config 5 id (λ _. false) 1 event s) (s, [])).0

scheduled-Finds :
    (id : Text) (event : Event) (s : MemoryStore) (key found : Text)
    → Finds key found s
    → Finds key found (scheduled id event s)
scheduled-Finds id event s key found p =
    elim (Option-cases
      (submit memory_store sample_json default_config 5 id (λ _. false) 1 event s)) [
        | inl q ↦
            subst (λ (o : Option (MemoryStore × List Effect)). Finds key found (get_or o (s, [])).0)
              (sym q) p
        | inr (out, q) ↦
            subst (λ (o : Option (MemoryStore × List Effect)). Finds key found (get_or o (s, [])).0)
              (sym q)
              (submit-Keeps memory_store (Finds key found)
                (λ now run ms t h. apply-find now run ms t key ∙ h) sample_json default_config 5 id
                (λ _. false) 1 event s out.0 out.1 p q)
      ]

abbrev sample_payloads : Payloads
sample_payloads = record {
  trigger_run = λ v. some (record { run_id = codes "7"; flow_doc = null; inputs = null });
  approve_reject = λ v. none;
  flow_file = λ v. some (FlowFile.single release);
}

abbrev trigger_action : Action
trigger_action = record {
  id = codes "a1";
  run_id = codes "7";
  kind = codes "trigger_run";
  payload = null;
}

abbrev sample_trigger : TriggerRunPayload
sample_trigger = record { run_id = codes "7"; flow_doc = null; inputs = null }

-- What the first delivery leaves, once the document is found valid.
abbrev first_delivery : Partial (Option FlowDefinition) → Partial Reply × MemoryStore
first_delivery document =
    start_document sample_json same_order sample_payloads memory_store scheduled 5 (codes "run-1")
      sample_trigger document empty

abbrev after_first : MemoryStore
after_first = (first_delivery (returns (some release))).1

document-valid :
    parse_and_validate_flow_doc sample_json same_order sample_payloads null ≡ returns (some release)
unfolding parse_and_validate_flow_doc first_valid
document-valid = rw release-accepted refl

delivered :
    handle_action sample_json same_order sample_payloads memory_store scheduled 5
      (codes "run-1")
      trigger_action
      empty
    ≡ first_delivery (returns (some release))
unfolding handle_action trigger_payload trigger_known known_run ◌==◌ empty find_by_idempotency_key
delivered = ap first_delivery document-valid

answered :
    first_delivery (returns (some release)) ≡ (returns (ack (some (codes "run-1"))), after_first)
unfolding start_document ◌==◌ empty find_by_idempotency_key get insert create_run join submit apply
    load_run decide activate_targets entry_steps steps_with_incoming_edges activate_target
    needs_satisfied activate_step kind resolve_input resolve whole_span Option.bind strip_prefix
    trim split_once build_activations build_step_request resolve_value request_fields step_timeout
    parse_duration
answered = refl

handle_action-redelivered_example :
    handle_action sample_json same_order sample_payloads memory_store scheduled 9
      (codes "run-2")
      trigger_action
      after_first
    ≡ (returns (ack (some (codes "run-1"))), after_first)
unfolding ◌==◌
handle_action-redelivered_example =
    handle_action-redelivered sample_json same_order sample_payloads scheduled 5 9 (codes "run-1")
      (codes "run-2") trigger_action empty after_first (codes "run-1") scheduled-Finds refl
      (delivered ∙ answered)
