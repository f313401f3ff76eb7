-- ===== src/Server/WireEvent.antt =====
-- The events that crates/flowspec-server/src/platform/client.rs sends to the platform.
use flowspec_devkitd.Base.{ℕ, Text, codes, Option, none, some}
use flowspec_devkitd.Json.{Value, null}
use flowspec_devkitd.Run.Types.{Timestamp}
use flowspec_devkitd.App.Mutations.{RunEventType, StoredRunEvent}

pub record WireEvent : Type 0 where
  pub event_type : Text
  pub step_id : Option Text
  pub timestamp : Timestamp
  pub sequence : ℕ
  pub payload : Option Value

event_type_str : RunEventType → Text
event_type_str RunEventType.run_started = codes "run_started"
event_type_str RunEventType.step_activated = codes "step_activated"
event_type_str RunEventType.step_started = codes "step_started"
event_type_str RunEventType.step_stream_delta = codes "step_stream_delta"
event_type_str RunEventType.step_completed = codes "step_completed"
event_type_str RunEventType.step_failed = codes "step_failed"
event_type_str RunEventType.step_waiting_approval = codes "step_waiting_approval"
event_type_str RunEventType.step_waiting_on_subflow = codes "step_waiting_on_subflow"
event_type_str RunEventType.approval_resolved = codes "approval_resolved"
event_type_str RunEventType.run_completed = codes "run_completed"
event_type_str RunEventType.run_failed = codes "run_failed"
event_type_str RunEventType.run_cancelled = codes "run_cancelled"

-- A payload that is null is left out.
abbrev payload_of : Value → Option Value
payload_of null = none
payload_of v = some v

unfoldable pub wire_event : StoredRunEvent → WireEvent
unfolding event_type_str
wire_event e = record {
  event_type = event_type_str e.event_type;
  step_id = e.step_id;
  timestamp = e.timestamp;
  sequence = e.sequence;
  payload = payload_of e.payload;
}
