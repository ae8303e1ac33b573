-- ===== src/Event.antt =====
-- The events of fairyclaw/core/events/bus.py, with `normalize_trigger_turn` of
-- fairyclaw/core/events/payloads.py.
use fairy_claw.Base.{
  ℕ, String, Bool, false, ◌||◌, List, [], ◌∷◌, ◌++◌, str_eq, strip, any, not_empty,
}
use fairy_claw.Json
use fairy_claw.Json.{Json, Object, bool, num, text, bool_or, truthy}

pub data EventType : Type 0 where
  user_message_received subtask_completed wakeup_requested file_upload_received : EventType
  force_finish_requested : EventType

abbrev pub value : EventType → String
value user_message_received = "user_message_received"
value subtask_completed = "subtask_completed"
value wakeup_requested = "wakeup_requested"
value file_upload_received = "file_upload_received"
value force_finish_requested = "force_finish_requested"

-- `RuntimeEventType`: a member of the enumeration, or the name of a custom event.
pub data RuntimeEventType : Type 0 where
  known : EventType → RuntimeEventType
  custom : String → RuntimeEventType

unfoldable pub event_type_value : RuntimeEventType → String
event_type_value (known t) = value t
event_type_value (custom s) = strip s

pub record RuntimeEvent : Type 0 where
  pub type : RuntimeEventType
  pub session_id : String
  pub payload : Object
  pub source : String
  pub id : String
  pub timestamp : ℕ

-- The payload's flag if it is a Boolean, and otherwise the default of the event's type.
unfoldable pub normalize_trigger_turn : String → Object → Bool
normalize_trigger_turn event_type payload =
    bool_or (Json.get payload "trigger_turn")
      (str_eq event_type "user_message_received" || str_eq event_type "subtask_completed")

pub record RuntimeEventEnvelope : Type 0 where
  pub event_id : String
  pub event_type : RuntimeEventType
  pub payload : Object
  pub source : String
  pub timestamp : ℕ
  pub trigger_turn : Bool

unfoldable pub from_runtime_event : RuntimeEvent → RuntimeEventEnvelope
from_runtime_event e = record {
  event_id = e.id;
  event_type = e.type;
  payload = e.payload;
  source = e.source;
  timestamp = e.timestamp;
  trigger_turn = normalize_trigger_turn (event_type_value e.type) e.payload;
}

pub record SessionRuntimeState : Type 0 where
  pub session_id : String
  pub inflight : Bool
  pub wakeup_queued : Bool
  pub heartbeat_at : ℕ
  pub mailbox : List RuntimeEventEnvelope

-- `SessionRuntimeState(session_id=…)`, made at a time.
abbrev pub new_state : String → ℕ → SessionRuntimeState
new_state session_id now = record {
  session_id = session_id;
  inflight = false;
  wakeup_queued = false;
  heartbeat_at = now;
  mailbox = [];
}

unfoldable pub touch : SessionRuntimeState → ℕ → SessionRuntimeState
touch s now = record s { heartbeat_at = now }

unfoldable pub enqueue_event : SessionRuntimeState → RuntimeEvent → ℕ → SessionRuntimeState
unfolding touch
enqueue_event s e now = touch (record s { mailbox = s.mailbox ++ from_runtime_event e ∷ [] }) now

-- The consumed events, and the state with an empty mailbox.
unfoldable pub consume_mailbox :
    SessionRuntimeState → SessionRuntimeState × List RuntimeEventEnvelope
consume_mailbox s = (record s { mailbox = [] }, s.mailbox)

unfoldable pub has_mailbox_events : SessionRuntimeState → Bool
has_mailbox_events s = not_empty s.mailbox

unfoldable pub has_triggerable_mailbox_events : SessionRuntimeState → Bool
has_triggerable_mailbox_events s = any (λ item. item.trigger_turn) s.mailbox
