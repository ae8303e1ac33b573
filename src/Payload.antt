-- ===== src/Payload.antt =====
-- fairyclaw/core/events/payloads.py: what the handlers and hooks read out of an event's payload, with
-- `resolve_runtime_preferences` of fairyclaw/core/events/session_scheduler.py, which reads the same
-- keys off the consumed events of a mailbox.
pub mod Preferences
pub mod Tests
use mathlib.Core.List.{reverse}
use fairy_claw.Base.{
  ℕ, String, Bool, true, false, not, ◌||◌, Option, none, some, List, [], ◌∷◌, if◌then◌else◌, str_eq,
  nonempty, strip, is_some,
}
use fairy_claw.Json
use fairy_claw.Json.{
  Json, Object, text, obj, bool_or, filled_or, filled, stripped_or, texts_of, unless_empty,
  raw_groups, filled_texts,
}
use fairy_claw.Event.{RuntimeEvent, RuntimeEventEnvelope, event_type_value}

-- `EventPayloadBase`
pub record EventMeta : Type 0 where
  pub session_id : String
  pub event_id : String
  pub source : String
  pub timestamp_ms : ℕ

unfoldable pub meta_of : RuntimeEvent → EventMeta
meta_of e = record {
  session_id = e.session_id;
  event_id = e.id;
  source = e.source;
  timestamp_ms = e.timestamp;
}

pub record UserMessagePayload : Type 0 where
  pub meta : EventMeta
  pub trigger_turn : Bool
  pub task_type : String
  pub enabled_groups : Option (List String)

unfoldable pub user_message_of : RuntimeEvent → UserMessagePayload
user_message_of e = record {
  meta = meta_of e;
  trigger_turn = bool_or (Json.get e.payload "trigger_turn") true;
  task_type = stripped_or (Json.get e.payload "task_type") "general";
  enabled_groups = unless_empty (texts_of (raw_groups e.payload));
}

pub record WakeupPayload : Type 0 where
  pub meta : EventMeta
  pub reason : String

unfoldable pub wakeup_of : RuntimeEvent → WakeupPayload
wakeup_of e = record { meta = meta_of e; reason = filled_or (Json.get e.payload "reason") "system" }

-- `value if isinstance(value, dict) else None`
abbrev dict_of : Json → Option Object
dict_of (obj o) = some o
dict_of v = none

pub record SubtaskPayload : Type 0 where
  pub meta : EventMeta
  pub trigger_turn : Bool
  pub sub_session_id : Option String
  pub aggregated : Option Object
  pub status : Option String
  pub immediate : Bool

unfoldable pub subtask_of : RuntimeEvent → SubtaskPayload
subtask_of e = record {
  meta = meta_of e;
  trigger_turn = bool_or (Json.get e.payload "trigger_turn") true;
  sub_session_id = filled (Json.get e.payload "sub_session_id");
  aggregated = dict_of (Json.get e.payload "aggregated");
  status = filled (Json.get e.payload "status");
  immediate = bool_or (Json.get e.payload "immediate") false;
}

-- `value if isinstance(value, str) else ""`
abbrev text_of : Json → String
text_of (text s) = s
text_of v = ""

pub record FileUploadPayload : Type 0 where
  pub meta : EventMeta
  pub file_id : String
  pub filename : String
  pub mime_type : String

unfoldable pub file_upload_of : RuntimeEvent → FileUploadPayload
file_upload_of e = record {
  meta = meta_of e;
  file_id = text_of (Json.get e.payload "file_id");
  filename = text_of (Json.get e.payload "filename");
  mime_type = filled_or (Json.get e.payload "mime_type") "application/octet-stream";
}

pub record ForceFinishPayload : Type 0 where
  pub meta : EventMeta
  pub trigger_turn : Bool
  pub reason : Option String
  pub stage : Option String
  pub turn_id : Option String
  pub task_type : Option String
  pub enabled_groups : Option (List String)
  pub is_sub_session : Bool
  pub details : Option Object

unfoldable pub force_finish_of : RuntimeEvent → ForceFinishPayload
force_finish_of e = record {
  meta = meta_of e;
  trigger_turn = bool_or (Json.get e.payload "trigger_turn") false;
  reason = filled (Json.get e.payload "reason");
  stage = filled (Json.get e.payload "stage");
  turn_id = filled (Json.get e.payload "turn_id");
  task_type = filled (Json.get e.payload "task_type");
  enabled_groups = texts_of (Json.get e.payload "enabled_groups");
  is_sub_session = bool_or (Json.get e.payload "is_sub_session") false;
  details = dict_of (Json.get e.payload "details");
}

-- `data` is called `fields` here.
pub record GenericPayload : Type 0 where
  pub meta : EventMeta
  pub event_type : String
  pub fields : Object

-- `str(value or "").strip()` of the type: a member of the enumeration has a name without spaces.
unfoldable pub runtime_event_type_value : RuntimeEvent → String
runtime_event_type_value e = strip (event_type_value e.type)

unfoldable pub generic_of : RuntimeEvent → GenericPayload
unfolding runtime_event_type_value
generic_of e = record {
  meta = meta_of e;
  event_type = runtime_event_type_value e;
  fields = e.payload;
}

pub data RuntimeEventPayload : Type 0 where
  user_message : UserMessagePayload → RuntimeEventPayload
  subtask : SubtaskPayload → RuntimeEventPayload
  wakeup : WakeupPayload → RuntimeEventPayload
  file_upload : FileUploadPayload → RuntimeEventPayload
  force_finish : ForceFinishPayload → RuntimeEventPayload
  generic : GenericPayload → RuntimeEventPayload

unfoldable pub payload_from_runtime_event : RuntimeEvent → RuntimeEventPayload
payload_from_runtime_event e =
    let event_type = runtime_event_type_value e in
    if str_eq event_type "user_message_received"
    then user_message (user_message_of e)
    else if str_eq event_type "subtask_completed"
    then subtask (subtask_of e)
    else if str_eq event_type "wakeup_requested"
    then wakeup (wakeup_of e)
    else if str_eq event_type "file_upload_received"
    then file_upload (file_upload_of e)
    else if str_eq event_type "force_finish_requested"
    then force_finish (force_finish_of e)
    else generic (generic_of e)

-- One turn of the loop of `resolve_runtime_preferences` on an event, newest first.
pub preferences_of : RuntimeEventEnvelope → String × Option (List String)
preferences_of e = (
  stripped_or (Json.get e.payload "task_type") "general",
  unless_empty (texts_of (raw_groups e.payload)),
)

pub is_explicit : String × Option (List String) → Bool
is_explicit (task_type, groups) = not (str_eq task_type "general") || is_some groups

-- The loop: what it holds when it ends, from what it holds so far.
search : String × Option (List String) → List RuntimeEventEnvelope → String × Option (List String)
unfolding preferences_of is_explicit
search held [] = held
search held (e ∷ es) =
    let rest = search held es in
    let later = search (preferences_of e) es in
    if not (str_eq (event_type_value e.event_type) "user_message_received")
    then rest
    else if is_explicit (preferences_of e)
    then preferences_of e
    else later

unfoldable pub resolve_runtime_preferences :
    List RuntimeEventEnvelope → String × Option (List String)
unfolding search
resolve_runtime_preferences consumed = search ("general", none) (reverse consumed)
