-- ===== src/Payload/Tests.antt =====
-- A mailbox with two user messages, the older of which names its groups.
use mathlib.Core.List.{reverse}
use fairy_claw.Base.{◌≡◌, refl, false, some, [], ◌∷◌, strip}
use fairy_claw.Json
use fairy_claw.Json.{end, field, text, bool, arr, cons, nil, Object, filled_texts, raw_groups}
use fairy_claw.Event.{
  RuntimeEvent, known, custom, user_message_received, wakeup_requested, file_upload_received,
  from_runtime_event, event_type_value,
}
use fairy_claw.Payload.{
  preferences_of, resolve_runtime_preferences, user_message_of, payload_from_runtime_event,
  runtime_event_type_value, meta_of, wakeup_of, file_upload_of, generic_of, wakeup, file_upload,
  generic,
}
use fairy_claw.Payload.Preferences.{
  first_explicit, said, trigger_turn_of, newest_preference_wins, payload_agrees,
}

abbrev message : Object → RuntimeEvent
message payload = record {
  type = known user_message_received;
  session_id = "s1";
  payload = payload;
  source = "gateway";
  id = "e1";
  timestamp = 5;
}

abbrev older : RuntimeEvent
older = message (field "enabled_groups" (arr (cons (text "web") (cons (text " ") nil))) end)

abbrev newer : RuntimeEvent
newer = message (field "trigger_turn" (bool false) end)

groups_are_found :
    resolve_runtime_preferences (from_runtime_event older ∷ from_runtime_event newer ∷ [])
    ≡ ("general", some ("web" ∷ []))
unfolding resolve_runtime_preferences event_type_value from_runtime_event Json.get raw_groups
    filled_texts strip
groups_are_found = refl

wakeup_is_parsed :
    payload_from_runtime_event (record newer { type = known wakeup_requested })
    ≡ wakeup (record { meta = meta_of newer; reason = "system" })
unfolding payload_from_runtime_event runtime_event_type_value strip event_type_value wakeup_of
    meta_of Json.get
wakeup_is_parsed = refl

file_is_parsed :
    payload_from_runtime_event
      (record newer { type = known file_upload_received; payload = field "file_id" (text "f") end })
    ≡ file_upload (record {
      meta = meta_of newer;
      file_id = "f";
      filename = "";
      mime_type = "application/octet-stream";
    })
unfolding payload_from_runtime_event runtime_event_type_value strip event_type_value file_upload_of
    meta_of Json.get
file_is_parsed = refl

custom_is_generic :
    payload_from_runtime_event (record newer { type = custom " ping "; payload = end })
    ≡ generic (record { meta = meta_of newer; event_type = "ping"; fields = end })
unfolding payload_from_runtime_event runtime_event_type_value strip event_type_value generic_of
    meta_of
custom_is_generic = refl

newest_preference_wins_example :
    resolve_runtime_preferences (from_runtime_event older ∷ from_runtime_event newer ∷ [])
    ≡ said (first_explicit (reverse (from_runtime_event older ∷ from_runtime_event newer ∷ [])))
newest_preference_wins_example =
    newest_preference_wins (from_runtime_event older ∷ from_runtime_event newer ∷ [])

newer_has_a_flag : trigger_turn_of (payload_from_runtime_event newer) ≡ some false
unfolding payload_from_runtime_event runtime_event_type_value strip event_type_value user_message_of
    Json.get
newer_has_a_flag = refl

payload_agrees_example :
    (false ≡ (from_runtime_event newer).trigger_turn)
    × (preferences_of (from_runtime_event newer)
        ≡ ((user_message_of newer).task_type, (user_message_of newer).enabled_groups))
payload_agrees_example = payload_agrees newer false newer_has_a_flag
