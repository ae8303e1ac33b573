-- ===== src/Payload/Preferences.antt =====
-- What the preferences of a turn are, whatever the order in which the loop overwrites them; and the
-- payloads of the known event types.
use mathlib.Core.List.{reverse}
use fairy_claw.Base.{
  String, ◌≡◌, refl, Bool, false, ◌&&◌, Option, none, some, List, [], ◌∷◌, inl, inr, arith,
  Bool-cases, if◌then◌else◌, str_eq, eq_iff, strip, strip-strip,
}
use fairy_claw.Event.{
  RuntimeEvent, RuntimeEventEnvelope, event_type_value, from_runtime_event, normalize_trigger_turn,
  RuntimeEventType, known, custom, user_message_received, subtask_completed, wakeup_requested,
  file_upload_received, force_finish_requested,
}
use fairy_claw.Payload.{
  preferences_of, is_explicit, search, resolve_runtime_preferences, user_message_of, subtask_of,
  force_finish_of, payload_from_runtime_event, user_message, subtask, force_finish,
  RuntimeEventPayload, runtime_event_type_value,
}

-- A user message that says something about the turn.
abbrev speaks : RuntimeEventEnvelope → Bool
speaks e =
    str_eq (event_type_value e.event_type) "user_message_received" && is_explicit (preferences_of e)

-- The first such message of a list.
abbrev pub first_explicit : List RuntimeEventEnvelope → Option RuntimeEventEnvelope
first_explicit [] = none
first_explicit (e ∷ es) = if speaks e then some e else first_explicit es

abbrev pub said : Option RuntimeEventEnvelope → String × Option (List String)
said none = ("general", none)
said (some e) = preferences_of e

silent : (p : String × Option (List String)) → is_explicit p ≡ false → p ≡ ("general", none)
unfolding is_explicit
silent (task_type, none) h =
    let q : task_type ≡ "general" = (eq_iff task_type "general").0 (ground (arith, h)) in rw q refl
silent (task_type, some gs) h = absurd (ground (arith, h))

search-first :
    (es : List RuntimeEventEnvelope) → search ("general", none) es ≡ said (first_explicit es)
unfolding search
search-first [] = refl
search-first (e ∷ es) =
    elim (Bool-cases (str_eq (event_type_value e.event_type) "user_message_received")) [
      | inr n ↦ rw n (search-first es)
      | inl u ↦ elim (Bool-cases (is_explicit (preferences_of e))) [
        | inl x ↦ rw (u, x) refl
        | inr x ↦ rw (u, x) (rw (silent (preferences_of e) x) (search-first es))
      ]
    ]

-- The preferences of a turn are those of the newest consumed user message that names a task type
-- other than the default or any group; without such a message they are the default ones.
pub newest_preference_wins :
    (consumed : List RuntimeEventEnvelope)
    → resolve_runtime_preferences consumed ≡ said (first_explicit (reverse consumed))
unfolding resolve_runtime_preferences
newest_preference_wins consumed = search-first (reverse consumed)

strip-event_type_value :
    (e : RuntimeEvent) → strip (event_type_value e.type) ≡ event_type_value e.type
unfolding event_type_value strip
strip-event_type_value e = go e.type
  where
    go : (t : RuntimeEventType) → strip (event_type_value t) ≡ event_type_value t
    go (known user_message_received) = refl
    go (known subtask_completed) = refl
    go (known wakeup_requested) = refl
    go (known file_upload_received) = refl
    go (known force_finish_requested) = refl
    go (custom s) = strip-strip s

-- The `trigger_turn` of a typed payload that has one.
abbrev pub trigger_turn_of : RuntimeEventPayload → Option Bool
trigger_turn_of (user_message p) = some p.trigger_turn
trigger_turn_of (subtask p) = some p.trigger_turn
trigger_turn_of (force_finish p) = some p.trigger_turn
trigger_turn_of p = none

-- Whenever the typed payload of an event has a `trigger_turn`, it is that of the mailbox entry made
-- from the same event; and the preferences that the scheduler reads off that entry are the task type
-- and the groups of the event's user-message payload.
pub payload_agrees :
    (e : RuntimeEvent) (b : Bool)
    → trigger_turn_of (payload_from_runtime_event e) ≡ some b
    → (b ≡ (from_runtime_event e).trigger_turn)
      × (preferences_of (from_runtime_event e)
          ≡ ((user_message_of e).task_type, (user_message_of e).enabled_groups))
unfolding payload_from_runtime_event runtime_event_type_value from_runtime_event
    normalize_trigger_turn user_message_of subtask_of force_finish_of preferences_of
payload_agrees e b h = (ground (arith, h, strip-event_type_value e), refl)
