-- ===== src/Scheduler/Tests.antt =====
-- A session of the scheduler from a user message to its turn.
use fairy_claw.Base.{◌+◌, ◌≤◌, ◌<◌, ◌≡◌, refl, arith, true, ◌⊎◌, [], ◌∷◌, if◌then◌else◌}
use fairy_claw.Base.Dict.{get, put}
use fairy_claw.Json.{end, field, bool}
use fairy_claw.Event.{
  RuntimeEvent, known, user_message_received, SessionRuntimeState, new_state, enqueue_event,
  from_runtime_event, event_type_value, normalize_trigger_turn, has_mailbox_events,
  has_triggerable_mailbox_events,
}
use fairy_claw.Scheduler.{
  Scheduler, handle_user_message, get_or_create_state, run_user_message_debounce,
  request_wakeup_if_needed, heartbeat_watchdog, publish_pending, needs_wakeup, has_active_debounce,
}
use fairy_claw.Scheduler.Flags.{occurrences, wakeups, flagged, busy}
use fairy_claw.Scheduler.Runs.{
  System, initial, wake, user_message, debounce, publishes, wakes, Reach, begin, next,
}
use fairy_claw.Scheduler.Turns.{one_turn_per_session, queued_flag_has_wakeup}
use fairy_claw.Scheduler.Watchdog.{watchdog_wakes}

abbrev hello : RuntimeEvent
hello = record {
  type = known user_message_received;
  session_id = "s1";
  payload = end;
  source = "gateway";
  id = "e1";
  timestamp = 5;
}

abbrev told : System
told = record initial { sch = handle_user_message initial.sch hello true 6 }

abbrev flagged_system : System
flagged_system = record told { sch = run_user_message_debounce told.sch "s1" }

abbrev published_system : System
published_system = record flagged_system { sch = publish_pending flagged_system.sch 0 }

abbrev in_turn : System
in_turn = record (wake published_system "s1" "debounce_timer" 8) {
  handled = "s1" ∷ published_system.handled;
}

flagged_reached : Reach flagged_system
flagged_reached = next (next begin (user_message hello true 6)) (debounce "s1")

flag_is_up : flagged (get flagged_system.sch.session_states "s1") ≡ true
unfolding handle_user_message run_user_message_debounce request_wakeup_if_needed get
    fairy_claw.Json.get has_active_debounce put needs_wakeup has_mailbox_events enqueue_event
    get_or_create_state has_triggerable_mailbox_events from_runtime_event normalize_trigger_turn
    event_type_value
flag_is_up = refl

wakeup_is_there : 0 < wakeups "s1" published_system.sch.published
unfolding publish_pending handle_user_message run_user_message_debounce request_wakeup_if_needed get
    fairy_claw.Json.get has_active_debounce put needs_wakeup has_mailbox_events enqueue_event
    get_or_create_state has_triggerable_mailbox_events from_runtime_event normalize_trigger_turn
    event_type_value
wakeup_is_there = omega arith

in_turn_reached : Reach in_turn
in_turn_reached =
    next (next flagged_reached (publishes 0)) (wakes "s1" "debounce_timer" 8 wakeup_is_there)

one_turn_per_session_example :
    (occurrences "s1" in_turn.started
      ≡ occurrences "s1" in_turn.ended
        + (if busy (get in_turn.sch.session_states "s1") then 1 else 0))
    × (occurrences "s1" in_turn.started ≤ occurrences "s1" in_turn.ended + 1)
one_turn_per_session_example = one_turn_per_session "s1" in_turn_reached

queued_flag_has_wakeup_example :
    occurrences "s1" flagged_system.handled
    < wakeups "s1" flagged_system.sch.published + wakeups "s1" flagged_system.sch.pending
queued_flag_has_wakeup_example = queued_flag_has_wakeup "s1" flagged_reached flag_is_up

-- A state whose debounce timer never ran.
abbrev waiting_state : SessionRuntimeState
waiting_state = enqueue_event (new_state "s1" 4) hello 5

abbrev waiting_scheduler : Scheduler
waiting_scheduler = record initial.sch { session_states = ("s1", waiting_state) ∷ [] }

watchdog_wakes_example :
    let sch' = heartbeat_watchdog waiting_scheduler in
    ((waiting_state.inflight ≡ true) ⊎ (flagged (get sch'.session_states "s1") ≡ true))
    × (needs_wakeup waiting_state ≡ true
        → wakeups "s1" waiting_scheduler.published < wakeups "s1" sch'.published)
    × (heartbeat_watchdog sch' ≡ sch')
unfolding enqueue_event get has_mailbox_events has_triggerable_mailbox_events from_runtime_event
    normalize_trigger_turn event_type_value fairy_claw.Json.get
watchdog_wakes_example =
    watchdog_wakes waiting_scheduler "s1" waiting_state (refl, tt) refl refl refl
