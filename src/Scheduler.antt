-- ===== src/Scheduler.antt =====
-- `RuntimeSessionScheduler` of fairyclaw/core/events/session_scheduler.py. What a method does while
-- it holds `state_lock` is one function on the scheduler. A wakeup that it decides on is published only
-- after the lock has been let go of: it is pending until `publish_pending` puts it on the bus.
-- `run_session` is given as what it does before and after the turn of the planner. The clock is an
-- argument. Of an event on the bus the session, the reason and the source are kept.
pub mod Flags
pub mod Watchdog
pub mod Runs
pub mod Turns
pub mod Tests
use mathlib.Core.List.{reverse}
use fairy_claw.Base.{
  ℕ, zero, suc, ◌+◌, ◌-◌, ltb, String, ◌≡◌, refl, Bool, true, false, not, ◌&&◌, ◌||◌, Option, none,
  some, List, [], ◌∷◌, ◌++◌, if◌then◌else◌, str_eq, nonempty, strip, contains, or_text, is_some,
}
use fairy_claw.Base.Dict.{Dict, get, put, remove}
use fairy_claw.Json
use fairy_claw.Json.{
  Json, Object, bool_or, truthy, filled_or, stripped_or, texts_of, unless_empty, raw_groups, text,
  filled_texts, arr,
}
use fairy_claw.Event.{
  EventType, user_message_received, subtask_completed, wakeup_requested, RuntimeEvent,
  RuntimeEventEnvelope, RuntimeEventType, event_type_value, SessionRuntimeState, new_state, touch,
  enqueue_event, consume_mailbox, has_mailbox_events, has_triggerable_mailbox_events,
}

-- A `wakeup_requested` event that the scheduler publishes.
pub record Wakeup : Type 0 where
  pub session_id : String
  pub reason : String
  pub source : String

-- `debounce_tasks` holds for each task whether it is done; `pending` are the wakeups that a method is
-- about to publish, with the lock let go of, and `published` those on the bus; `persisted` are the user texts that the
-- scheduler has written into a session's history.
pub record Scheduler : Type 0 where
  pub session_states : Dict SessionRuntimeState
  pub debounce_tasks : Dict Bool
  pub pending : List Wakeup
  pub published : List Wakeup
  pub persisted : List (String × String)

unfoldable pub get_or_create_state : Scheduler → String → ℕ → SessionRuntimeState
get_or_create_state sch s now = elim (get sch.session_states s) [
  | none ↦ new_state s now
  | some st ↦ st
]

put_state : Scheduler → String → SessionRuntimeState → Scheduler
put_state sch s st = record sch { session_states = put sch.session_states s st }

-- The publication that a method makes when it has let go of the lock is noted.
plan_wakeup : Scheduler → String → String → String → Scheduler
plan_wakeup sch s reason source = record sch {
  pending = sch.pending ++ record { session_id = s; reason = reason; source = source } ∷ [];
}

-- `self.bus.publish` of a wakeup.
publish_wakeup : Scheduler → Wakeup → Scheduler
publish_wakeup sch w = record sch { published = sch.published ++ w ∷ [] }

-- The wakeup at a place of a list, and the others.
take_out : ℕ → List Wakeup → Option (Wakeup × List Wakeup)
take_out n [] = none
take_out zero (w ∷ ws) = some (w, ws)
take_out (suc n) (w ∷ ws) = elim (take_out n ws) [
  | none ↦ none
  | some (v, rest) ↦ some (v, w ∷ rest)
]

-- One of the methods that are about to publish goes on and does it.
unfoldable pub publish_pending : Scheduler → ℕ → Scheduler
unfolding take_out publish_wakeup
publish_pending sch n = elim (take_out n sch.pending) [
  | none ↦ sch
  | some (w, rest) ↦ publish_wakeup (record sch { pending = rest }) w
]

-- The tests that keep `request_wakeup_if_needed` and the watchdog from publishing.
unfoldable pub needs_wakeup : SessionRuntimeState → Bool
needs_wakeup st =
    has_mailbox_events st
    && has_triggerable_mailbox_events st
    && not st.inflight
    && not st.wakeup_queued

unfoldable pub request_wakeup_if_needed : Scheduler → String → String → String → Scheduler
unfolding put_state plan_wakeup
request_wakeup_if_needed sch s reason source = elim (get sch.session_states s) [
  | none ↦ sch
  | some st ↦
      if needs_wakeup st
      then plan_wakeup (put_state sch s (record st { wakeup_queued = true })) s reason source
      else sch
]

-- `run_user_message_debounce` after its sleep, and its `finally`, which comes when the wakeup, if there
-- is one, has been published, for the task that stands in the table.
unfoldable pub run_user_message_debounce : Scheduler → String → Scheduler
run_user_message_debounce sch s = request_wakeup_if_needed sch s "user_message" "debounce_timer"

unfoldable pub end_debounce : Scheduler → String → Scheduler
end_debounce sch s = record sch { debounce_tasks = remove sch.debounce_tasks s }

-- `existing_task is not None and not existing_task.done()`
unfoldable pub has_active_debounce : Scheduler → String → Bool
has_active_debounce sch s = elim (get sch.debounce_tasks s) [ none ↦ false | some done ↦ not done ]

pub enqueue : Scheduler → RuntimeEvent → ℕ → Scheduler
unfolding put_state
enqueue sch e now =
    put_state sch e.session_id (enqueue_event (get_or_create_state sch e.session_id now) e now)

-- The text that a timer tick carries for the history, if writing it down succeeds.
persist_text : Scheduler → RuntimeEvent → Bool → Scheduler
persist_text sch e stored = elim (Json.get e.payload "internal_user_text") [
  | text t ↦
      if nonempty (strip t) && stored
      then record sch { persisted = sch.persisted ++ (e.session_id, strip t) ∷ [] }
      else sch
  | _ ↦ sch
]

unfoldable pub handle_user_message : Scheduler → RuntimeEvent → Bool → ℕ → Scheduler
unfolding enqueue persist_text
handle_user_message sch e stored now =
    let trigger_turn = bool_or (Json.get e.payload "trigger_turn") true in
    let queued = enqueue (persist_text sch e stored) e now in
    if trigger_turn && not (has_active_debounce queued e.session_id)
    then record queued { debounce_tasks = put queued.debounce_tasks e.session_id false }
    else queued

-- The request comes after the critical section, under the lock a second time.
unfoldable pub handle_subtask_completed : Scheduler → RuntimeEvent → ℕ → Scheduler
unfolding enqueue
handle_subtask_completed sch e now =
    let trigger_turn = bool_or (Json.get e.payload "trigger_turn") true in
    let queued = enqueue sch e now in
    if trigger_turn && not (has_active_debounce queued e.session_id)
    then request_wakeup_if_needed queued e.session_id "subtask_completed" "subtask_completed"
    else queued

-- The sources for which an empty mailbox means that there is nothing to do.
abbrev pub is_mailbox_source : String → Bool
is_mailbox_source source =
    str_eq source "event_bus"
    || str_eq source "heartbeat_watchdog"
    || str_eq source "debounce_timer"
    || str_eq source "subtask_completed"

-- The critical section that opens `run_session`, on the state of its session: the events that the
-- turn is to answer, if one starts.
begin_state :
    SessionRuntimeState → String → ℕ → SessionRuntimeState × Option (List RuntimeEventEnvelope)
begin_state st source now =
    let cleared = record st { wakeup_queued = false } in
    if st.inflight
    then (cleared, none)
    else if not (has_mailbox_events st) && is_mailbox_source source
    then (cleared, none)
    else if has_mailbox_events st && not (has_triggerable_mailbox_events st)
    then (touch cleared now, none)
    else (let (taken, events) = consume_mailbox (record cleared { inflight = true }) in
        (taken, some events))

-- `run_session` up to the turn.
unfoldable pub begin_session :
    Scheduler → String → String → ℕ → Scheduler × Option (List RuntimeEventEnvelope)
unfolding put_state begin_state
begin_session sch s source now = elim (get sch.session_states s) [
  | none ↦ (sch, none)
  | some st ↦ let (st', events) = begin_state st source now in (put_state sch s st', events)
]

-- The `finally` of `run_session`.
unfoldable pub finish_session : Scheduler → String → ℕ → Scheduler
unfolding put_state plan_wakeup
finish_session sch s now = elim (get sch.session_states s) [
  | none ↦ sch
  | some st ↦
      let idle = touch (record st { inflight = false }) now in
      if has_mailbox_events idle && has_triggerable_mailbox_events idle
      then if idle.wakeup_queued
        then put_state sch s idle
        else plan_wakeup (put_state sch s (record idle { wakeup_queued = true })) s "system"
            "event_bus"
      else if not (has_mailbox_events idle)
      then record sch { session_states = remove sch.session_states s }
      else put_state sch s idle
]

-- The loop of `heartbeat_watchdog` over the states: the states with their flags set, and the sessions woken.
watch : Dict SessionRuntimeState → Dict SessionRuntimeState × List Wakeup
watch [] = ([], [])
watch ((k, st) ∷ d) =
    let (d', ws) = watch d in
    if needs_wakeup st
    then (
      (k, record st { wakeup_queued = true }) ∷ d',
      record { session_id = st.session_id; reason = "system"; source = "heartbeat_watchdog" } ∷ ws,
    )
    else ((k, st) ∷ d', ws)

-- The critical section of a round.
unfoldable pub watch_section : Scheduler → Scheduler
unfolding watch
watch_section sch =
    let (states, woken) = watch sch.session_states in
    record sch { session_states = states; pending = sch.pending ++ woken }

publish_each : Scheduler → List Wakeup → Scheduler
publish_each sch [] = sch
publish_each sch (w ∷ ws) = publish_each (publish_wakeup sch w) ws

-- A whole round, where nothing else runs between its lock and the end of its loop of publications.
unfoldable pub heartbeat_watchdog : Scheduler → Scheduler
unfolding watch publish_each publish_wakeup
heartbeat_watchdog sch =
    let (states, woken) = watch sch.session_states in
    publish_each (record sch { session_states = states }) woken

-- One beat of `beat`.
unfoldable pub beat : Scheduler → String → ℕ → Scheduler
unfolding put_state
beat sch s now = put_state sch s (touch (get_or_create_state sch s now) now)
