-- ===== src/Bus/Tests.antt =====
-- A bus with two workers that has two events of one session, the first in the hands of a worker.
use fairy_claw.Base.{◌+◌, ◌≤◌, String, ◌≡◌, refl, [], ◌∷◌, ◌++◌, some, true, get_elem?, not_empty}
use fairy_claw.Base.Dict.{get, put, add}
use fairy_claw.Json.{end}
use fairy_claw.Event.{RuntimeEvent, known, user_message_received}
use fairy_claw.Bus.{
  Bus, waiting, holding, dispatching, start, publish, pop_next_event, put_worker, got, queue_of,
  publishes, takes, pops,
}
use fairy_claw.Bus.Schedule.{
  Reach, begin, next, held, occurrences, owns, one_worker_per_session, queued_session_is_scheduled,
}
use fairy_claw.Bus.Order.{Trace, quiet, step, events_of, in_flight, events_in_order}

abbrev message : String → RuntimeEvent
message id = record {
  type = known user_message_received;
  session_id = "s1";
  payload = end;
  source = "gateway";
  id = id;
  timestamp = 7;
}

abbrev published_bus : Bus
published_bus = publish (publish (start 2) (message "a")) (message "b")

abbrev taken_bus : Bus
taken_bus = put_worker (record published_bus { ready_sessions = [] }) 0 (holding "s1")

abbrev busy_bus : Bus
busy_bus = got (pop_next_event taken_bus "s1") 0 "s1"

run : Trace 2 busy_bus (message "a" ∷ message "b" ∷ []) []
unfolding start publish pop_next_event get put add
run =
    step
      (step (step (step quiet (publishes (message "a"))) (publishes (message "b")))
        (takes 0 "s1" [] refl refl))
      (pops 0 "s1" refl)

reached : Reach 2 busy_bus
unfolding start publish pop_next_event get put add
reached =
    next
      (next (next (next begin (publishes (message "a"))) (publishes (message "b")))
        (takes 0 "s1" [] refl refl))
      (pops 0 "s1" refl)

first_is_dispatched : get_elem? busy_bus.workers 0 ≡ some (dispatching "s1" (message "a"))
unfolding start publish pop_next_event get put add
first_is_dispatched = refl

second_is_free : get_elem? busy_bus.workers 1 ≡ some waiting
unfolding start publish pop_next_event get put add
second_is_free = refl

one_is_queued : not_empty (queue_of busy_bus "s1") ≡ true
unfolding start publish pop_next_event get put add
one_is_queued = refl

events_in_order_example :
    events_of "s1" (message "a" ∷ message "b" ∷ [])
    ≡ events_of "s1" [] ++ (in_flight "s1" busy_bus.workers ++ queue_of busy_bus "s1")
events_in_order_example = events_in_order "s1" run

one_worker_per_session_example : owns "s1" (dispatching "s1" (message "a")) + owns "s1" waiting ≤ 1
one_worker_per_session_example =
    one_worker_per_session "s1" 0 1 (dispatching "s1" (message "a")) waiting reached (λ e. cc)
      first_is_dispatched second_is_free

queued_session_is_scheduled_example :
    occurrences "s1" busy_bus.ready_sessions + held "s1" busy_bus.workers ≡ 1
queued_session_is_scheduled_example = queued_session_is_scheduled "s1" reached one_is_queued
