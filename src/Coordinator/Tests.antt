-- ===== src/Coordinator/Tests.antt =====
-- A main session with two subtasks, whose batch is over, and a second main session without any.
use fairy_claw.Base.{
  ℕ, ◌+◌, String, ◌≡◌, refl, Bool, true, false, ◌||◌, Option, none, some, List, [], ◌∷◌, ◌++◌,
  lower, strip, join, nonempty, str_eq,
}
use fairy_claw.Base.Dict.{get, put, Entries}
use fairy_claw.Subtask.{
  SessionSubTaskState, empty_state, register_task, mark_terminal, is_terminal_status,
  normalize_status, is_all_subtasks_terminal, get_aggregated_subtask_results,
  get_current_batch_records, mark_aggregation_emitted, has_immediate_failure_notified,
  has_aggregation_emitted,
}
use fairy_claw.Subtask.Batch.{
  IsWellFormed, IsOver, empty_state-IsWellFormed, register_task-IsWellFormed,
  mark_terminal-IsWellFormed,
}
use fairy_claw.Coordinator.{
  stored, barrier_published, failure_published, World, both_done, store_fails, publish_fails,
  Barrier, state_of, set_state, bind_sub_session, main_of, begin_barrier, finish_barrier,
  barrier_blocks, publish_subtask_barrier_if_ready, failure_message,
  notify_main_session_subtask_failure, lookup_subtask_status, mark_subtask_if_non_terminal,
  is_sub_session_terminal,
}
use fairy_claw.Coordinator.Publish.{
  begin_barrier_complete, publish_once, publish_retries, notify_once,
}
use fairy_claw.Coordinator.Race.{overlap_publishes_twice, overlap_loses_barrier}

abbrev delegated : SessionSubTaskState
delegated =
    register_task (register_task empty_state "sub_1" "read the logs" 1) "sub_2" "write a report" 2

abbrev over : SessionSubTaskState
over =
    (mark_terminal (mark_terminal delegated "sub_1" "completed" "no errors").0 "sub_2" "failed"
      "disk full").0

over-IsWellFormed : IsWellFormed over
over-IsWellFormed = mark_terminal-IsWellFormed _ "sub_2" "failed" "disk full" (
    mark_terminal-IsWellFormed _ "sub_1" "completed" "no errors" (
      register_task-IsWellFormed _ "sub_2" "write a report" 2
        (register_task-IsWellFormed _ "sub_1" "read the logs" 1 empty_state-IsWellFormed)))

abbrev world : World
world = record {
  subtask_states = ("main", over) ∷ [];
  sub_session_to_main = ("sub_1", "main") ∷ ("sub_2", "main") ∷ [];
  effects = [];
}

abbrev barrier : Barrier
barrier = record {
  main = "main";
  message =
      "[System Notification] Background tasks completed:\n\nSub-agent (sub_1) [completed]:\nno errors\n\n---\n\nSub-agent (sub_2) [failed]:\ndisk full";
  aggregated = get_aggregated_subtask_results over none;
}

begins : begin_barrier world "sub_1" ≡ some barrier
unfolding begin_barrier get_aggregated_subtask_results get_current_batch_records barrier_blocks
    main_of state_of register_task mark_terminal is_all_subtasks_terminal get put is_terminal_status
    normalize_status lower strip join has_aggregation_emitted fairy_claw.Subtask.discard_batch
begins = refl

other_main : main_of world "sub_2" ≡ some "main"
unfolding main_of get
other_main = refl

status_found : lookup_subtask_status world "sub_2" ≡ some "failed"
unfolding lookup_subtask_status main_of state_of register_task mark_terminal get put
    is_terminal_status normalize_status lower strip
status_found = refl

marked_already : mark_subtask_if_non_terminal world "sub_2" "cancelled" "killed" ≡ world
unfolding mark_subtask_if_non_terminal main_of state_of register_task mark_terminal get put
    is_terminal_status normalize_status lower strip fairy_claw.Subtask.is_terminal
marked_already = refl

over_in_world : is_sub_session_terminal (bind_sub_session world "sub_3" "main") "sub_2" ≡ true
unfolding is_sub_session_terminal bind_sub_session main_of state_of register_task mark_terminal get
    put is_terminal_status normalize_status lower strip fairy_claw.Subtask.is_terminal
over_in_world = refl

state_of_main-IsWellFormed : IsWellFormed (state_of world "main")
unfolding state_of get
state_of_main-IsWellFormed = over-IsWellFormed

begin_barrier_complete_example :
    Entries IsOver (state_of world "main").records
    × (barrier.aggregated.completed + barrier.aggregated.failed + barrier.aggregated.cancelled
        ≡ barrier.aggregated.total)
begin_barrier_complete_example =
    begin_barrier_complete world "sub_1" barrier state_of_main-IsWellFormed begins

publish_once_example :
    let w' = publish_subtask_barrier_if_ready world "sub_1" both_done in
    (w'.effects
      ≡ world.effects
        ++ stored barrier.main barrier.message
          ∷ barrier_published barrier.main "sub_1" barrier.aggregated
          ∷ [])
    × (publish_subtask_barrier_if_ready w' "sub_2" both_done ≡ w')
publish_once_example = publish_once world "sub_1" "sub_2" barrier both_done begins other_main

publish_retries_example :
    (publish_subtask_barrier_if_ready world "sub_1" store_fails ≡ world)
    × (begin_barrier (publish_subtask_barrier_if_ready world "sub_1" publish_fails) "sub_1"
        ≡ some barrier)
    × ((publish_subtask_barrier_if_ready
          (publish_subtask_barrier_if_ready world "sub_1" publish_fails)
          "sub_1"
          both_done).effects
        ≡ (world.effects ++ stored barrier.main barrier.message ∷ [])
          ++ stored barrier.main barrier.message
            ∷ barrier_published barrier.main "sub_1" barrier.aggregated
            ∷ [])
publish_retries_example = publish_retries world "sub_1" barrier begins

not_notified : has_immediate_failure_notified (state_of world "main") "sub_2" ≡ false
unfolding has_immediate_failure_notified state_of register_task mark_terminal get put
    is_terminal_status normalize_status lower strip fairy_claw.Base.Dict.discard
not_notified = refl

notify_once_example :
    let w' = notify_main_session_subtask_failure world "sub_2" "disk full" "failed" both_done in
    (w'.effects
      ≡ world.effects
        ++ stored "main" (failure_message "sub_2" "disk full")
          ∷ failure_published "main" "sub_2"
          ∷ [])
    × (notify_main_session_subtask_failure w' "sub_2" "again" "failed" both_done ≡ w')
notify_once_example =
    notify_once world "main" "sub_2" "disk full" "failed" "again" "failed" both_done other_main refl
      refl not_notified

overlap_publishes_twice_example :
    (begin_barrier world "sub_2" ≡ some barrier)
    × ((finish_barrier
          (finish_barrier world "sub_1" barrier both_done)
          "sub_2"
          barrier
          both_done).effects
        ≡ (world.effects
            ++ stored barrier.main barrier.message
              ∷ barrier_published barrier.main "sub_1" barrier.aggregated
              ∷ [])
          ++ stored barrier.main barrier.message
            ∷ barrier_published barrier.main "sub_2" barrier.aggregated
            ∷ [])
overlap_publishes_twice_example =
    overlap_publishes_twice world "sub_1" "sub_2" barrier begins other_main

new_task_main : main_of (bind_sub_session world "main" "sub_3") "sub_3" ≡ some "main"
unfolding main_of bind_sub_session get put
new_task_main = refl

overlap_loses_barrier_example :
    let bound = bind_sub_session world "main" "sub_3" in
    let delegated' =
      set_state bound "main" (register_task (state_of world "main") "sub_3" "retry" 9) in
    let published = finish_barrier delegated' "sub_1" barrier both_done in
    let s = (mark_terminal (state_of published "main") "sub_3" "completed" "done").0 in
    let ended = set_state published "main" s in
    (is_all_subtasks_terminal (state_of ended "main") ≡ true) × (begin_barrier ended "sub_3" ≡ none)
overlap_loses_barrier_example =
    overlap_loses_barrier world "sub_1" "sub_3" "sub_3" "retry" "completed" "done" 9 barrier begins
      new_task_main state_of_main-IsWellFormed
