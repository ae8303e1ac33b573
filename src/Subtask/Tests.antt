-- ===== src/Subtask/Tests.antt =====
-- Sessions with delegated tasks, and the operations of the registry run on them.
use fairy_claw.Base.{
  String, mem_text, starts_with, ◌+◌, ◌≤◌, length, ◌≡◌, ◌≢◌, ◌↔◌, refl, true, false, none, some,
  is_some, str_eq, lower, strip, join,
}
use fairy_claw.Base.Dict.{get, put, keys}
use fairy_claw.Subtask.{
  SubTaskRecord, SessionSubTaskState, empty_state, register_task, mark_terminal, is_terminal,
  reopen_task, find_matching_task_ids, resolve_task_id, active_count, has_aggregation_emitted,
  is_all_subtasks_terminal, sort_by_start, barrier_line, build_barrier_message,
  get_current_batch_records, get_aggregated_subtask_results, list_records, normalize_status,
  is_terminal_status,
}
use fairy_claw.Subtask.Batch.{
  IsWellFormed, empty_state-IsWellFormed, register_task-IsWellFormed, mark_terminal-IsWellFormed,
}
use fairy_claw.Subtask.Runs.{begin, next, registers, marks, Reach, batches_close}
use fairy_claw.Subtask.Lookup.{resolve_task_id_unique}
use fairy_claw.Subtask.Opening.{register_task_opens}
use fairy_claw.Subtask.Terminal.{mark_terminal_once}
use fairy_claw.Subtask.Report.{aggregate_counts}
use fairy_claw.Subtask.Reopen.{build_barrier_message_once, reopen_task_rearms}

-- One task, delegated at time 3; then the same session with the task done.
abbrev one_task : SessionSubTaskState
one_task = register_task empty_state "sub_1" "count the files" 3

abbrev one_done : SessionSubTaskState
one_done = (mark_terminal one_task "sub_1" "completed" "12 files").0

one_task-IsWellFormed : IsWellFormed one_task
one_task-IsWellFormed =
    register_task-IsWellFormed empty_state "sub_1" "count the files" 3 empty_state-IsWellFormed

one_done-IsWellFormed : IsWellFormed one_done
one_done-IsWellFormed =
    mark_terminal-IsWellFormed one_task "sub_1" "completed" "12 files" one_task-IsWellFormed

one_done_over : is_all_subtasks_terminal one_done ≡ true
unfolding register_task mark_terminal is_all_subtasks_terminal get put is_terminal_status
    normalize_status lower strip
one_done_over = refl

abbrev done_record : SubTaskRecord
done_record = record {
  sub_session_id = "sub_1";
  instruction = "count the files";
  status = "completed";
  start_time = 3;
  summary = "12 files";
  batch_id = 0;
}

one_done_record : get one_done.records "sub_1" ≡ some done_record
unfolding register_task mark_terminal get put is_terminal_status normalize_status lower strip
one_done_record = refl

found_by_prefix : resolve_task_id one_done "sub" ≡ some "sub_1"
unfolding register_task mark_terminal resolve_task_id find_matching_task_ids get put
    is_terminal_status normalize_status lower strip
found_by_prefix = refl

none_is_active : active_count one_done ≡ 0
unfolding register_task mark_terminal active_count get put is_terminal_status normalize_status lower
    strip
none_is_active = refl

abbrev two_done : SessionSubTaskState
two_done = record one_done {
  records =
      put one_done.records "sub_0"
        (record done_record { sub_session_id = "sub_0"; start_time = 1; summary = "" });
}

blocks_by_start_time :
    (build_barrier_message two_done).1
    ≡ some
        "[System Notification] Background tasks completed:\n\n[completed] sub_0\n(no summary)\n\n---\n\n[completed] sub_1\n12 files"
unfolding build_barrier_message sort_by_start barrier_line register_task mark_terminal
    is_all_subtasks_terminal get_current_batch_records get put is_terminal_status normalize_status
    lower strip join
blocks_by_start_time = refl

register_task_opens_example :
    let s' = register_task one_done "sub_2" "sort them" 5 in
    (is_all_subtasks_terminal s' ≡ false)
    × (has_aggregation_emitted s' ≡ false)
    × (is_all_subtasks_terminal (mark_terminal s' "sub_2" "failed" "disk full").0 ≡ true)
register_task_opens_example =
    register_task_opens one_done "sub_2" "sort them" "failed" "disk full" 5 one_done-IsWellFormed
      one_done_over

mark_terminal_once_example :
    let (s', changed) = mark_terminal one_task "sub_1" "Cancelled" "" in
    (is_terminal s' "sub_1" ≡ is_some (get one_task.records "sub_1"))
    × (mark_terminal s' "sub_1" "completed" "late" ≡ (s', false))
    × (str_eq "sub_1" "sub_2" ≡ false → is_terminal s' "sub_2" ≡ is_terminal one_task "sub_2")
mark_terminal_once_example =
    mark_terminal_once one_task "sub_1" "sub_2" "Cancelled" "" "completed" "late"

build_barrier_message_once_example :
    let (s', message) = build_barrier_message one_done in
    IsWellFormed s'
    × ((message ≢ none)
        ↔ ((one_done.barrier_notified ≡ false) × (is_all_subtasks_terminal one_done ≡ true)))
    × (message ≢ none → has_aggregation_emitted s' ≡ true)
    × (message ≢ none → build_barrier_message s' ≡ (s', none))
build_barrier_message_once_example = build_barrier_message_once one_done one_done-IsWellFormed

reopen_task_rearms_example :
    let s' = (reopen_task one_done "sub_1" "running" "").0 in
    (s'.barrier_notified ≡ false) × (has_aggregation_emitted s' ≡ false)
reopen_task_rearms_example =
    reopen_task_rearms one_done "sub_1" "running" "" done_record one_done_record

one_done_reached : Reach one_done
one_done_reached =
    next (next begin (registers "sub_1" "count the files" 3)) (marks "sub_1" "completed" "12 files")

batches_close_example :
    (is_all_subtasks_terminal one_done ≡ true → is_terminal_status done_record.status ≡ true)
    × (is_terminal_status done_record.status ≡ false
        → done_record.batch_id ≡ one_done.current_batch_id)
    × (done_record.sub_session_id ≡ "sub_1")
batches_close_example = batches_close "sub_1" done_record one_done_reached one_done_record

aggregate_counts_example :
    let a = get_aggregated_subtask_results one_done none in
    (a.total ≡ length (list_records one_done (some one_done.current_batch_id)))
    × (a.completed + a.failed + a.cancelled ≤ a.total)
    × (is_all_subtasks_terminal one_done ≡ true → a.completed + a.failed + a.cancelled ≡ a.total)
aggregate_counts_example = aggregate_counts one_done

abbrev prefix : String
prefix = "sub"

abbrev full_id : String
full_id = "sub_1"

resolve_task_id_unique_example :
    (mem_text full_id (keys one_done.records) ≡ true)
    × (mem_text prefix (keys one_done.records) ≡ true → full_id ≡ prefix)
    × (mem_text prefix (keys one_done.records) ≡ false
        → (starts_with full_id prefix ≡ true)
          × ((j : String)
              → mem_text j (keys one_done.records) ≡ true
              → starts_with j prefix ≡ true
              → j ≡ full_id))
resolve_task_id_unique_example = resolve_task_id_unique one_done prefix full_id found_by_prefix
