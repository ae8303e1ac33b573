-- ===== src/Subtask.antt =====
-- fairyclaw/core/agent/session/global_state.py: the subtasks that one main session has delegated.
-- A record is mutated through the dict that holds it, so a method returns the new state; a float
-- timestamp is a natural number. What the methods promise is proved in the modules below.
pub mod Batch
pub mod Terminal
pub mod Opening
pub mod Report
pub mod Reopen
pub mod Runs
pub mod Lookup
pub mod Tests
use fairy_claw.Base.{
  ℕ, zero, suc, ◌+◌, ◌≤◌, String, Bool, true, false, not, ◌&&◌, ◌||◌, Option, none, some, List, [],
  ◌∷◌, ◌++◌, map, length, keep, all, not_empty, if◌then◌else◌, ◌==◌, leb, str_eq, append,
  starts_with, nonempty, or_text, mem_text, strip, lower, join, is_some,
}
use fairy_claw.Base.Dict.{Dict, get, put, keys, values, TextSet, add, discard}

-- `status in TERMINAL_STATUSES`
unfoldable pub is_terminal_status : String → Bool
is_terminal_status status =
    str_eq status "completed" || str_eq status "failed" || str_eq status "cancelled"

pub record SubTaskRecord : Type 0 where
  pub sub_session_id : String
  pub instruction : String
  pub status : String
  pub start_time : ℕ
  pub summary : String
  pub batch_id : ℕ

pub record SessionSubTaskState : Type 0 where
  pub records : Dict SubTaskRecord
  pub barrier_notified : Bool
  pub current_batch_id : ℕ
  pub emitted_batch_ids : List ℕ
  pub immediate_failure_notified : TextSet

-- The state of a main session before its first delegation.
abbrev pub empty_state : SessionSubTaskState
empty_state = record {
  records = [];
  barrier_notified = false;
  current_batch_id = 0;
  emitted_batch_ids = [];
  immediate_failure_notified = [];
}

-- Sets of batch numbers: `in`, `add` and `discard`.
abbrev pub mem_batch : ℕ → List ℕ → Bool
mem_batch b [] = false
mem_batch b (c ∷ cs) = c == b || mem_batch b cs

unfoldable pub add_batch : List ℕ → ℕ → List ℕ
add_batch cs b = if mem_batch b cs then cs else b ∷ cs

unfoldable pub discard_batch : List ℕ → ℕ → List ℕ
discard_batch [] b = []
discard_batch (c ∷ cs) b = let rest = discard_batch cs b in if c == b then rest else c ∷ rest

-- `list_records(batch_id)`; no batch means all of them.
unfoldable pub in_batch : Option ℕ → SubTaskRecord → Bool
in_batch none r = true
in_batch (some b) r = r.batch_id == b

unfoldable pub list_records : SessionSubTaskState → Option ℕ → List SubTaskRecord
unfolding in_batch
list_records s b = keep (in_batch b) (values s.records)

unfoldable pub all_terminal : SessionSubTaskState → Option ℕ → Bool
unfolding list_records
all_terminal s b =
    let rs = list_records s b in not_empty rs && all (λ r. is_terminal_status r.status) rs

unfoldable pub is_all_subtasks_terminal : SessionSubTaskState → Bool
unfolding all_terminal
is_all_subtasks_terminal s = all_terminal s (some s.current_batch_id)

-- The batch that a registered or reopened task joins: a new one once the current one is over.
pub open_batch : SessionSubTaskState → ℕ
unfolding all_terminal
open_batch s =
    if all_terminal s (some s.current_batch_id) then s.current_batch_id + 1 else s.current_batch_id

unfoldable pub register_task : SessionSubTaskState → String → String → ℕ → SessionSubTaskState
unfolding open_batch
register_task s k instruction start_time =
    let batch = if not_empty s.records then open_batch s else s.current_batch_id in
    let r : SubTaskRecord = record {
      sub_session_id = k;
      instruction = instruction;
      status = "running";
      start_time = start_time;
      summary = "";
      batch_id = batch;
    } in
    record {
      records = put s.records k r;
      barrier_notified = false;
      current_batch_id = batch;
      emitted_batch_ids = discard_batch s.emitted_batch_ids batch;
      immediate_failure_notified = discard s.immediate_failure_notified k;
    }

-- `status.strip().lower() or "completed"`, and "completed" for what is no terminal status.
unfoldable pub normalize_status : String → String
normalize_status status =
    let normalized = or_text (lower (strip status)) "completed" in
    if is_terminal_status normalized then normalized else "completed"

unfoldable pub mark_terminal :
    SessionSubTaskState → String → String → String → SessionSubTaskState × Bool
mark_terminal s k status summary = elim (get s.records k) [
  | none ↦ (s, false)
  | some r ↦ if is_terminal_status r.status then (s, false) else (
    record s {
      records =
          put s.records k
            (record r { status = normalize_status status; summary = or_text summary r.summary });
    },
    true,
  )
]

unfoldable pub is_terminal : SessionSubTaskState → String → Bool
is_terminal s k = elim (get s.records k) [ none ↦ false | some r ↦ is_terminal_status r.status ]

-- The matches in the order of the dict; the source goes through a set, and its caller needs a single one.
unfoldable pub find_matching_task_ids : SessionSubTaskState → String → List String
find_matching_task_ids s prefix =
    if nonempty prefix then keep (λ k. starts_with k prefix) (keys s.records) else []

-- The one element of a list that has exactly one.
abbrev only : List String → Option String
only (k ∷ []) = some k
only ks = none

unfoldable pub resolve_task_id : SessionSubTaskState → String → Option String
resolve_task_id s k =
    if is_some (get s.records k) then some k else only (find_matching_task_ids s k)

unfoldable pub get_record : SessionSubTaskState → String → Option SubTaskRecord
get_record s k = get s.records k

-- `barrier_notified = False` and the two `discard`s, for a task that runs again in a batch.
rearm : SessionSubTaskState → ℕ → String → SessionSubTaskState
rearm s batch k = record s {
  barrier_notified = false;
  emitted_batch_ids = discard_batch s.emitted_batch_ids batch;
  immediate_failure_notified = discard s.immediate_failure_notified k;
}

unfoldable pub update_status : SessionSubTaskState → String → String → String → SessionSubTaskState
unfolding rearm
update_status s k status summary = elim (get s.records k) [
  | none ↦ s
  | some r ↦
      let r' = record r { status = status; summary = or_text summary r.summary } in
      let s' = record s { records = put s.records k r' } in
      if is_terminal_status status then s' else rearm s' r.batch_id k
]

unfoldable pub reopen_task :
    SessionSubTaskState → String → String → String → SessionSubTaskState × Bool
unfolding open_batch rearm
reopen_task s k status summary = elim (get s.records k) [
  | none ↦ (s, false)
  | some r ↦
      let batch = open_batch s in
      let was_terminal = is_terminal_status r.status in
      let summary' = if was_terminal then summary else or_text summary r.summary in
      let r' = record r { status = status; summary = summary'; batch_id = batch } in
      let s' = record s { records = put s.records k r'; current_batch_id = batch } in
      (rearm s' batch k, was_terminal)
]

unfoldable pub active_count : SessionSubTaskState → ℕ
active_count s = length (keep (λ r. starts_with r.status "running") (values s.records))

unfoldable pub has_aggregation_emitted : SessionSubTaskState → Bool
has_aggregation_emitted s = mem_batch s.current_batch_id s.emitted_batch_ids

unfoldable pub mark_aggregation_emitted : SessionSubTaskState → SessionSubTaskState
mark_aggregation_emitted s = record s {
  barrier_notified = true;
  emitted_batch_ids = add_batch s.emitted_batch_ids s.current_batch_id;
}

unfoldable pub consume_aggregation_emitted : SessionSubTaskState → SessionSubTaskState × Bool
unfolding has_aggregation_emitted mark_aggregation_emitted
consume_aggregation_emitted s =
    if has_aggregation_emitted s then (s, true) else (mark_aggregation_emitted s, false)

unfoldable pub has_immediate_failure_notified : SessionSubTaskState → String → Bool
has_immediate_failure_notified s k = mem_text k s.immediate_failure_notified

unfoldable pub mark_immediate_failure_notified : SessionSubTaskState → String → SessionSubTaskState
mark_immediate_failure_notified s k =
    if nonempty k
    then record s { immediate_failure_notified = add s.immediate_failure_notified k }
    else s

unfoldable pub get_current_batch_records : SessionSubTaskState → List SubTaskRecord
unfolding list_records
get_current_batch_records s = list_records s (some s.current_batch_id)

pub record Aggregate : Type 0 where
  pub total : ℕ
  pub completed : ℕ
  pub failed : ℕ
  pub cancelled : ℕ
  pub summaries : Dict String

-- One turn of the counting loop.
tally : Aggregate → SubTaskRecord → Aggregate
tally a r =
    let a' = record a { summaries = put a.summaries r.sub_session_id r.summary } in
    if str_eq r.status "completed"
    then record a' { completed = a.completed + 1 }
    else if str_eq r.status "failed"
    then record a' { failed = a.failed + 1 }
    else if str_eq r.status "cancelled"
    then record a' { cancelled = a.cancelled + 1 }
    else a'

tally_all : Aggregate → List SubTaskRecord → Aggregate
unfolding tally
tally_all a [] = a
tally_all a (r ∷ rs) = tally_all (tally a r) rs

unfoldable pub get_aggregated_subtask_results : SessionSubTaskState → Option ℕ → Aggregate
unfolding tally_all list_records
get_aggregated_subtask_results s batch =
    let target : ℕ = elim batch [ none ↦ s.current_batch_id | some b ↦ b ] in
    let rs = list_records s (some target) in
    tally_all
      (record { total = length rs; completed = 0; failed = 0; cancelled = 0; summaries = [] }) rs

-- `sorted(…, key=start_time)`, which is stable.
insert_by_start : SubTaskRecord → List SubTaskRecord → List SubTaskRecord
insert_by_start r [] = r ∷ []
insert_by_start r (x ∷ xs) =
    if leb r.start_time x.start_time then r ∷ x ∷ xs else x ∷ insert_by_start r xs

sort_by_start : List SubTaskRecord → List SubTaskRecord
unfolding insert_by_start
sort_by_start [] = []
sort_by_start (r ∷ rs) = insert_by_start r (sort_by_start rs)

barrier_line : SubTaskRecord → String
barrier_line r = append "[" (
    append r.status
      (append "] " (append r.sub_session_id (append "\n" (or_text r.summary "(no summary)")))))

pub build_barrier_message : SessionSubTaskState → SessionSubTaskState × Option String
build_barrier_message s =
    if s.barrier_notified
    then (s, none)
    else if not (is_all_subtasks_terminal s)
    then (s, none)
    else (
      mark_aggregation_emitted s,
      some (
          append "[System Notification] Background tasks completed:\n\n"
            (join "\n\n---\n\n" (map barrier_line (sort_by_start (get_current_batch_records s))))),
    )
