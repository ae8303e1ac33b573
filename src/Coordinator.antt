-- ===== src/Coordinator.antt =====
-- fairyclaw/core/agent/planning/subtask_coordinator.py: terminal transitions of subtasks, the
-- aggregated barrier message and the early failure notice, with the module-level tables of
-- fairyclaw/core/agent/session/global_state.py that they read.
--
-- The session history and the runtime event publisher are outside: each call is told whether
-- storing the message and publishing the event succeed, and the log records what was done. Both
-- calls await in the middle, so each is given as what it does up to the first await and what it
-- does after it; the whole call runs one after the other.
pub mod Publish
pub mod Race
pub mod Tests
use fairy_claw.Base.{
  ℕ, String, Bool, true, false, not, ◌&&◌, ◌||◌, Option, none, some, List, [], ◌∷◌, ◌++◌,
  if◌then◌else◌, str_eq, append, nonempty, or_text, strip, join, not_empty,
}
use fairy_claw.Base.Dict.{Dict, get, put}
use fairy_claw.Subtask.{
  SubTaskRecord, SessionSubTaskState, empty_state, is_terminal, mark_terminal,
  is_all_subtasks_terminal, has_aggregation_emitted, mark_aggregation_emitted,
  has_immediate_failure_notified, mark_immediate_failure_notified, Aggregate,
  get_aggregated_subtask_results, get_current_batch_records, list_records,
}

-- What reaches the outside: a message in the history of a session, and a `subtask_completed` event.
pub data Effect : Type 0 where
  stored : String → String → Effect
  barrier_published : String → String → Aggregate → Effect
  failure_published : String → String → Effect

-- The tables of the process, and the effects so far.
pub record World : Type 0 where
  pub subtask_states : Dict SessionSubTaskState
  pub sub_session_to_main : Dict String
  pub effects : List Effect

-- How the two awaited calls end. An exception of the first leaves the second unmade; with no bus
-- the second publishes nothing and returns `False`, which the callers do not look at.
pub data Outcome : Type 0 where
  both_done bus_absent store_fails publish_fails : Outcome

-- `get_or_create_subtask_state`: the state that the lookup returns, and the table with it.
unfoldable pub state_of : World → String → SessionSubTaskState
state_of w main = elim (get w.subtask_states main) [ none ↦ empty_state | some s ↦ s ]

unfoldable pub set_state : World → String → SessionSubTaskState → World
set_state w main s = record w { subtask_states = put w.subtask_states main s }

unfoldable pub bind_sub_session : World → String → String → World
bind_sub_session w main sub = record w { sub_session_to_main = put w.sub_session_to_main sub main }

-- `get_main_session_by_sub_session`, with the callers' test `if not main_session_id`.
unfoldable pub main_of : World → String → Option String
main_of w sub = elim (get w.sub_session_to_main sub) [
  | none ↦ none
  | some main ↦ if nonempty main then some main else none
]

unfoldable pub is_sub_session_terminal : World → String → Bool
is_sub_session_terminal w sub = elim (main_of w sub) [
  | none ↦ false
  | some main ↦ is_terminal (state_of w main) sub
]

-- The runtime half of the method; the copy of the status in the database is outside.
unfoldable pub mark_subtask_if_non_terminal : World → String → String → String → World
mark_subtask_if_non_terminal w sub status summary = elim (main_of w sub) [
  | none ↦ w
  | some main ↦
      if is_terminal (state_of w main) sub
      then w
      else set_state w main (mark_terminal (state_of w main) sub status summary).0
]

first_status : List SubTaskRecord → String → Option String
first_status [] sub = none
first_status (r ∷ rs) sub =
    if str_eq r.sub_session_id sub then some r.status else first_status rs sub

unfoldable pub lookup_subtask_status : World → String → Option String
unfolding first_status
lookup_subtask_status w sub = elim (main_of w sub) [
  | none ↦ none
  | some main ↦ first_status (list_records (state_of w main) none) sub
]

-- The blocks of the message: a record without a summary has none.
pub barrier_blocks : Dict String → List SubTaskRecord → List String
barrier_blocks summaries [] = []
barrier_blocks summaries (r ∷ rs) =
    let rest = barrier_blocks summaries rs in
    elim (get summaries r.sub_session_id) [
      | none ↦ rest
      | some payload ↦
          if nonempty payload
          then append "Sub-agent ("
              (append r.sub_session_id (append ") [" (append r.status (append "]:\n" payload))))
            ∷ rest
          else rest
    ]

-- What the call has decided before its first await: the main session, the message and the counts.
pub record Barrier : Type 0 where
  pub main : String
  pub message : String
  pub aggregated : Aggregate

-- `publish_subtask_barrier_if_ready` up to its first await; `none` where it returns early.
unfoldable pub begin_barrier : World → String → Option Barrier
begin_barrier w sub = elim (main_of w sub) [
  | none ↦ none
  | some main ↦
      let s = state_of w main in
      let aggregated = get_aggregated_subtask_results s none in
      let blocks = barrier_blocks aggregated.summaries (get_current_batch_records s) in
      if not (is_all_subtasks_terminal s)
      then none
      else if has_aggregation_emitted s
      then none
      else if not (not_empty blocks)
      then none
      else some (record {
        main = main;
        message =
            append "[System Notification] Background tasks completed:\n\n"
              (join "\n\n---\n\n" blocks);
        aggregated = aggregated;
      })
]

pub log : World → List Effect → World
log w es = record w { effects = w.effects ++ es }

-- `state.mark_aggregation_emitted()`, on the state as it is by then.
mark_emitted : World → String → World
mark_emitted w main = set_state w main (mark_aggregation_emitted (state_of w main))

-- The rest of it: store the message, publish the event, and mark the batch that is current then.
unfoldable pub finish_barrier : World → String → Barrier → Outcome → World
unfolding log mark_emitted
finish_barrier w sub b store_fails = w
finish_barrier w sub b publish_fails = log w (stored b.main b.message ∷ [])
finish_barrier w sub b bus_absent = mark_emitted (log w (stored b.main b.message ∷ [])) b.main
finish_barrier w sub b both_done =
    mark_emitted (log w (stored b.main b.message ∷ barrier_published b.main sub b.aggregated ∷ []))
      b.main

unfoldable pub publish_subtask_barrier_if_ready : World → String → Outcome → World
unfolding begin_barrier finish_barrier
publish_subtask_barrier_if_ready w sub o = elim (begin_barrier w sub) [
  | none ↦ w
  | some b ↦ finish_barrier w sub b o
]

pub failure_message : String → String → String
failure_message sub summary =
    append "[System Notification] Sub-agent failed early:\n\nSub-agent (" (
      append sub (
        append ") [failed]:\n" (or_text (strip summary) "Sub-agent exited with an unknown error.")))

unfoldable pub notify_main_session_subtask_failure :
    World → String → String → String → Outcome → World
unfolding log failure_message
notify_main_session_subtask_failure w sub summary status o = elim (main_of w sub) [
  | none ↦ w
  | some main ↦
      let s = state_of w main in
      let message = failure_message sub summary in
      if str_eq status "cancelled" || str_eq status "completed"
      then w
      else if has_immediate_failure_notified s sub
      then w
      else elim o [
        | store_fails ↦ w
        | publish_fails ↦ log w (stored main message ∷ [])
        | bus_absent ↦
            set_state (log w (stored main message ∷ [])) main
              (mark_immediate_failure_notified s sub)
        | both_done ↦
            set_state (log w (stored main message ∷ failure_published main sub ∷ [])) main
              (mark_immediate_failure_notified s sub)
      ]
]
