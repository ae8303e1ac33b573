-- ===== src/Subtask/Runs.antt =====
-- Runs of the registry of global_state.py. `update_status` has no guard of its own: it takes part as
-- the two tools call it, in delegate_task.py and message_subtask.py of
-- fairyclaw/capabilities/agent_tools/scripts. The other operations come in any order.
use fairy_claw.Base.{
  ℕ, String, ◌≡◌, refl, true, false, some, inl, inr, Bool-cases, nonempty, append, if◌then◌else◌,
}
use fairy_claw.Base.Dict.{get, get-put_self, get-Entries}
use fairy_claw.Subtask.{
  SubTaskRecord, SessionSubTaskState, empty_state, register_task, mark_terminal, is_terminal,
  is_terminal_status, update_status, reopen_task, mark_aggregation_emitted,
  consume_aggregation_emitted, has_aggregation_emitted, mark_immediate_failure_notified,
  build_barrier_message, is_all_subtasks_terminal,
}
use fairy_claw.Subtask.Batch.{
  Fits, IsWellFormed, IsOver, empty_state-IsWellFormed, register_task-IsWellFormed,
  mark_terminal-IsWellFormed, is_all_subtasks_terminal-IsOver,
}
use fairy_claw.Subtask.Reopen.{
  update_status-IsWellFormed, reopen_task-IsWellFormed, mark_aggregation_emitted-IsWellFormed,
  build_barrier_message_once,
}

-- The calls of delegate_task.py: a new task is registered and its status says at once that it runs.
unfoldable pub delegate : SessionSubTaskState → String → String → ℕ → String → SessionSubTaskState
delegate s k instruction start_time task_type =
    update_status (register_task s k instruction start_time) k (append "running:" task_type) ""

-- The calls of message_subtask.py: a task that is over is reopened, and another one gets a new status.
unfoldable pub message_task : SessionSubTaskState → String → String → SessionSubTaskState
message_task s k task_type =
    if is_terminal s k
    then (reopen_task s k (append "running:" task_type) "").0
    else update_status s k (append "running:" task_type) ""

pub data Step (s : SessionSubTaskState) : SessionSubTaskState → Type 0 where
  registers : (k instruction : String) (t : ℕ) → Step s (register_task s k instruction t)
  marks : (k status summary : String) → Step s (mark_terminal s k status summary).0
  delegates :
      (k instruction task_type : String) (t : ℕ) → Step s (delegate s k instruction t task_type)
  messages : (k task_type : String) → Step s (message_task s k task_type)
  reopens : (k status summary : String) → Step s (reopen_task s k status summary).0
  emits : Step s (mark_aggregation_emitted s)
  consumes : Step s (consume_aggregation_emitted s).0
  notifies : (k : String) → Step s (mark_immediate_failure_notified s k)
  builds : Step s (build_barrier_message s).0

pub data Reach : SessionSubTaskState → Type 0 where
  begin : Reach empty_state
  next : {s s' : SessionSubTaskState} → Reach s → Step s s' → Reach s'

consume_aggregation_emitted-IsWellFormed :
    (s : SessionSubTaskState) → IsWellFormed s → IsWellFormed (consume_aggregation_emitted s).0
unfolding consume_aggregation_emitted
consume_aggregation_emitted-IsWellFormed s w = elim (Bool-cases (has_aggregation_emitted s)) [
  | inl e ↦ rw e w
  | inr e ↦ rw e (mark_aggregation_emitted-IsWellFormed s w)
]

mark_immediate_failure_notified-IsWellFormed :
    (s : SessionSubTaskState) (k : String)
    → IsWellFormed s
    → IsWellFormed (mark_immediate_failure_notified s k)
unfolding mark_immediate_failure_notified
mark_immediate_failure_notified-IsWellFormed s k w = elim (Bool-cases (nonempty k)) [
  | inl e ↦ rw e (record {
    fits = w.fits;
    emitted_bounded = w.emitted_bounded;
    notified_emitted = w.notified_emitted;
  })
  | inr e ↦ rw e w
]

-- A task that has just been registered is not over.
register_task-is_terminal :
    (s : SessionSubTaskState) (k instruction : String) (t : ℕ)
    → is_terminal (register_task s k instruction t) k ≡ false
unfolding is_terminal register_task is_terminal_status
register_task-is_terminal s k instruction t =
    rw (is_terminal, register_task, get-put_self s.records k) refl

delegate-IsWellFormed :
    (s : SessionSubTaskState) (k instruction task_type : String) (t : ℕ)
    → IsWellFormed s
    → IsWellFormed (delegate s k instruction t task_type)
unfolding delegate
delegate-IsWellFormed s k instruction task_type t w =
    update_status-IsWellFormed (register_task s k instruction t) k (append "running:" task_type) ""
      (inl (register_task-is_terminal s k instruction t))
      (register_task-IsWellFormed s k instruction t w)

message_task-IsWellFormed :
    (s : SessionSubTaskState) (k task_type : String)
    → IsWellFormed s
    → IsWellFormed (message_task s k task_type)
unfolding message_task
message_task-IsWellFormed s k task_type w = elim (Bool-cases (is_terminal s k)) [
  | inl e ↦ rw e (reopen_task-IsWellFormed s k (append "running:" task_type) "" w)
  | inr e ↦ rw e (update_status-IsWellFormed s k (append "running:" task_type) "" (inl e) w)
]

Step-IsWellFormed : {s s' : SessionSubTaskState} → Step s s' → IsWellFormed s → IsWellFormed s'
Step-IsWellFormed {s} (registers k instruction t) w = register_task-IsWellFormed s k instruction t w
Step-IsWellFormed {s} (marks k status summary) w = mark_terminal-IsWellFormed s k status summary w
Step-IsWellFormed {s} (delegates k instruction task_type t) w =
    delegate-IsWellFormed s k instruction task_type t w
Step-IsWellFormed {s} (messages k task_type) w = message_task-IsWellFormed s k task_type w
Step-IsWellFormed {s} (reopens k status summary) w = reopen_task-IsWellFormed s k status summary w
Step-IsWellFormed {s} emits w = mark_aggregation_emitted-IsWellFormed s w
Step-IsWellFormed {s} consumes w = consume_aggregation_emitted-IsWellFormed s w
Step-IsWellFormed {s} (notifies k) w = mark_immediate_failure_notified-IsWellFormed s k w
Step-IsWellFormed {s} builds w = (build_barrier_message_once s w).0

pub Reach-IsWellFormed : {s : SessionSubTaskState} → Reach s → IsWellFormed s
Reach-IsWellFormed begin = empty_state-IsWellFormed
Reach-IsWellFormed (next r st) = Step-IsWellFormed st (Reach-IsWellFormed r)

-- In every run of the registry's operations in which `update_status` is called only as the code calls
-- it, by `delegate_task` and by `message_subtask`, which reopens a task that is over instead: when the
-- test of the current batch says that all its tasks are over, no task of the session can run any more, whatever batch it is in; and a task that can still run is
-- in the current batch.
pub batches_close :
    {s : SessionSubTaskState} (k : String) (r : SubTaskRecord)
    → Reach s
    → get s.records k ≡ some r
    → (is_all_subtasks_terminal s ≡ true → is_terminal_status r.status ≡ true)
      × (is_terminal_status r.status ≡ false → r.batch_id ≡ s.current_batch_id)
      × (r.sub_session_id ≡ k)
batches_close {s} k r run e =
    let w = Reach-IsWellFormed run in
    let f = get-Entries (Fits s.current_batch_id) s.records k w.fits e in
    (λ h. get-Entries IsOver s.records k (is_all_subtasks_terminal-IsOver s w h) e, f.2, f.0)
