-- ===== src/Subtask/Reopen.antt =====
-- Tasks that run again, and the barrier flags: `update_status`, `reopen_task`,
-- `mark_aggregation_emitted` and `build_barrier_message` of global_state.py keep the batches.
use fairy_claw.Base.{
  String, ◌≡◌, refl, true, false, none, some, inl, inr, arith, ◌⊎◌, ◌↔◌, ◌≢◌, Bool-cases,
  Option-cases,
}
use fairy_claw.Base.Dict.{get, Entries-put, get-Entries}
use fairy_claw.Subtask.{
  SubTaskRecord, SessionSubTaskState, is_terminal_status, is_all_subtasks_terminal, open_batch,
  update_status, is_terminal, reopen_task, mark_aggregation_emitted, build_barrier_message,
  has_aggregation_emitted,
}
use fairy_claw.Subtask.Batch.{
  Fits, IsWellFormed, mem_batch-add, mem_batch-discard, open_batch-le, open_batch-Fits,
  rearm-bounded,
}

-- `update_status` keeps the batches in the cases in which its callers use it: on a task that is not terminal, or
-- with a terminal status.
pub update_status-IsWellFormed :
    (s : SessionSubTaskState) (k status summary : String)
    → (is_terminal s k ≡ false) ⊎ (is_terminal_status status ≡ true)
    → IsWellFormed s
    → IsWellFormed (update_status s k status summary)
unfolding is_terminal update_status
update_status-IsWellFormed s k status summary guard w = elim (Option-cases (get s.records k)) [
  | inl e ↦ rw (e, update_status) w
  | inr (r, e) ↦
      let f = get-Entries (Fits s.current_batch_id) s.records k w.fits e in
      elim (Bool-cases (is_terminal_status status)) [
        | inl t ↦
            rw (e, update_status, t)
              (record {
                fits =
                    Entries-put (Fits s.current_batch_id) s.records k _ w.fits (f.0, f.1, λ n. cc);
                emitted_bounded = w.emitted_bounded;
                notified_emitted = w.notified_emitted;
              })
        | inr t ↦
            let open' : is_terminal_status r.status ≡ false = ground arith in
            rw (e, update_status, t)
              (record {
                fits =
                    Entries-put (Fits s.current_batch_id) s.records k _ w.fits
                      (f.0, f.1, λ n. f.2 open');
                emitted_bounded =
                    rearm-bounded s.emitted_batch_ids s.current_batch_id r.batch_id
                      s.current_batch_id w.emitted_bounded (omega arith);
                notified_emitted = λ n. cc;
              })
      ]
]

pub reopen_task-IsWellFormed :
    (s : SessionSubTaskState) (k status summary : String)
    → IsWellFormed s
    → IsWellFormed (reopen_task s k status summary).0
unfolding reopen_task
reopen_task-IsWellFormed s k status summary w = elim (Option-cases (get s.records k)) [
  | inl e ↦ rw (e, reopen_task) w
  | inr (r, e) ↦
      let f = get-Entries (Fits s.current_batch_id) s.records k w.fits e in
      rw (e, reopen_task)
        (record {
          fits =
              Entries-put (Fits (open_batch s)) s.records k _ (open_batch-Fits s w)
                (f.0, omega arith, λ _. refl);
          emitted_bounded =
              rearm-bounded s.emitted_batch_ids s.current_batch_id (open_batch s) (open_batch s)
                w.emitted_bounded (open_batch-le s);
          notified_emitted = λ n. cc;
        })
]

pub mark_aggregation_emitted-IsWellFormed :
    (s : SessionSubTaskState) → IsWellFormed s → IsWellFormed (mark_aggregation_emitted s)
unfolding mark_aggregation_emitted
mark_aggregation_emitted-IsWellFormed s w = record {
  fits = w.fits;
  emitted_bounded = λ b e.
      ground (arith, mem_batch-add s.emitted_batch_ids s.current_batch_id b, w.emitted_bounded b);
  notified_emitted =
      λ n. ground (arith, mem_batch-add s.emitted_batch_ids s.current_batch_id s.current_batch_id);
}

pub has_aggregation_emitted-mark :
    (s : SessionSubTaskState) → has_aggregation_emitted (mark_aggregation_emitted s) ≡ true
unfolding has_aggregation_emitted mark_aggregation_emitted
has_aggregation_emitted-mark s =
    ground (arith, mem_batch-add s.emitted_batch_ids s.current_batch_id s.current_batch_id)

-- The one-shot message: it comes exactly when the current batch is over and the flag is down, it
-- leaves the batch marked as emitted, a second call gives nothing, and no call disturbs the batches.
pub build_barrier_message_once :
    (s : SessionSubTaskState)
    → IsWellFormed s
    → let (s', message) = build_barrier_message s in
      IsWellFormed s'
      × ((message ≢ none) ↔ ((s.barrier_notified ≡ false) × (is_all_subtasks_terminal s ≡ true)))
      × (message ≢ none → has_aggregation_emitted s' ≡ true)
      × (message ≢ none → build_barrier_message s' ≡ (s', none))
unfolding build_barrier_message
build_barrier_message_once s w = elim (Bool-cases s.barrier_notified) [
  | inl n ↦ simp n (w, (λ h. absurd (h refl), λ h. cc), λ h. absurd (h refl), λ h. absurd (h refl))
  | inr n ↦ elim (Bool-cases (is_all_subtasks_terminal s)) [
    | inl t ↦
        simp (n, t)
          (
            mark_aggregation_emitted-IsWellFormed s w,
            (λ h. (refl, refl), λ h e. cc),
            λ h. has_aggregation_emitted-mark s,
            λ h. unfold mark_aggregation_emitted in refl,
          )
    | inr t ↦
        simp (n, t) (w, (λ h. absurd (h refl), λ h. cc), λ h. absurd (h refl), λ h. absurd (h refl))
  ]
]

-- `reopen_task` of a task that the session has, terminal or not, re-arms the barrier: the flag is down
-- and the batch that is the current one after it is not marked as emitted.
pub reopen_task_rearms :
    (s : SessionSubTaskState) (k status summary : String) (r : SubTaskRecord)
    → get s.records k ≡ some r
    → let s' = (reopen_task s k status summary).0 in
      (s'.barrier_notified ≡ false) × (has_aggregation_emitted s' ≡ false)
unfolding reopen_task has_aggregation_emitted
reopen_task_rearms s k status summary r e =
    rw (e, reopen_task)
      (refl, ground (arith, mem_batch-discard s.emitted_batch_ids (open_batch s) (open_batch s)))
