-- ===== src/Subtask/Opening.antt =====
-- `register_task` of global_state.py in a session whose current batch is over: the batch it opens.
use fairy_claw.Base.{
  ℕ, ◌+◌, ◌≤◌, String, ◌≡◌, refl, ◌∙◌, ap, true, false, ◌&&◌, some, [], ◌∷◌, inl, inr, arith,
  Bool-cases, str_eq, keep, all, not_empty, or_text,
}
use fairy_claw.Base.Dict.{Dict, get, put, put-put, get-put_self, Entries, Entries-map, values}
use fairy_claw.Subtask.{
  SubTaskRecord, SessionSubTaskState, in_batch, is_terminal_status, is_all_subtasks_terminal,
  open_batch, register_task, mark_terminal, normalize_status, has_aggregation_emitted,
}
use fairy_claw.Subtask.Batch.{Fits, IsWellFormed, normalize_status-IsOver, mem_batch-discard}
use fairy_claw.Subtask.Terminal.{mark_terminal_running}

abbrev InTime : ℕ → String → SubTaskRecord → Type 0
InTime c k r = r.batch_id ≤ c

keep-none :
    (c : ℕ) (d : Dict SubTaskRecord)
    → Entries (InTime c) d
    → keep (in_batch (some (c + 1))) (values d) ≡ []
unfolding in_batch
keep-none c [] h = refl
keep-none c ((j, x) ∷ d) h = ground (arith, keep-none c d)

-- Batch `c + 1` of a session whose batches are all at most `c` holds just the record put there.
keep-put :
    (c : ℕ) (d : Dict SubTaskRecord) (k : String) (r : SubTaskRecord)
    → r.batch_id ≡ c + 1
    → Entries (InTime c) d
    → keep (in_batch (some (c + 1))) (values (put d k r)) ≡ r ∷ []
unfolding in_batch put
keep-put c [] k r e h = ground arith
keep-put c ((j, x) ∷ d) k r e h = elim (Bool-cases (str_eq j k)) [
  | inl t ↦ rw t (ground (arith, keep-none c d))
  | inr t ↦ rw t (ground (arith, keep-put c d k r))
]

-- A batch of one task is over exactly if the task is.
is_all_subtasks_terminal-one :
    (s : SessionSubTaskState) (c : ℕ) (d : Dict SubTaskRecord) (k : String) (r : SubTaskRecord)
    → s.records ≡ put d k r
    → s.current_batch_id ≡ c + 1
    → r.batch_id ≡ c + 1
    → Entries (InTime c) d
    → is_all_subtasks_terminal s ≡ is_terminal_status r.status
unfolding is_all_subtasks_terminal
is_all_subtasks_terminal-one s c d k r p q e h =
    let one : keep (in_batch (some s.current_batch_id)) (values s.records) ≡ r ∷ [] =
      simp (p, q) (keep-put c d k r e h) in
    ap (λ rs. not_empty rs && all (λ x. is_terminal_status x.status) rs) one ∙ ground arith

abbrev pub new_task : String → String → ℕ → ℕ → SubTaskRecord
new_task k instruction t b = record {
  sub_session_id = k;
  instruction = instruction;
  status = "running";
  start_time = t;
  summary = "";
  batch_id = b;
}

not_empty-over :
    (s : SessionSubTaskState) → is_all_subtasks_terminal s ≡ true → not_empty s.records ≡ true
unfolding is_all_subtasks_terminal
not_empty-over s h = go s.records h
  where
    go :
        (d : Dict SubTaskRecord)
        → (not_empty (keep (in_batch (some s.current_batch_id)) (values d))
            && all
                (λ r. is_terminal_status r.status)
                (keep (in_batch (some s.current_batch_id)) (values d)))
          ≡ true
        → not_empty d ≡ true
    go [] e = cc
    go (x ∷ d) e = refl

open_batch-over :
    (s : SessionSubTaskState)
    → is_all_subtasks_terminal s ≡ true
    → open_batch s ≡ s.current_batch_id + 1
unfolding open_batch is_all_subtasks_terminal
open_batch-over s h = ground arith

-- The state that the registration leaves, where the current batch is over.
pub register_task_over :
    (s : SessionSubTaskState) (k instruction : String) (t : ℕ)
    → is_all_subtasks_terminal s ≡ true
    → let s' = register_task s k instruction t in
      (s'.records ≡ put s.records k (new_task k instruction t (s.current_batch_id + 1)))
      × (s'.current_batch_id ≡ s.current_batch_id + 1)
      × (has_aggregation_emitted s' ≡ false)
unfolding register_task has_aggregation_emitted
register_task_over s k instruction t h =
    let e = not_empty-over s h in
    let o = open_batch-over s h in
    simp (e, o)
      (
        refl,
        refl,
        ground (
          arith,
          mem_batch-discard s.emitted_batch_ids (s.current_batch_id + 1) (s.current_batch_id + 1),
        ),
      )

-- A state that still has the task as it was registered: once the task is over, so is its batch.
pub mark_terminal-closes :
    (s m : SessionSubTaskState) (k instruction status summary : String) (t : ℕ)
    → IsWellFormed s
    → m.records ≡ put s.records k (new_task k instruction t (s.current_batch_id + 1))
    → m.current_batch_id ≡ s.current_batch_id + 1
    → is_all_subtasks_terminal (mark_terminal m k status summary).0 ≡ true
mark_terminal-closes s m k instruction status summary t w p q =
    let old = new_task k instruction t (s.current_batch_id + 1) in
    let new : SubTaskRecord = record old {
      status = normalize_status status;
      summary = or_text summary "";
    } in
    let found : get m.records k ≡ some old = rw p (get-put_self s.records k old) in
    let bounded =
      Entries-map (Fits s.current_batch_id) (InTime s.current_batch_id) s.records (λ j r f. f.1)
        w.fits in
    rw (mark_terminal_running m k status summary old found (unfold is_terminal_status in refl)) (
      is_all_subtasks_terminal-one (record m { records = put m.records k new }) s.current_batch_id
        s.records k new (ap (λ d. put d k new) p ∙ put-put s.records k old new) q refl bounded
      ∙ normalize_status-IsOver status)

-- A task registered in a session whose current batch is over gets a batch of its own: the session
-- waits for it again, no barrier counts as sent for that batch, and the session is ready as soon as
-- that one task is marked terminal, with whatever status.
pub register_task_opens :
    (s : SessionSubTaskState) (k instruction status summary : String) (t : ℕ)
    → IsWellFormed s
    → is_all_subtasks_terminal s ≡ true
    → let s' = register_task s k instruction t in
      (is_all_subtasks_terminal s' ≡ false)
      × (has_aggregation_emitted s' ≡ false)
      × (is_all_subtasks_terminal (mark_terminal s' k status summary).0 ≡ true)
register_task_opens s k instruction status summary t w h =
    let r = register_task_over s k instruction t h in
    let new = new_task k instruction t (s.current_batch_id + 1) in
    let bounded =
      Entries-map (Fits s.current_batch_id) (InTime s.current_batch_id) s.records (λ j x f. f.1)
        w.fits in
    (
      is_all_subtasks_terminal-one (register_task s k instruction t) s.current_batch_id s.records k
            new r.0 r.1 refl bounded
          ∙ unfold is_terminal_status in refl,
      r.2,
      mark_terminal-closes s (register_task s k instruction t) k instruction status summary t w r.0
          r.1,
    )
