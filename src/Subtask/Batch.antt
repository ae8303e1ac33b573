-- ===== src/Subtask/Batch.antt =====
-- The batches of global_state.py: what holds of the records and of the barrier flags between calls.
use fairy_claw.Base.{
  ℕ, ◌+◌, ◌≤◌, String, ◌≡◌, refl, true, false, some, List, [], ◌∷◌, inl, inr, arith, or_text, lower,
  strip, keep, all, not_empty, Bool-cases, Option-cases, ◌==◌, if◌then◌else◌,
}
use fairy_claw.Base.Dict.{Dict, get, values, Entries, Entries-put, get-Entries}
use fairy_claw.Subtask.{
  SubTaskRecord, SessionSubTaskState, is_terminal_status, mem_batch, add_batch, discard_batch,
  in_batch, is_all_subtasks_terminal, open_batch, register_task, mark_terminal, normalize_status,
  empty_state,
}

pub mem_batch-discard :
    (cs : List ℕ) (b c : ℕ)
    → mem_batch c (discard_batch cs b) ≡ (if b == c then false else mem_batch c cs)
unfolding discard_batch
mem_batch-discard [] b c = ground arith
mem_batch-discard (d ∷ cs) b c = ground (arith, mem_batch-discard cs b c)

pub mem_batch-add :
    (cs : List ℕ) (b c : ℕ)
    → mem_batch c (add_batch cs b) ≡ (if b == c then true else mem_batch c cs)
unfolding add_batch
mem_batch-add cs b c = elim (Bool-cases (mem_batch b cs)) [
  | inl e ↦ rw e (ground arith)
  | inr e ↦ rw e (ground arith)
]

-- A record lies under its own id, in no later batch than the current one, and only tasks of the
-- current batch can still run.
abbrev pub Fits : ℕ → String → SubTaskRecord → Type 0
Fits current k r =
    (r.sub_session_id ≡ k)
    × (r.batch_id ≤ current)
    × (is_terminal_status r.status ≡ false → r.batch_id ≡ current)

pub record IsWellFormed (s : SessionSubTaskState) : Type 0 where
  pub fits : Entries (Fits s.current_batch_id) s.records
  pub emitted_bounded : (b : ℕ) → mem_batch b s.emitted_batch_ids ≡ true → b ≤ s.current_batch_id
  pub notified_emitted :
      s.barrier_notified ≡ true → mem_batch s.current_batch_id s.emitted_batch_ids ≡ true

abbrev pub IsOver : String → SubTaskRecord → Type 0
IsOver k r = is_terminal_status r.status ≡ true

-- If every record of the current batch is terminal, every record is.
keep-IsOver :
    (current : ℕ) (d : Dict SubTaskRecord)
    → Entries (Fits current) d
    → all (λ r. is_terminal_status r.status) (keep (in_batch (some current)) (values d)) ≡ true
    → Entries IsOver d
unfolding in_batch
keep-IsOver current [] f h = tt
keep-IsOver current ((k, r) ∷ d) f h = elim (Bool-cases (r.batch_id == current)) [
  | inl e ↦ (ground arith, keep-IsOver current d f.1 (ground arith))
  | inr e ↦ (ground (arith, f.0.2), keep-IsOver current d f.1 (ground arith))
]

-- A session whose current batch is over has no task that can still run, in any batch.
pub is_all_subtasks_terminal-IsOver :
    (s : SessionSubTaskState)
    → IsWellFormed s
    → is_all_subtasks_terminal s ≡ true
    → Entries IsOver s.records
unfolding is_all_subtasks_terminal
is_all_subtasks_terminal-IsOver s w h =
    keep-IsOver s.current_batch_id s.records w.fits (ground arith)

later-Fits :
    (b c : ℕ) (d : Dict SubTaskRecord)
    → b ≤ c
    → Entries (Fits b) d
    → Entries IsOver d
    → Entries (Fits c) d
later-Fits b c [] le f o = tt
later-Fits b c ((k, r) ∷ d) le f o =
    ((f.0.0, omega (arith, f.0.1), λ e. ground arith), later-Fits b c d le f.1 o.1)

pub open_batch-le : (s : SessionSubTaskState) → s.current_batch_id ≤ open_batch s
unfolding open_batch
open_batch-le s = ground arith

pub open_batch-Fits :
    (s : SessionSubTaskState) → IsWellFormed s → Entries (Fits (open_batch s)) s.records
unfolding open_batch is_all_subtasks_terminal
open_batch-Fits s w = elim (Bool-cases (is_all_subtasks_terminal s)) [
  | inl e ↦ rw e (
      later-Fits s.current_batch_id (s.current_batch_id + 1) s.records (omega arith) w.fits
        (is_all_subtasks_terminal-IsOver s w e))
  | inr e ↦ rw e w.fits
]

-- Taking a batch off the emitted ones and moving to it keeps the two facts about the flags.
pub rearm-bounded :
    (cs : List ℕ) (b c n : ℕ)
    → ((d : ℕ) → mem_batch d cs ≡ true → d ≤ b)
    → b ≤ n
    → (d : ℕ) → mem_batch d (discard_batch cs c) ≡ true
    → d ≤ n
rearm-bounded cs b c n h le d m = ground (arith, mem_batch-discard cs c d, h d)

-- A new state is well formed.
pub empty_state-IsWellFormed : IsWellFormed empty_state
empty_state-IsWellFormed = record {
  fits = tt;
  emitted_bounded = λ b e. cc;
  notified_emitted = λ e. cc;
}

pub register_task-IsWellFormed :
    (s : SessionSubTaskState) (k instruction : String) (t : ℕ)
    → IsWellFormed s
    → IsWellFormed (register_task s k instruction t)
unfolding register_task
register_task-IsWellFormed s k instruction t w = elim (Bool-cases (not_empty s.records)) [
  | inl e ↦ rw e (record {
    fits =
        Entries-put (Fits (open_batch s)) s.records k _ (open_batch-Fits s w)
          (refl, omega arith, λ _. refl);
    emitted_bounded =
        rearm-bounded s.emitted_batch_ids s.current_batch_id (open_batch s) (open_batch s)
          w.emitted_bounded (open_batch-le s);
    notified_emitted = λ n. cc;
  })
  | inr e ↦ rw e (record {
    fits =
        Entries-put (Fits s.current_batch_id) s.records k _ w.fits (refl, omega arith, λ _. refl);
    emitted_bounded =
        rearm-bounded s.emitted_batch_ids s.current_batch_id s.current_batch_id s.current_batch_id
          w.emitted_bounded (omega arith);
    notified_emitted = λ n. cc;
  })
]

completed-IsOver : is_terminal_status "completed" ≡ true
unfolding is_terminal_status
completed-IsOver = refl

if-IsOver :
    (n : String) → is_terminal_status (if is_terminal_status n then n else "completed") ≡ true
if-IsOver n = elim (Bool-cases (is_terminal_status n)) [
  | inl e ↦ rw e e
  | inr e ↦ rw e completed-IsOver
]

pub normalize_status-IsOver :
    (status : String) → is_terminal_status (normalize_status status) ≡ true
unfolding normalize_status
normalize_status-IsOver status = if-IsOver (or_text (lower (strip status)) "completed")

pub mark_terminal-IsWellFormed :
    (s : SessionSubTaskState) (k status summary : String)
    → IsWellFormed s
    → IsWellFormed (mark_terminal s k status summary).0
unfolding mark_terminal
mark_terminal-IsWellFormed s k status summary w = elim (Option-cases (get s.records k)) [
  | inl e ↦ rw (e, mark_terminal) w
  | inr (r, e) ↦ elim (Bool-cases (is_terminal_status r.status)) [
    | inl t ↦ rw (e, mark_terminal, t) w
    | inr t ↦
        let f = get-Entries (Fits s.current_batch_id) s.records k w.fits e in
        rw (e, mark_terminal, t)
          (record {
            fits =
                Entries-put (Fits s.current_batch_id) s.records k _ w.fits
                  (f.0, f.1, λ n. absurd (ground (arith, normalize_status-IsOver status)));
            emitted_bounded = w.emitted_bounded;
            notified_emitted = w.notified_emitted;
          })
  ]
]
