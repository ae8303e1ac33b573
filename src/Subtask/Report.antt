-- ===== src/Subtask/Report.antt =====
-- `get_aggregated_subtask_results` and `resolve_task_id` of global_state.py.
use fairy_claw.Base.{
  ℕ, ◌+◌, ◌≤◌, ◌≡◌, refl, Bool, true, none, some, List, [], ◌∷◌, inl, inr, arith, length, keep, all,
  length-keep-le, Bool-cases, if◌then◌else◌,
}
use fairy_claw.Subtask.{
  SubTaskRecord, SessionSubTaskState, is_terminal_status, list_records, is_all_subtasks_terminal,
  Aggregate, tally, tally_all, get_aggregated_subtask_results,
}

abbrev pub ended : Aggregate → ℕ
ended a = a.completed + a.failed + a.cancelled

abbrev over : SubTaskRecord → Bool
over r = is_terminal_status r.status

ended-tally :
    (a : Aggregate) (r : SubTaskRecord) → ended (tally a r) ≡ ended a + (if over r then 1 else 0)
unfolding tally is_terminal_status
ended-tally a r = ground arith

total-tally : (a : Aggregate) (r : SubTaskRecord) → (tally a r).total ≡ a.total
unfolding tally
total-tally a r = ground arith

ended-tally_all :
    (rs : List SubTaskRecord) (a : Aggregate)
    → (ended (tally_all a rs) ≡ ended a + length (keep over rs))
      × ((tally_all a rs).total ≡ a.total)
unfolding tally_all
ended-tally_all [] a = (omega arith, refl)
ended-tally_all (r ∷ rs) a = elim (Bool-cases (over r)) [
  | inl e ↦ rw e (ground (arith, ended-tally_all rs (tally a r), ended-tally a r, total-tally a r))
  | inr e ↦ rw e (ground (arith, ended-tally_all rs (tally a r), ended-tally a r, total-tally a r))
]

length-keep-all : (rs : List SubTaskRecord) → all over rs ≡ true → length (keep over rs) ≡ length rs
length-keep-all [] h = refl
length-keep-all (r ∷ rs) h = ground (arith, length-keep-all rs)

abbrev start : List SubTaskRecord → Aggregate
start rs = record { total = length rs; completed = 0; failed = 0; cancelled = 0; summaries = [] }

tally_all_counts :
    (rs : List SubTaskRecord)
    → let a = tally_all (start rs) rs in
      (a.total ≡ length rs) × (ended a ≤ a.total) × (all over rs ≡ true → ended a ≡ a.total)
tally_all_counts rs =
    let t = ended-tally_all rs (start rs) in
    (
      t.1,
      omega (arith, t.0, t.1, length-keep-le over rs),
      λ h. omega (arith, t.0, t.1, length-keep-all rs h),
    )

-- The counters of the aggregate: `total` is the number of records of the current batch, the three
-- terminal counters never add up to more, and once the batch is over they add up to it.
pub aggregate_counts :
    (s : SessionSubTaskState)
    → let a = get_aggregated_subtask_results s none in
      (a.total ≡ length (list_records s (some s.current_batch_id)))
      × (a.completed + a.failed + a.cancelled ≤ a.total)
      × (is_all_subtasks_terminal s ≡ true → a.completed + a.failed + a.cancelled ≡ a.total)
unfolding get_aggregated_subtask_results is_all_subtasks_terminal
aggregate_counts s =
    let c = tally_all_counts (list_records s (some s.current_batch_id)) in
    (c.0, c.1, λ h. c.2 (ground arith))
