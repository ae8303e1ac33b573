-- ===== src/Timer/Results.antt =====
-- What `mark_job_result` of timer_runtime_store.py does to one job.
use fairy_claw.Base.{
  ℕ, ◌+◌, ◌≤◌, String, ◌≡◌, refl, Bool, true, false, none, some, inl, inr, arith, Option-cases,
  if◌then◌else◌, or_text,
}
use fairy_claw.Base.Dict.{Dict, get, put, get-put_self}
use fairy_claw.Cron.{Civil}
use fairy_claw.Timer.{
  TimerJobModel, TimerJobStatus, running, failed, cancelled, heartbeat, reached, update_row,
  next_run, terminal_status, interval_of, result_row, mark_job_result, cancel,
}

-- The row that a result leaves: one more run, no claim, the failures in a row counted, and an end to
-- the job if its runs are used up, its deadline has come or three runs in a row have failed.
Counted : TimerJobModel → ℕ → Bool → TimerJobModel → Type 0
Counted m now success m' =
    (m'.run_count ≡ m.run_count + 1)
    × (m'.failure_count ≡ (if success then 0 else m.failure_count + 1))
    × (m'.claimed_at ≡ none)
    × (reached m.max_runs m'.run_count ≡ true → m'.active ≡ false)
    × (reached m.deadline_at now ≡ true → m'.active ≡ false)
    × (3 ≤ m'.failure_count → (m'.active ≡ false) × (m'.status ≡ failed))
    × (m'.active ≡ true → m.active ≡ true)

update_row-ends :
    (m : TimerJobModel) (now : ℕ) (success : Bool) (s : TimerJobStatus) (error : String)
    → (terminal_status m now success ≡ some s)
    → Counted m now success (update_row m now none success (some s) error)
unfolding Counted update_row terminal_status
update_row-ends m now success s error h = ground arith

update_row-fails :
    (m : TimerJobModel) (now : ℕ) (success : Bool) (error : String)
    → Counted m now success (update_row m now none success (some failed) error)
unfolding Counted update_row
update_row-fails m now success error = ground arith

update_row-goes_on :
    (m : TimerJobModel) (now t : ℕ) (success : Bool) (error : String)
    → terminal_status m now success ≡ none
    → Counted m now success (update_row m now (some t) success none error)
unfolding Counted update_row terminal_status
update_row-goes_on m now t success error h = ground arith

result_row-Counted :
    (calendar : ℕ → Civil) (window : ℕ) (m m' : TimerJobModel) (now : ℕ) (success : Bool)
    (error : String)
    → result_row calendar window m now success error ≡ some m'
    → Counted m now success m'
unfolding result_row
result_row-Counted calendar window m m' now success error h =
    elim (Option-cases (terminal_status m now success)) [
      | inr (s, e) ↦
          let q : update_row m now none success (some s) error ≡ m' =
            cc (rw (e, result_row) at h) in
          rw (← q) (update_row-ends m now success s error e)
      | inl e ↦ elim (Option-cases (next_run calendar window m now)) [
        | inl n ↦ absurd (cc (rw (e, result_row, n) at h))
        | inr (none, n) ↦
            let q : update_row m now none success (some failed)
                  (or_text error "cron expression has no upcoming fire time.")
                ≡ m' =
              cc (rw (e, result_row, n) at h) in
            rw (← q) (update_row-fails m now success _)
        | inr (some t, n) ↦
            let q : update_row m now (some t) success none error ≡ m' =
              cc (rw (e, result_row, n) at h) in
            rw (← q) (update_row-goes_on m now t success error e)
      ]
    ]

-- A result that does not raise counts one run of its job and releases its claim; it ends the job as
-- soon as the runs are used up, the deadline has come, or three runs in a row have failed, in which
-- case the status is `failed`; and it never makes a job active again.
pub mark_job_result_counts :
    (calendar : ℕ → Civil) (window : ℕ) (d d' : Dict TimerJobModel) (id : String)
    (m : TimerJobModel) (now : ℕ) (success : Bool) (error : String)
    → get d id ≡ some m
    → mark_job_result calendar window d id now success error ≡ some d'
    → (m' : TimerJobModel) × (get d' id ≡ some m')
      × (m'.run_count ≡ m.run_count + 1)
      × (m'.failure_count ≡ (if success then 0 else m.failure_count + 1))
      × (m'.claimed_at ≡ none)
      × (reached m.max_runs m'.run_count ≡ true → m'.active ≡ false)
      × (reached m.deadline_at now ≡ true → m'.active ≡ false)
      × (3 ≤ m'.failure_count → (m'.active ≡ false) × (m'.status ≡ failed))
      × (m'.active ≡ true → m.active ≡ true)
unfolding mark_job_result Counted
mark_job_result_counts calendar window d d' id m now success error e h =
    elim (Option-cases (result_row calendar window m now success error)) [
      | inl r ↦ absurd (cc (rw (e, mark_job_result, r) at h))
      | inr (m', r) ↦
          let q : put d id m' ≡ d' = cc (rw (e, mark_job_result, r) at h) in
          let (c1, c2, c3, c4, c5, c6, c7) =
            result_row-Counted calendar window m m' now success error r in
          (m', rw (← q) (get-put_self d id m'), c1, c2, c3, c4, c5, c6, c7)
    ]

-- The row that `cancel` leaves.
abbrev cancelled_row : TimerJobModel → ℕ → TimerJobModel
cancelled_row m now = record m {
  status = cancelled;
  active = false;
  claimed_by = none;
  claimed_at = none;
  updated_at = now;
}

next_run-heartbeat :
    (calendar : ℕ → Civil) (window : ℕ) (m : TimerJobModel) (now : ℕ)
    → m.mode ≡ heartbeat
    → next_run calendar window m now ≡ some (some (now + interval_of m.interval_seconds))
unfolding next_run
next_run-heartbeat calendar window m now q = ground (arith, q)

heartbeat_goes_on :
    (calendar : ℕ → Civil) (window : ℕ) (m : TimerJobModel) (now : ℕ) (success : Bool)
    (error : String)
    → m.mode ≡ heartbeat
    → terminal_status m now success ≡ none
    → (t : ℕ) × (result_row calendar window m now success error
        ≡ some (update_row m now (some t) success none error))
unfolding result_row
heartbeat_goes_on calendar window m now success error q t = (
  now + interval_of m.interval_seconds,
  rw (t, result_row, next_run-heartbeat calendar window m now q) refl,
)

marks_put :
    (calendar : ℕ → Civil) (window : ℕ) (d : Dict TimerJobModel) (id : String)
    (m m' : TimerJobModel) (now : ℕ) (success : Bool) (error : String)
    → result_row calendar window m now success error ≡ some m'
    → mark_job_result calendar window (put d id m) id now success error
      ≡ some (put (put d id m) id m')
unfolding mark_job_result
marks_put calendar window d id m m' now success error h =
    rw (get-put_self d id m, mark_job_result, h) refl

inactive_reads_running :
    (m : TimerJobModel) (now t : ℕ) (success : Bool) (error : String)
    → m.active ≡ false
    → let m' = update_row m now (some t) success none error in
      (m'.status ≡ running) × (m'.active ≡ false)
unfolding update_row
inactive_reads_running m now t success error h = ground arith

-- A heartbeat job that is cancelled while it runs reads as running again once its result comes in,
-- where the run left nothing to end it: its status is `running`, and it is not active.
pub cancelled_job_reads_running :
    (calendar : ℕ → Civil) (window : ℕ) (d : Dict TimerJobModel) (id : String) (m : TimerJobModel)
    (earlier now : ℕ) (success : Bool) (error : String)
    → get d id ≡ some m
    → m.mode ≡ heartbeat
    → terminal_status m now success ≡ none
    → (d' : Dict TimerJobModel) × (mark_job_result calendar window
          (cancel d id earlier)
          id
          now
          success
          error
        ≡ some d')
      × (m' : TimerJobModel) × (get d' id ≡ some m')
      × (m'.status ≡ running)
      × (m'.active ≡ false)
unfolding cancel terminal_status
cancelled_job_reads_running calendar window d id m earlier now success error e q t =
    let c = cancelled_row m earlier in
    let (next, h) = heartbeat_goes_on calendar window c now success error q t in
    let m' = update_row c now (some next) success none error in
    (
      put (put d id c) id m',
      rw (e, cancel) (marks_put calendar window d id c m' now success error h),
      m',
      get-put_self (put d id c) id m',
      (inactive_reads_running c now next success error refl).0,
      (inactive_reads_running c now next success error refl).1,
    )
