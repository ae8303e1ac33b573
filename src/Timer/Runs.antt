-- ===== src/Timer/Runs.antt =====
-- Runs of the table of timer jobs: what holds of every active job, and what a result does to a job
-- that was cancelled meanwhile.
use fairy_claw.Base.{
  ℕ, ◌<◌, String, ◌≡◌, Bool, true, false, Option, none, some, List, [], ◌∷◌, inl, inr, arith,
  Option-cases,
}
use fairy_claw.Base.Dict.{Dict, get, put, Entries, Entries-put, get-Entries}
use fairy_claw.Cron.{Civil}
use fairy_claw.Timer.{
  TimerJobModel, TimerJobStatus, failed, is_open, reached, update_row, next_run, terminal_status,
  result_row, mark_job_result, cancel, claim_row, claim_rows, claim_due_jobs, create,
}
use fairy_claw.Timer.Create.{create_job, job, ℤ}

-- An active job has an open status, runs left and fewer than three failures in a row.
abbrev pub IsBounded : String → TimerJobModel → Type 0
IsBounded id m =
    m.active ≡ true
    → (is_open m.status ≡ true) × (reached m.max_runs m.run_count ≡ false) × (m.failure_count < 3)

update_row-inactive :
    (m : TimerJobModel) (now : ℕ) (next : Option ℕ) (success : Bool) (s : TimerJobStatus)
    (error : String)
    → (update_row m now next success (some s) error).active ≡ false
unfolding update_row
update_row-inactive m now next success s error = ground arith

update_row-IsBounded :
    (id : String) (m : TimerJobModel) (now t : ℕ) (success : Bool) (error : String)
    → terminal_status m now success ≡ none
    → IsBounded id m
    → IsBounded id (update_row m now (some t) success none error)
unfolding update_row terminal_status
update_row-IsBounded id m now t success error h b a = ground arith

settled-IsBounded :
    (id : String) (m : TimerJobModel) (now : ℕ) (next : Option ℕ) (success : Bool)
    (s : TimerJobStatus) (error : String)
    → IsBounded id (update_row m now next success (some s) error)
settled-IsBounded id m now next success s error a =
    absurd (cc (a, update_row-inactive m now next success s error))

module _ (calendar : ℕ → Civil) (window : ℕ) where
  -- What a result leaves, unless it raises.
  abbrev Left : String → Option TimerJobModel → Type 0
  Left id none = Unit
  Left id (some m) = IsBounded id m

  result_row-IsBounded :
      (id : String) (m : TimerJobModel) (now : ℕ) (success : Bool) (error : String)
      → IsBounded id m
      → Left id (result_row calendar window m now success error)
  unfolding result_row
  result_row-IsBounded id m now success error b =
      elim (Option-cases (terminal_status m now success)) [
        | inr (s, e) ↦ rw (e, result_row) (settled-IsBounded id m now none success s error)
        | inl e ↦ elim (Option-cases (next_run calendar window m now)) [
          | inl n ↦ rw (e, result_row, n) tt
          | inr (none, n) ↦ rw (e, result_row, n) (settled-IsBounded id m now none success failed _)
          | inr (some t, n) ↦
              rw (e, result_row, n) (update_row-IsBounded id m now t success error e b)
        ]
      ]

  -- The steps of the table: a job is added under a new id, or one of the other operations runs.
  pub data Step (d : Dict TimerJobModel) : Dict TimerJobModel → Type 0 where
    creates :
        (id : String) (m : TimerJobModel) (repr : String → String)
        (owner creator mode payload expr : String) (interval delay deadline max_runs : Option ℤ)
        (now : ℕ)
        → get d id ≡ none
        → create_job calendar window repr owner creator mode payload expr interval delay deadline
            max_runs now
          ≡ some (job m)
        → Step d (put d id m)
    claims :
        (now : ℕ) (worker : String) (limit stale : ℕ)
        → Step d (claim_due_jobs d now worker limit stale).0
    marks :
        (d' : Dict TimerJobModel) (id : String) (now : ℕ) (success : Bool) (error : String)
        → mark_job_result calendar window d id now success error ≡ some d'
        → Step d d'
    cancels : (id : String) (now : ℕ) → Step d (cancel d id now)

  pub data Reach : Dict TimerJobModel → Type 0 where
    begin : Reach []
    next : {d d' : Dict TimerJobModel} → Reach d → Step d d' → Reach d'

  create_job-IsBounded :
      (id : String) (m : TimerJobModel) (repr : String → String)
      (owner creator mode payload expr : String) (interval delay deadline max_runs : Option ℤ)
      (now : ℕ)
      → create_job calendar window repr owner creator mode payload expr interval delay deadline
          max_runs now
        ≡ some (job m)
      → IsBounded id m
  unfolding create_job create
  create_job-IsBounded id m repr owner creator mode payload expr interval delay deadline max_runs
        now h a =
      ground arith

  claim_rows-IsBounded :
      (d : Dict TimerJobModel) (now : ℕ) (worker : String) (ids : List String)
      → Entries IsBounded d
      → Entries IsBounded (claim_rows d now worker ids)
  unfolding claim_rows claim_row
  claim_rows-IsBounded d now worker [] b = b
  claim_rows-IsBounded d now worker (id ∷ ids) b = elim (Option-cases (get d id)) [
    | inl e ↦ rw (e, claim_rows) (claim_rows-IsBounded d now worker ids b)
    | inr (m, e) ↦
        let c : IsBounded id (claim_row now worker m) =
          λ a. ground (arith, get-Entries IsBounded d id b e a) in
        rw (e, claim_rows)
          (claim_rows-IsBounded (put d id (claim_row now worker m)) now worker ids
            (Entries-put IsBounded d id (claim_row now worker m) b c))
  ]

  cancel-IsBounded :
      (d : Dict TimerJobModel) (id : String) (now : ℕ)
      → Entries IsBounded d
      → Entries IsBounded (cancel d id now)
  unfolding cancel
  cancel-IsBounded d id now b = elim (Option-cases (get d id)) [
    | inl e ↦ rw (e, cancel) b
    | inr (m, e) ↦ rw (e, cancel) (Entries-put IsBounded d id _ b (λ a. cc))
  ]

  mark_job_result-IsBounded :
      (d d' : Dict TimerJobModel) (id : String) (now : ℕ) (success : Bool) (error : String)
      → mark_job_result calendar window d id now success error ≡ some d'
      → Entries IsBounded d
      → Entries IsBounded d'
  unfolding mark_job_result
  mark_job_result-IsBounded d d' id now success error h b = elim (Option-cases (get d id)) [
    | inl e ↦ let same : d ≡ d' = cc (rw (e, mark_job_result) at h) in rw (← same) b
    | inr (m, e) ↦ elim (Option-cases (result_row calendar window m now success error)) [
      | inl r ↦ absurd (cc (rw (e, mark_job_result, r) at h))
      | inr (m', r) ↦
          let same : put d id m' ≡ d' = cc (rw (e, mark_job_result, r) at h) in
          let l : IsBounded id m' =
            rw r at
              (result_row-IsBounded id m now success error (get-Entries IsBounded d id b e)) in
          rw (← same) (Entries-put IsBounded d id m' b l)
    ]
  ]

  Reach-IsBounded : {d : Dict TimerJobModel} → Reach d → Entries IsBounded d
  unfolding claim_due_jobs
  Reach-IsBounded begin = tt
  Reach-IsBounded
        (next {d} r (
          creates id m repr owner creator mode payload expr interval delay deadline max_runs now n
            h)) =
      Entries-put IsBounded d id m (Reach-IsBounded r) (
        create_job-IsBounded id m repr owner creator mode payload expr interval delay deadline
          max_runs now h)
  Reach-IsBounded (next {d} r (claims now worker limit stale)) =
      claim_rows-IsBounded d now worker _ (Reach-IsBounded r)
  Reach-IsBounded (next {d} r (marks d' id now success error h)) =
      mark_job_result-IsBounded d d' id now success error h (Reach-IsBounded r)
  Reach-IsBounded (next {d} r (cancels id now)) = cancel-IsBounded d id now (Reach-IsBounded r)

-- In every run of the table, a job that is active has runs left under its `max_runs`, fewer than
-- three failures in a row, and a status under which `claim_due_jobs` looks for it.
pub active_jobs_are_bounded :
    {calendar : ℕ → Civil} {window : ℕ} {d : Dict TimerJobModel} (id : String) (m : TimerJobModel)
    → Reach calendar window d
    → get d id ≡ some m
    → m.active ≡ true
    → (is_open m.status ≡ true) × (reached m.max_runs m.run_count ≡ false) × (m.failure_count < 3)
active_jobs_are_bounded {calendar} {window} {d} id m r e =
    get-Entries IsBounded d id (Reach-IsBounded calendar window r) e
