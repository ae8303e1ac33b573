-- ===== src/Timer.antt =====
-- Timer jobs: `TimerJobRepository` of fairyclaw/infrastructure/database/repository.py, the table of
-- jobs, and `TimerRuntimeStore` of fairyclaw/core/runtime/timer_runtime_store.py, which holds its lock
-- over each call of it. Times are in seconds; the clock, the id of a new job, the owner that
-- `resolve_owner_session_id` finds and the calendar are arguments.
pub mod Create
pub mod Claims
pub mod Runs
pub mod Results
pub mod Tests
use fairy_claw.Base.{
  ℕ, zero, suc, ◌+◌, max, String, Bool, true, false, not, ◌&&◌, ◌||◌, Option, none, some, List, [],
  ◌∷◌, if◌then◌else◌, ltb, leb, append, ◌==◌, str_eq, strip, lower, or_text, nonempty, keep, take,
  is_some,
}
use fairy_claw.Base.Dict.{Dict, get, put, keys}
use fairy_claw.Cron.{Civil, Check, valid, invalid, parse_cron_5, next_fire_at_for_cron}

pub data TimerMode : Type 0 where
  heartbeat cron : TimerMode

pub data TimerJobStatus : Type 0 where
  pending running paused completed failed cancelled : TimerJobStatus

-- A row of the table; the key of the row is its `id`.
pub record TimerJobModel : Type 0 where
  pub owner_session_id : String
  pub creator_session_id : String
  pub mode : TimerMode
  pub cron_expr : Option String
  pub interval_seconds : Option ℕ
  pub payload : String
  pub status : TimerJobStatus
  pub next_fire_at : ℕ
  pub deadline_at : Option ℕ
  pub max_runs : Option ℕ
  pub run_count : ℕ
  pub failure_count : ℕ
  pub last_error : Option String
  pub claimed_by : Option String
  pub claimed_at : Option ℕ
  pub active : Bool
  pub created_at : ℕ
  pub updated_at : ℕ

-- The row that `create` adds, at a time.
unfoldable pub create :
    String
    → String
    → TimerMode
    → ℕ
    → String
    → Option String
    → Option ℕ
    → Option ℕ
    → Option ℕ
    → ℕ
    → TimerJobModel
create owner creator mode next_fire_at payload cron_expr interval_seconds deadline_at max_runs now =
    record {
      owner_session_id = owner;
      creator_session_id = creator;
      mode = mode;
      cron_expr = cron_expr;
      interval_seconds = interval_seconds;
      payload = payload;
      status = pending;
      next_fire_at = next_fire_at;
      deadline_at = deadline_at;
      max_runs = max_runs;
      run_count = 0;
      failure_count = 0;
      last_error = none;
      claimed_by = none;
      claimed_at = none;
      active = true;
      created_at = now;
      updated_at = now;
    }

abbrev pub is_open : TimerJobStatus → Bool
is_open pending = true
is_open running = true
is_open status = false

-- `claimed_at IS NULL OR claimed_at <= stale_at`, with `stale_at = now - stale`.
abbrev pub is_claimable : Option ℕ → ℕ → ℕ → Bool
is_claimable none now stale = true
is_claimable (some t) now stale = leb (t + stale) now

-- The rows that the query of `claim_due_jobs` selects, by id.
unfoldable pub is_due : Dict TimerJobModel → ℕ → ℕ → String → Bool
is_due d now stale id = elim (get d id) [
  | none ↦ false
  | some m ↦
      m.active && is_open m.status && leb m.next_fire_at now && is_claimable m.claimed_at now stale
]

fire_time : Dict TimerJobModel → String → ℕ
fire_time d id = elim (get d id) [ none ↦ 0 | some m ↦ m.next_fire_at ]

-- `ORDER BY next_fire_at ASC`, rows of the same time in the order of the table.
insert_by_fire : Dict TimerJobModel → String → List String → List String
unfolding fire_time
insert_by_fire d id [] = id ∷ []
insert_by_fire d id (x ∷ xs) =
    let rest = insert_by_fire d id xs in
    if leb (fire_time d id) (fire_time d x) then id ∷ x ∷ xs else x ∷ rest

order_by_fire : Dict TimerJobModel → List String → List String
unfolding insert_by_fire
order_by_fire d [] = []
order_by_fire d (id ∷ ids) = insert_by_fire d id (order_by_fire d ids)

claim_row : ℕ → String → TimerJobModel → TimerJobModel
claim_row now worker m = record m {
  claimed_by = some worker;
  claimed_at = some now;
  status = elim m.status [ pending ↦ running | s ↦ s ];
  updated_at = now;
}

claim_rows : Dict TimerJobModel → ℕ → String → List String → Dict TimerJobModel
unfolding claim_row
claim_rows d now worker [] = d
claim_rows d now worker (id ∷ ids) = elim (get d id) [
  | none ↦ claim_rows d now worker ids
  | some m ↦ claim_rows (put d id (claim_row now worker m)) now worker ids
]

-- The table and the ids of the claimed rows, at most `max(1, limit)` of them.
unfoldable pub claim_due_jobs :
    Dict TimerJobModel → ℕ → String → ℕ → ℕ → Dict TimerJobModel × List String
unfolding claim_rows order_by_fire
claim_due_jobs d now worker limit stale_claim_after_seconds =
    let due = keep (is_due d now (max 1 stale_claim_after_seconds)) (keys d) in
    let rows = take (max 1 limit) (order_by_fire d due) in (claim_rows d now worker rows, rows)

abbrev pub reached : Option ℕ → ℕ → Bool
reached none n = false
reached (some limit) n = leb limit n

abbrev error_of : String → Option String
error_of e = if nonempty (strip e) then some (strip e) else none

-- `status` and `active` as they are set first, with the time of the next run.
settle : TimerJobModel → Option TimerJobStatus → Option ℕ → TimerJobModel
settle m (some s) next = record m { status = s; active = false }
settle m none none = record m { status = completed; active = false }
settle m none (some t) = record m { status = running; next_fire_at = t }

complete_if : Bool → TimerJobModel → TimerJobModel
complete_if b m = if b && m.active then record m { status = completed; active = false } else m

-- `update_after_run`, on the row that it finds.
unfoldable pub update_row :
    TimerJobModel → ℕ → Option ℕ → Bool → Option TimerJobStatus → String → TimerJobModel
unfolding settle complete_if
update_row m now next_fire_at success terminal_status last_error =
    let counted = record m {
      run_count = m.run_count + 1;
      failure_count = if success then 0 else m.failure_count + 1;
      last_error = error_of last_error;
      claimed_by = none;
      claimed_at = none;
    } in
    let settled = settle counted terminal_status next_fire_at in
    let in_time = complete_if (reached settled.deadline_at now) settled in
    let bounded = complete_if (reached in_time.max_runs in_time.run_count) in_time in
    record bounded { updated_at = now }

unfoldable pub cancel : Dict TimerJobModel → String → ℕ → Dict TimerJobModel
cancel d id now = elim (get d id) [
  | none ↦ d
  | some m ↦ put d id (record m {
    status = cancelled;
    active = false;
    claimed_by = none;
    claimed_at = none;
    updated_at = now;
  })
]

-- The status that `mark_job_result` asks for before it looks for the next run.
unfoldable pub terminal_status : TimerJobModel → ℕ → Bool → Option TimerJobStatus
terminal_status m now success =
    if not success && leb 3 (m.failure_count + 1)
    then some failed
    else if reached m.max_runs (m.run_count + 1)
    then some completed
    else if reached m.deadline_at now
    then some completed
    else none

-- `max(2, int(current.interval_seconds or 2))`
abbrev pub interval_of : Option ℕ → ℕ
interval_of none = 2
interval_of (some n) = max 2 n

-- The time of the next run: a heartbeat always has one, a cron expression may have none within the
-- search, or raise.
unfoldable pub next_run : (ℕ → Civil) → ℕ → TimerJobModel → ℕ → Option (Option ℕ)
next_run calendar max_minutes_scan m now = elim m.mode [
  | heartbeat ↦ some (some (now + interval_of m.interval_seconds))
  | cron ↦
      next_fire_at_for_cron calendar (elim m.cron_expr [ none ↦ "" | some e ↦ strip e ]) now
        max_minutes_scan
]

-- `mark_job_result` on a row; `none` where the search for the next time raises.
unfoldable pub result_row :
    (ℕ → Civil) → ℕ → TimerJobModel → ℕ → Bool → String → Option TimerJobModel
unfolding terminal_status
result_row calendar max_minutes_scan m now success error_message =
    elim (terminal_status m now success) [
      | some s ↦ some (update_row m now none success (some s) error_message)
      | none ↦ elim (next_run calendar max_minutes_scan m now) [
        | none ↦ none
        | some (some t) ↦ some (update_row m now (some t) success none error_message)
        | some none ↦ some (
            update_row m now none success (some failed)
              (or_text error_message "cron expression has no upcoming fire time."))
      ]
    ]

unfoldable pub mark_job_result :
    (ℕ → Civil) → ℕ → Dict TimerJobModel → String → ℕ → Bool → String → Option (Dict TimerJobModel)
unfolding result_row
mark_job_result calendar max_minutes_scan d id now success error_message = elim (get d id) [
  | none ↦ some d
  | some m ↦ elim (result_row calendar max_minutes_scan m now success error_message) [
    | none ↦ none
    | some m' ↦ some (put d id m')
  ]
]
