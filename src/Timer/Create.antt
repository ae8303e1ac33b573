-- ===== src/Timer/Create.antt =====
-- `create_job` of fairyclaw/core/runtime/timer_runtime_store.py, with the checks of its arguments.
use fairy_claw.Base.{
  ℕ, ◌+◌, max, String, Bool, false, not, ◌||◌, Option, none, some, if◌then◌else◌, ltb, append, ◌==◌,
  str_eq, strip, lower, or_text, nonempty,
}
use fairy_claw.Cron.{Civil, valid, invalid, parse_cron_5, next_fire_at_for_cron}
use fairy_claw.Timer.{TimerJobModel, heartbeat, cron, create}

-- An `int` argument, and `max(0, n)` of it.
pub data ℤ : Type 0 where
  pos negsuc : ℕ → ℤ

abbrev pub natural : ℤ → ℕ
natural (pos n) = n
natural (negsuc n) = 0

abbrev pub seconds : Option ℤ → ℕ
seconds none = 0
seconds (some n) = natural n

-- `value is not None and int(value) <= 0`
abbrev pub is_nonpositive : Option ℤ → Bool
is_nonpositive none = false
is_nonpositive (some n) = natural n == 0

pub data Created : Type 0 where
  job : TimerJobModel → Created
  refused : String → Created

-- `create_job`; `none` where the search for the next time raises. `repr` is Python's.
unfoldable pub create_job :
    (ℕ → Civil)
    → ℕ
    → (String → String)
    → String
    → String
    → String
    → String
    → String
    → Option ℤ
    → Option ℤ
    → Option ℤ
    → Option ℤ
    → ℕ
    → Option Created
create_job calendar max_minutes_scan repr owner creator mode payload cron_expr interval_seconds
      start_delay_seconds deadline_seconds max_runs now =
    let normalized_mode = lower (strip mode) in
    let deadline_at : Option ℕ = elim deadline_seconds [
      | none ↦ none
      | some n ↦ some (now + natural n)
    ] in
    let max_runs_value : Option ℕ = elim max_runs [ none ↦ none | some n ↦ some (natural n) ] in
    let delay = seconds start_delay_seconds in
    let interval = seconds interval_seconds in
    if not (str_eq normalized_mode "heartbeat" || str_eq normalized_mode "cron")
    then some (refused "mode must be heartbeat or cron.")
    else if not (nonempty owner)
    then some (
        refused
          (append "Cannot resolve owner session for creator session " (append (repr creator) ".")))
    else if is_nonpositive deadline_seconds
    then some (refused "deadline_seconds must be > 0 when provided.")
    else if is_nonpositive max_runs
    then some (refused "max_runs must be > 0 when provided.")
    else if str_eq normalized_mode "heartbeat"
    then if ltb interval 2
      then some (refused "heartbeat interval_seconds must be >= 2.")
      else some (
          job (
            create owner creator heartbeat (now + max 1 (if delay == 0 then interval else delay))
              payload none (some interval) deadline_at max_runs_value now))
    else elim (parse_cron_5 (strip cron_expr)) [
      | invalid err ↦ some (refused (or_text err "invalid cron expression."))
      | valid ↦
          elim (next_fire_at_for_cron calendar (strip cron_expr) (now + delay) max_minutes_scan) [
            | none ↦ none
            | some none ↦ some (refused "cron expression has no upcoming fire time in scan window.")
            | some (some t) ↦ some (
                job (
                  create owner creator cron t payload (some (strip cron_expr)) none deadline_at
                    max_runs_value now))
          ]
    ]
