-- ===== src/Timer/Tests.antt =====
-- A table with one heartbeat job.
use fairy_claw.Base.{
  ℕ, ◌+◌, ◌≤◌, ◌<◌, max, ◌≡◌, refl, arith, true, false, none, some, [], if◌then◌else◌, mem_text,
  lower, strip,
}
use fairy_claw.Base.Dict.{Dict, get, put}
use fairy_claw.Cron.{Civil}
use fairy_claw.Timer.{
  TimerJobModel, heartbeat, running, failed, create, claim_due_jobs, mark_job_result, cancel,
  is_open, is_due, reached, terminal_status, next_run, update_row,
}
use fairy_claw.Timer.Create.{pos, job, create_job, refused}
use fairy_claw.Timer.Claims.{claim_due_jobs_exclusive}
use fairy_claw.Timer.Runs.{Reach, begin, next, creates, active_jobs_are_bounded}
use fairy_claw.Timer.Results.{mark_job_result_counts, cancelled_job_reads_running}

abbrev noon : ℕ → Civil
noon m = record { minute = 0; hour = 12; day = 1; month = 1; weekday = 0 }

-- Three runs at most, one every ten seconds.
abbrev ping : TimerJobModel
ping = create "s1" "s1" heartbeat 110 "ping" none (some 10) none (some 3) 100

abbrev table : Dict TimerJobModel
table = put [] "t1" ping

is_created :
    create_job noon 5
      (λ s. s)
      "s1"
      "s1"
      " Heartbeat"
      "ping"
      ""
      (some (pos 10))
      none
      none
      (some (pos 3))
      100
    ≡ some (job ping)
unfolding create_job lower strip
is_created = refl

too_short :
    create_job noon 5 (λ s. s) "s1" "s1" "heartbeat" "ping" "" (some (pos 1)) none none none 100
    ≡ some (refused "heartbeat interval_seconds must be >= 2.")
unfolding create_job lower strip
too_short = refl

table_reached : Reach noon 5 table
unfolding get
table_reached = next begin (
    creates "t1" ping (λ s. s) "s1" "s1" " Heartbeat" "ping" "" (some (pos 10)) none none
      (some (pos 3)) 100 refl is_created)

found : get table "t1" ≡ some ping
unfolding get put
found = refl

is_active : ping.active ≡ true
unfolding create
is_active = refl

active_jobs_are_bounded_example :
    (is_open ping.status ≡ true)
    × (reached ping.max_runs ping.run_count ≡ false)
    × (ping.failure_count < 3)
active_jobs_are_bounded_example = active_jobs_are_bounded "t1" ping table_reached found is_active

claimed_by_a : mem_text "t1" (claim_due_jobs table 120 "a" 20 120).1 ≡ true
unfolding claim_due_jobs put is_due get create
claimed_by_a = refl

claim_due_jobs_exclusive_example :
    (is_due table 120 (max 1 120) "t1" ≡ true)
    × (mem_text "t1" (claim_due_jobs (claim_due_jobs table 120 "a" 20 120).0 200 "b" 20 120).1
        ≡ false)
claim_due_jobs_exclusive_example =
    claim_due_jobs_exclusive table 120 200 "a" "b" "t1" 20 20 120 claimed_by_a (omega arith)

abbrev ran : TimerJobModel
ran = update_row ping 130 (some 140) true none ""

marked : mark_job_result noon 5 table "t1" 130 true "" ≡ some (put table "t1" ran)
unfolding mark_job_result get put create next_run
marked = refl

mark_job_result_counts_example :
    (m' : TimerJobModel) × (get (put table "t1" ran) "t1" ≡ some m')
    × (m'.run_count ≡ ping.run_count + 1)
    × (m'.failure_count ≡ (if true then 0 else ping.failure_count + 1))
    × (m'.claimed_at ≡ none)
    × (reached ping.max_runs m'.run_count ≡ true → m'.active ≡ false)
    × (reached ping.deadline_at 130 ≡ true → m'.active ≡ false)
    × (3 ≤ m'.failure_count → (m'.active ≡ false) × (m'.status ≡ failed))
    × (m'.active ≡ true → ping.active ≡ true)
mark_job_result_counts_example =
    mark_job_result_counts noon 5 table (put table "t1" ran) "t1" ping 130 true "" found marked

is_heartbeat : ping.mode ≡ heartbeat
unfolding create
is_heartbeat = refl

nothing_ends_it : terminal_status ping 130 true ≡ none
unfolding terminal_status create
nothing_ends_it = refl

cancelled_job_reads_running_example :
    (d' : Dict TimerJobModel) × (mark_job_result noon 5 (cancel table "t1" 125) "t1" 130 true ""
      ≡ some d')
    × (m' : TimerJobModel) × (get d' "t1" ≡ some m')
    × (m'.status ≡ running)
    × (m'.active ≡ false)
cancelled_job_reads_running_example =
    cancelled_job_reads_running noon 5 table "t1" ping 125 130 true "" found is_heartbeat
      nothing_ends_it
