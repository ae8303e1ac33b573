-- ===== src/Coordinator/Publish.antt =====
-- The barrier of subtask_coordinator.py, call by call: when it publishes, once, and what it says.
use fairy_claw.Base.{
  ◌+◌, String, ◌≡◌, refl, ◌∙◌, true, false, none, some, List, [], ◌∷◌, ◌++◌, arith, str_eq, ◌||◌,
  str_eq_refl, nonempty,
}
use fairy_claw.Base.Dict.{get-put_self, Entries, mem-add}
use fairy_claw.Subtask.{
  SessionSubTaskState, is_all_subtasks_terminal, has_aggregation_emitted, mark_aggregation_emitted,
  get_aggregated_subtask_results, has_immediate_failure_notified, mark_immediate_failure_notified,
}
use fairy_claw.Subtask.Batch.{IsWellFormed, IsOver, is_all_subtasks_terminal-IsOver}
use fairy_claw.Subtask.Reopen.{has_aggregation_emitted-mark}
use fairy_claw.Subtask.Report.{aggregate_counts}
use fairy_claw.Coordinator.{
  Effect, stored, barrier_published, failure_published, World, Outcome, both_done, store_fails,
  publish_fails, state_of, set_state, main_of, Barrier, begin_barrier, finish_barrier, mark_emitted,
  publish_subtask_barrier_if_ready, log, notify_main_session_subtask_failure, failure_message,
}

pub state_of-set_state :
    (w : World) (main : String) (s : SessionSubTaskState) → state_of (set_state w main s) main ≡ s
unfolding state_of set_state
state_of-set_state w main s = rw (get-put_self w.subtask_states main s, state_of)

pub main_of-set_state :
    (w : World) (main sub : String) (s : SessionSubTaskState)
    → main_of (set_state w main s) sub ≡ main_of w sub
unfolding main_of set_state
main_of-set_state w main sub s = refl

-- A state whose barrier has gone out begins no barrier.
pub begin_barrier_emitted :
    (w : World) (main sub : String)
    → main_of w sub ≡ some main
    → has_aggregation_emitted (state_of w main) ≡ true
    → begin_barrier w sub ≡ none
unfolding begin_barrier
begin_barrier_emitted w main sub m e = ground arith

-- What a barrier that begins has checked.
pub begin_barrier_ready :
    (w : World) (sub : String) (b : Barrier)
    → begin_barrier w sub ≡ some b
    → (main_of w sub ≡ some b.main)
      × (is_all_subtasks_terminal (state_of w b.main) ≡ true)
      × (has_aggregation_emitted (state_of w b.main) ≡ false)
      × (b.aggregated ≡ get_aggregated_subtask_results (state_of w b.main) none)
unfolding begin_barrier
begin_barrier_ready w sub b h = ground arith

mark_emitted-emitted :
    (w : World) (main : String)
    → has_aggregation_emitted (state_of (mark_emitted w main) main) ≡ true
unfolding mark_emitted
mark_emitted-emitted w main =
    rw (state_of-set_state w main (mark_aggregation_emitted (state_of w main)))
      (has_aggregation_emitted-mark (state_of w main))

main_of-mark_emitted :
    (w : World) (main sub : String) → main_of (mark_emitted w main) sub ≡ main_of w sub
unfolding mark_emitted main_of set_state
main_of-mark_emitted w main sub = refl

main_of-log : (w : World) (es : List Effect) (sub : String) → main_of (log w es) sub ≡ main_of w sub
unfolding log main_of
main_of-log w es sub = refl

effects-mark_emitted : (w : World) (main : String) → (mark_emitted w main).effects ≡ w.effects
unfolding mark_emitted set_state
effects-mark_emitted w main = refl

-- A barrier that has gone out, called through any subtask of the main session, begins no more.
pub finish_barrier-silences :
    (w : World) (sub sub' : String) (b : Barrier)
    → main_of w sub' ≡ some b.main
    → begin_barrier (finish_barrier w sub b both_done) sub' ≡ none
unfolding finish_barrier
finish_barrier-silences w sub sub' b m =
    let w' = log w (stored b.main b.message ∷ barrier_published b.main sub b.aggregated ∷ []) in
    begin_barrier_emitted (mark_emitted w' b.main) b.main sub'
      (main_of-mark_emitted w' b.main sub' ∙ main_of-log w _ sub' ∙ m)
      (mark_emitted-emitted w' b.main)

pub effects-finish_barrier :
    (w : World) (sub : String) (b : Barrier)
    → (finish_barrier w sub b both_done).effects
      ≡ w.effects ++ stored b.main b.message ∷ barrier_published b.main sub b.aggregated ∷ []
unfolding finish_barrier
effects-finish_barrier w sub b = effects-mark_emitted _ b.main ∙ unfold log in refl

publish_some :
    (w : World) (sub : String) (b : Barrier) (o : Outcome)
    → begin_barrier w sub ≡ some b
    → publish_subtask_barrier_if_ready w sub o ≡ finish_barrier w sub b o
unfolding publish_subtask_barrier_if_ready
publish_some w sub b o h = rw (h, publish_subtask_barrier_if_ready)

publish_none :
    (w : World) (sub : String) (o : Outcome)
    → begin_barrier w sub ≡ none
    → publish_subtask_barrier_if_ready w sub o ≡ w
unfolding publish_subtask_barrier_if_ready
publish_none w sub o h = rw (h, publish_subtask_barrier_if_ready)

-- A barrier call that begins and ends well stores its message and publishes one event, in that
-- order; the next call through any subtask of the same main session then changes nothing at all.
pub publish_once :
    (w : World) (sub sub' : String) (b : Barrier) (o : Outcome)
    → begin_barrier w sub ≡ some b
    → main_of w sub' ≡ some b.main
    → let w' = publish_subtask_barrier_if_ready w sub both_done in
      (w'.effects
        ≡ w.effects ++ stored b.main b.message ∷ barrier_published b.main sub b.aggregated ∷ [])
      × (publish_subtask_barrier_if_ready w' sub' o ≡ w')
publish_once w sub sub' b o h m = rw (publish_some w sub b both_done h) (
  effects-finish_barrier w sub b,
  publish_none (finish_barrier w sub b both_done) sub' o (finish_barrier-silences w sub sub' b m),
)

-- A barrier begins only where no task of the main session can run any more, in any batch, and the
-- three counters that it reports then add up to the total.
pub begin_barrier_complete :
    (w : World) (sub : String) (b : Barrier)
    → IsWellFormed (state_of w b.main)
    → begin_barrier w sub ≡ some b
    → Entries IsOver (state_of w b.main).records
      × (b.aggregated.completed + b.aggregated.failed + b.aggregated.cancelled ≡ b.aggregated.total)
begin_barrier_complete w sub b f h =
    let (m, t, n, a) = begin_barrier_ready w sub b h in
    (
      is_all_subtasks_terminal-IsOver (state_of w b.main) f t,
      rw a ((aggregate_counts (state_of w b.main)).2 t),
    )

begin_barrier-log :
    (w : World) (es : List Effect) (sub : String)
    → begin_barrier (log w es) sub ≡ begin_barrier w sub
unfolding begin_barrier main_of state_of log
begin_barrier-log w es sub = refl

-- If storing or publishing raises, the barrier stays armed: the next call begins the same barrier.
-- A message that was stored before a failed publication is stored again by it.
pub publish_retries :
    (w : World) (sub : String) (b : Barrier)
    → begin_barrier w sub ≡ some b
    → (publish_subtask_barrier_if_ready w sub store_fails ≡ w)
      × (begin_barrier (publish_subtask_barrier_if_ready w sub publish_fails) sub ≡ some b)
      × ((publish_subtask_barrier_if_ready
            (publish_subtask_barrier_if_ready w sub publish_fails)
            sub
            both_done).effects
          ≡ (w.effects ++ stored b.main b.message ∷ [])
            ++ stored b.main b.message ∷ barrier_published b.main sub b.aggregated ∷ [])
unfolding finish_barrier
publish_retries w sub b h =
    let stored_only = log w (stored b.main b.message ∷ []) in
    let again = begin_barrier-log w (stored b.main b.message ∷ []) sub ∙ h in
    (
      publish_some w sub b store_fails h,
      rw (publish_some w sub b publish_fails h) again,
      rw (publish_some w sub b publish_fails h, publish_some stored_only sub b both_done again)
          (effects-finish_barrier stored_only sub b),
    )

notify_sent :
    (w : World) (main sub summary status : String)
    → main_of w sub ≡ some main
    → (str_eq status "cancelled" || str_eq status "completed") ≡ false
    → has_immediate_failure_notified (state_of w main) sub ≡ false
    → notify_main_session_subtask_failure w sub summary status both_done
      ≡ set_state
          (log w (stored main (failure_message sub summary) ∷ failure_published main sub ∷ []))
          main
          (mark_immediate_failure_notified (state_of w main) sub)
unfolding notify_main_session_subtask_failure
notify_sent w main sub summary status m g n = simp (m, notify_main_session_subtask_failure, g, n)

notify_silent :
    (w : World) (main sub summary status : String) (o : Outcome)
    → main_of w sub ≡ some main
    → has_immediate_failure_notified (state_of w main) sub ≡ true
    → notify_main_session_subtask_failure w sub summary status o ≡ w
unfolding notify_main_session_subtask_failure
notify_silent w main sub summary status o m n = ground arith

has_immediate-mark :
    (s : SessionSubTaskState) (sub : String)
    → nonempty sub ≡ true
    → has_immediate_failure_notified (mark_immediate_failure_notified s sub) sub ≡ true
unfolding has_immediate_failure_notified mark_immediate_failure_notified
has_immediate-mark s sub n =
    rw n (mem-add s.immediate_failure_notified sub sub ∙ rw (str_eq_refl sub))

-- A call for the failure of a bound subtask with an id that is not empty, whose status is neither
-- cancelled nor completed and whose notice is not marked as sent, stores the message and publishes one
-- event, when both awaited calls succeed; and a call for that subtask that comes next, with no other
-- operation in between, whatever it says and whatever its awaited calls do, changes nothing.
pub notify_once :
    (w : World) (main sub summary status summary' status' : String) (o : Outcome)
    → main_of w sub ≡ some main
    → nonempty sub ≡ true
    → (str_eq status "cancelled" || str_eq status "completed") ≡ false
    → has_immediate_failure_notified (state_of w main) sub ≡ false
    → let w' = notify_main_session_subtask_failure w sub summary status both_done in
      (w'.effects
        ≡ w.effects ++ stored main (failure_message sub summary) ∷ failure_published main sub ∷ [])
      × (notify_main_session_subtask_failure w' sub summary' status' o ≡ w')
notify_once w main sub summary status summary' status' o m p g n =
    let s = state_of w main in
    let w₁ = log w (stored main (failure_message sub summary) ∷ failure_published main sub ∷ []) in
    rw (notify_sent w main sub summary status m g n) (
      unfold set_state log in refl,
      notify_silent (set_state w₁ main (mark_immediate_failure_notified s sub)) main sub summary'
          status' o (main_of-set_state w₁ main sub _ ∙ main_of-log w _ sub ∙ m)
          (rw (state_of-set_state w₁ main (mark_immediate_failure_notified s sub))
            (has_immediate-mark s sub p)),
    )
