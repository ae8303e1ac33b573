-- ===== src/Scheduler/Turns.antt =====
-- What holds in the runs of session_scheduler.py: one turn at a time for each session, and no wakeup
-- flag that is up with no wakeup on its way.
use fairy_claw.Base.{
  ℕ, ◌+◌, ◌≤◌, ◌<◌, String, ◌≡◌, refl, ◌∙◌, Bool, true, false, some, [], ◌∷◌, inl, inr, arith, ap,
  if◌then◌else◌, str_eq, Bool-cases, Option-cases, eq_iff, is_some,
}
use fairy_claw.Base.Dict.{
  get, remove, get-put, get-put_self, get-remove, Entries-put, Entries-remove, get-Entries,
}
use fairy_claw.Event.{
  SessionRuntimeState, touch, consume_mailbox, has_mailbox_events, has_triggerable_mailbox_events,
}
use fairy_claw.Scheduler.{
  Wakeup, put_state, begin_state, begin_session, finish_session, plan_wakeup,
}
use fairy_claw.Scheduler.Flags.{
  occurrences, wakeups, flagged, busy, Own, wakeups-append, debounce-Keeps, enqueue-Keeps,
  request_wakeup-Keeps, end_debounce-Keeps, beat-Keeps, handle_user_message-Keeps,
  handle_subtask_completed-Keeps,
}
use fairy_claw.Scheduler.Watchdog.{watchdog-Keeps}
use fairy_claw.Scheduler.Runs.{
  System, wake, user_message, subtask, enqueues, requests, debounce, debounce_ends, beats, watchdog,
  publishes, wakes, wakes_from_outside, ends, Step, begin, next, Reach, IsSound, Keeps-IsSound,
  publish-IsSound,
}

-- What the opening section leaves of a state: its flag down, its session kept, and a turn in flight
-- if there was one or one has started, never both.
begin_state_lem :
    (st : SessionRuntimeState) (source : String) (now : ℕ)
    → let (st', events) = begin_state st source now in
      (st'.wakeup_queued ≡ false)
      × (st'.session_id ≡ st.session_id)
      × ((if is_some events then 1 else 0) + (if st.inflight then 1 else 0)
          ≡ (if st'.inflight then 1 else 0))
unfolding begin_state touch consume_mailbox
begin_state_lem st source now = ground arith

-- A wakeup of a session that has a state.
woken-IsSound :
    (y : System) (s : String) (st st' : SessionRuntimeState) (turn : Bool)
    → get y.sch.session_states s ≡ some st
    → st'.wakeup_queued ≡ false
    → st'.session_id ≡ st.session_id
    → (if turn then 1 else 0) + (if st.inflight then 1 else 0) ≡ (if st'.inflight then 1 else 0)
    → IsSound y
    → IsSound (record y {
      sch = put_state y.sch s st';
      started = if turn then s ∷ y.started else y.started;
    })
unfolding put_state
woken-IsSound y s st st' turn e f i c v = record {
  own =
      Entries-put Own y.sch.session_states s st' v.own
        (i ∙ get-Entries Own y.sch.session_states s v.own e);
  flag = λ j h. ground (arith, v.flag j, get-put y.sch.session_states s j st', eq_iff s j);
  handled_le = v.handled_le;
  turn = λ j. ground (arith, v.turn j, get-put y.sch.session_states s j st', eq_iff s j);
}

wake-IsSound :
    (y : System) (s source : String) (now : ℕ) → IsSound y → IsSound (wake y s source now)
unfolding begin_session
wake-IsSound y s source now v = elim (Option-cases (get y.sch.session_states s)) [
  | inl e ↦ rw (e, begin_session) v
  | inr (st, e) ↦
      let l = begin_state_lem st source now in
      rw (e, begin_session)
        (woken-IsSound y s st (begin_state st source now).0 (is_some (begin_state st source now).1)
          e l.0 l.1 l.2 v)
]

-- After it the flag of the session is down.
wake-flag :
    (y : System) (s source : String) (now : ℕ)
    → flagged (get (wake y s source now).sch.session_states s) ≡ false
unfolding begin_session put_state
wake-flag y s source now = elim (Option-cases (get y.sch.session_states s)) [
  | inl e ↦ rw (e, begin_session) (rw e)
  | inr (st, e) ↦
      rw (e, begin_session)
        (rw (get-put_self y.sch.session_states s (begin_state st source now).0)
          (begin_state_lem st source now).0)
]

wake-published :
    (y : System) (s source : String) (now : ℕ)
    → (wake y s source now).sch.published ≡ y.sch.published
unfolding begin_session put_state
wake-published y s source now = ground arith

handled-IsSound :
    (y : System) (s : String)
    → flagged (get y.sch.session_states s) ≡ false
    → occurrences s y.handled < wakeups s y.sch.published
    → IsSound y
    → IsSound (record y { handled = s ∷ y.handled })
handled-IsSound y s f h v = record {
  own = v.own;
  flag = λ j u. elim (Bool-cases (str_eq s j)) [
    | inl q ↦
        let q' : s ≡ j = (eq_iff s j).0 q in
        absurd (ground (arith, ap (get y.sch.session_states) q'))
    | inr q ↦ rw q (omega (arith, v.flag j u))
  ];
  handled_le = λ j. elim (Bool-cases (str_eq s j)) [
    | inl q ↦
        let q' : s ≡ j = (eq_iff s j).0 q in
        rw q (
          omega (
            arith,
            h,
            ap (λ k. occurrences k y.handled) q',
            ap (λ k. wakeups k y.sch.published) q',
          ))
    | inr q ↦ rw q (omega (arith, v.handled_le j))
  ];
  turn = v.turn;
}

-- The end of a turn: the session's new state, or none, with no turn in flight.
module _ (y : System) (s : String) (st : SessionRuntimeState)
    (e : get y.sch.session_states s ≡ some st) (h : occurrences s y.ended < occurrences s y.started)
    (v : IsSound y) where
  settled-IsSound :
      (st' : SessionRuntimeState)
      → st'.inflight ≡ false
      → st'.wakeup_queued ≡ st.wakeup_queued
      → st'.session_id ≡ st.session_id
      → IsSound (record y { sch = put_state y.sch s st'; ended = s ∷ y.ended })
  unfolding put_state
  settled-IsSound st' f q i = record {
    own =
        Entries-put Own y.sch.session_states s st' v.own
          (i ∙ get-Entries Own y.sch.session_states s v.own e);
    flag = λ j u. ground (arith, v.flag j, get-put y.sch.session_states s j st', eq_iff s j);
    handled_le = v.handled_le;
    turn = λ j. ground (arith, h, v.turn j, get-put y.sch.session_states s j st', eq_iff s j);
  }

  requeued-IsSound :
      (st' : SessionRuntimeState)
      → st'.inflight ≡ false
      → st'.session_id ≡ st.session_id
      → IsSound (record y {
        sch = plan_wakeup (put_state y.sch s st') s "system" "event_bus";
        ended = s ∷ y.ended;
      })
  unfolding put_state plan_wakeup
  requeued-IsSound st' f i =
      let w : Wakeup = record { session_id = s; reason = "system"; source = "event_bus" } in
      record {
        own =
            Entries-put Own y.sch.session_states s st' v.own
              (i ∙ get-Entries Own y.sch.session_states s v.own e);
        flag = λ j u. ground (
          arith,
          v.flag j,
          v.handled_le j,
          get-put y.sch.session_states s j st',
          eq_iff s j,
          wakeups-append j y.sch.pending (w ∷ []),
        );
        handled_le = v.handled_le;
        turn = λ j. ground (arith, h, v.turn j, get-put y.sch.session_states s j st', eq_iff s j);
      }

  dropped-IsSound : IsSound (record y {
    sch = record y.sch { session_states = remove y.sch.session_states s };
    ended = s ∷ y.ended;
  })
  dropped-IsSound = record {
    own = Entries-remove Own y.sch.session_states s v.own;
    flag = λ j u. ground (arith, v.flag j, get-remove y.sch.session_states s j);
    handled_le = v.handled_le;
    turn = λ j. ground (arith, h, v.turn j, get-remove y.sch.session_states s j, eq_iff s j);
  }

touched :
    (st : SessionRuntimeState) (now : ℕ)
    → let idle = touch (record st { inflight = false }) now in
      (idle.inflight ≡ false)
      × (idle.wakeup_queued ≡ st.wakeup_queued)
      × (idle.session_id ≡ st.session_id)
unfolding touch
touched st now = (refl, refl, refl)

finish-IsSound :
    (y : System) (s : String) (now : ℕ)
    → occurrences s y.ended < occurrences s y.started
    → IsSound y
    → IsSound (record y { sch = finish_session y.sch s now; ended = s ∷ y.ended })
unfolding finish_session
finish-IsSound y s now h v = elim (Option-cases (get y.sch.session_states s)) [
  | inl e ↦ absurd (ground (arith, v.turn s))
  | inr (st, e) ↦
      let idle = touch (record st { inflight = false }) now in
      rw (e, finish_session)
        (elim (Bool-cases (has_mailbox_events idle)) [
          | inr n ↦ simp n (dropped-IsSound y s st e h v)
          | inl n ↦ elim (Bool-cases (has_triggerable_mailbox_events idle)) [
            | inr m ↦
                simp (n, m)
                  (settled-IsSound y s st e h v idle (touched st now).0 (touched st now).1
                    (touched st now).2)
            | inl m ↦ elim (Bool-cases idle.wakeup_queued) [
              | inl q ↦
                  simp (n, m, q)
                    (settled-IsSound y s st e h v idle (touched st now).0 (touched st now).1
                      (touched st now).2)
              | inr q ↦
                  simp (n, m, q)
                    (requeued-IsSound y s st e h v (record idle { wakeup_queued = true })
                      (touched st now).0 (touched st now).2)
            ]
          ]
        ])
]

Step-IsSound : {y y' : System} → Step y y' → IsSound y → IsSound y'
Step-IsSound {y} (user_message e stored now) v =
    Keeps-IsSound y _ (handle_user_message-Keeps y.sch e stored now) v
Step-IsSound {y} (subtask e now) v =
    Keeps-IsSound y _ (handle_subtask_completed-Keeps y.sch e now) v
Step-IsSound {y} (enqueues e now) v = Keeps-IsSound y _ (enqueue-Keeps y.sch e now) v
Step-IsSound {y} (requests s reason source) v =
    Keeps-IsSound y _ (request_wakeup-Keeps y.sch s reason source) v
Step-IsSound {y} (debounce s) v = Keeps-IsSound y _ (debounce-Keeps y.sch s) v
Step-IsSound {y} (debounce_ends s) v = Keeps-IsSound y _ (end_debounce-Keeps y.sch s) v
Step-IsSound {y} (beats s now) v = Keeps-IsSound y _ (beat-Keeps y.sch s now) v
Step-IsSound {y} (publishes n) v = publish-IsSound y n v
Step-IsSound {y} watchdog v = Keeps-IsSound y _ (watchdog-Keeps y.sch v.own) v
Step-IsSound {y} (wakes s source now h) v =
    handled-IsSound (wake y s source now) s (wake-flag y s source now)
      (rw (wake-published y s source now) h) (wake-IsSound y s source now v)
Step-IsSound {y} (wakes_from_outside s source now) v = wake-IsSound y s source now v
Step-IsSound {y} (ends s now h) v = finish-IsSound y s now h v

pub Reach-IsSound : {y : System} → Reach y → IsSound y
unfolding get
Reach-IsSound begin = record {
  own = tt;
  flag = λ s h. cc;
  handled_le = λ s. omega arith;
  turn = λ s. omega arith;
}
Reach-IsSound (next r st) = Step-IsSound st (Reach-IsSound r)

-- In every run, at most one turn of a session is in flight: the turns that have started are the
-- turns that have ended, plus one exactly while the session's `inflight` flag is up.
pub one_turn_per_session :
    {y : System} (s : String)
    → Reach y
    → (occurrences s y.started
        ≡ occurrences s y.ended + (if busy (get y.sch.session_states s) then 1 else 0))
      × (occurrences s y.started ≤ occurrences s y.ended + 1)
one_turn_per_session s r = ((Reach-IsSound r).turn s, ground (arith, (Reach-IsSound r).turn s))

-- In every run in which no task is cancelled and no publication fails, a session whose `wakeup_queued`
-- flag is up has a wakeup that has not been handled yet: it is on the bus, or a method that has let go
-- of the lock is about to publish it. So the flag, which holds back the watchdog, is not up with
-- nothing on the way to clear it.
pub queued_flag_has_wakeup :
    {y : System} (s : String)
    → Reach y
    → flagged (get y.sch.session_states s) ≡ true
    → occurrences s y.handled < wakeups s y.sch.published + wakeups s y.sch.pending
queued_flag_has_wakeup s r = (Reach-IsSound r).flag s
