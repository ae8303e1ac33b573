-- ===== src/Scheduler/Runs.antt =====
-- Runs of session_scheduler.py: handlers, debounce timers, beats, watchdog rounds, wakeups and ends of
-- turns, each critical section and each publication a step of its own, in any order. No task is
-- cancelled, and no publication fails.
use fairy_claw.Base.{
  ℕ, zero, suc, Option, ◌+◌, ◌≤◌, ◌<◌, String, ◌≡◌, Bool, true, some, List, [], ◌∷◌, inl, inr,
  arith, ap, if◌then◌else◌, Option-cases, is_some,
}
use fairy_claw.Base.Dict.{get, Entries}
use fairy_claw.Event.{RuntimeEvent}
use fairy_claw.Scheduler.{
  Wakeup, Scheduler, publish_wakeup, run_user_message_debounce, handle_user_message,
  handle_subtask_completed, begin_session, finish_session, watch_section, enqueue,
  request_wakeup_if_needed, end_debounce, beat, take_out, publish_pending,
}
use fairy_claw.Scheduler.Flags.{
  same, occurrences, wakeups, flagged, busy, Own, wakeups-append, Keeps,
}

-- The scheduler with what has happened around it: the sessions of the published wakeups that have
-- been handled, of the turns that have started and of those that have ended.
pub record System : Type 0 where
  pub sch : Scheduler
  pub handled : List String
  pub started : List String
  pub ended : List String

abbrev pub initial : System
initial = record {
  sch = record {
    session_states = [];
    debounce_tasks = [];
    pending = [];
    published = [];
    persisted = [];
  };
  handled = [];
  started = [];
  ended = [];
}

-- A wakeup of session `s` is handled: the turn that it starts, if any, is noted.
abbrev pub wake : System → String → String → ℕ → System
wake y s source now =
    let (sch', turn) = begin_session y.sch s source now in
    record y { sch = sch'; started = if is_some turn then s ∷ y.started else y.started }

-- `enqueues` and `requests` are the two critical sections of `_handle_subtask_completed`, between which
-- other steps may come; `subtask` is both with nothing in between.
pub data Step (y : System) : System → Type 0 where
  user_message :
      (e : RuntimeEvent) (stored : Bool) (now : ℕ)
      → Step y (record y { sch = handle_user_message y.sch e stored now })
  subtask :
      (e : RuntimeEvent) (now : ℕ)
      → Step y (record y { sch = handle_subtask_completed y.sch e now })
  enqueues : (e : RuntimeEvent) (now : ℕ) → Step y (record y { sch = enqueue y.sch e now })
  requests :
      (s reason source : String)
      → Step y (record y { sch = request_wakeup_if_needed y.sch s reason source })
  debounce : (s : String) → Step y (record y { sch = run_user_message_debounce y.sch s })
  debounce_ends : (s : String) → Step y (record y { sch = end_debounce y.sch s })
  beats : (s : String) (now : ℕ) → Step y (record y { sch = beat y.sch s now })
  watchdog : Step y (record y { sch = watch_section y.sch })
  publishes : (n : ℕ) → Step y (record y { sch = publish_pending y.sch n })
  wakes :
      (s source : String) (now : ℕ)
      → occurrences s y.handled < wakeups s y.sch.published
      → Step y (record (wake y s source now) { handled = s ∷ y.handled })
  wakes_from_outside : (s source : String) (now : ℕ) → Step y (wake y s source now)
  ends :
      (s : String) (now : ℕ)
      → occurrences s y.ended < occurrences s y.started
      → Step y (record y { sch = finish_session y.sch s now; ended = s ∷ y.ended })

pub data Reach : System → Type 0 where
  begin : Reach initial
  next : {y y' : System} → Reach y → Step y y' → Reach y'

pub record IsSound (y : System) : Type 0 where
  pub own : Entries Own y.sch.session_states
  pub flag :
      (s : String)
      → flagged (get y.sch.session_states s) ≡ true
      → occurrences s y.handled < wakeups s y.sch.published + wakeups s y.sch.pending
  pub handled_le : (s : String) → occurrences s y.handled ≤ wakeups s y.sch.published
  pub turn :
      (s : String)
      → occurrences s y.started
        ≡ occurrences s y.ended + (if busy (get y.sch.session_states s) then 1 else 0)

pub Keeps-IsSound :
    (y : System) (sch' : Scheduler)
    → Keeps y.sch sch'
    → IsSound y
    → IsSound (record y { sch = sch' })
Keeps-IsSound y sch' k v = record {
  own = k.own v.own;
  flag = λ s h. elim (k.flag s h) [
    | inl u ↦ omega (arith, v.flag s u, k.grows s, ap (wakeups s) k.bus)
    | inr u ↦ omega (arith, v.handled_le s, ap (wakeups s) k.bus)
  ];
  handled_le = λ s. omega (arith, v.handled_le s, ap (wakeups s) k.bus);
  turn = λ s. rw (k.turn s) (v.turn s);
}

-- A wakeup that is published is no longer pending, and none is lost.
take_out-wakeups :
    (n : ℕ) (ws : List Wakeup) (s : String) {w : Wakeup} {rest : List Wakeup}
    → take_out n ws ≡ some (w, rest)
    → wakeups s ws ≡ same w.session_id s + wakeups s rest
unfolding take_out
take_out-wakeups n [] s e = absurd cc
take_out-wakeups zero (v ∷ ws) s e = ground arith
take_out-wakeups (suc n) (v ∷ ws) s {w} {rest} e = elim (Option-cases (take_out n ws)) [
  | inl q ↦ absurd (cc (rw q at e))
  | inr ((u, others), q) ↦
      let e' : ◌≡◌ {A = Option (Wakeup × List Wakeup)} (some (u, v ∷ others)) (some (w, rest)) =
        rw q at e in
      ground (arith, take_out-wakeups n ws s q)
]

pub publish-IsSound :
    (y : System) (n : ℕ) → IsSound y → IsSound (record y { sch = publish_pending y.sch n })
unfolding publish_pending publish_wakeup
publish-IsSound y n v = elim (Option-cases (take_out n y.sch.pending)) [
  | inl e ↦ rw (e, publish_pending) v
  | inr ((w, rest), e) ↦
      rw (e, publish_pending)
        (record {
          own = v.own;
          flag = λ s h. omega (
            arith,
            v.flag s h,
            take_out-wakeups n y.sch.pending s e,
            wakeups-append s y.sch.published (w ∷ []),
          );
          handled_le =
              λ s. omega (arith, v.handled_le s, wakeups-append s y.sch.published (w ∷ []));
          turn = v.turn;
        })
]
