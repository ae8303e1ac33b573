-- ===== src/Scheduler/Flags.antt =====
-- The flags of session_scheduler.py under the event handlers: no wakeup flag goes up but with a
-- wakeup for its session, and no handler starts or ends a turn.
use mathlib.Core.Path.{subst}
use fairy_claw.Base.{
  ℕ, ◌+◌, ◌≤◌, ◌<◌, String, ◌≡◌, refl, ◌∙◌, sym, Bool, true, false, Option, none, some, List, [],
  ◌∷◌, ◌++◌, inl, inr, ◌⊎◌, arith, ap, if◌then◌else◌, str_eq, Bool-cases, Option-cases, eq_iff,
}
use fairy_claw.Base.Dict.{get, put, get-put, Entries, Entries-put, get-Entries}
use fairy_claw.Event.{RuntimeEvent, SessionRuntimeState, enqueue_event, touch}
use fairy_claw.Scheduler.{
  Wakeup, Scheduler, get_or_create_state, put_state, plan_wakeup, needs_wakeup,
  request_wakeup_if_needed, run_user_message_debounce, end_debounce, beat, enqueue, persist_text,
  handle_user_message, handle_subtask_completed,
}

abbrev pub same : String → String → ℕ
same t s = if str_eq t s then 1 else 0

abbrev pub occurrences : String → List String → ℕ
occurrences s [] = 0
occurrences s (t ∷ ts) = same t s + occurrences s ts

-- How many of the published wakeups are for a session.
abbrev pub wakeups : String → List Wakeup → ℕ
wakeups s [] = 0
wakeups s (w ∷ ws) = same w.session_id s + wakeups s ws

abbrev pub flagged : Option SessionRuntimeState → Bool
flagged none = false
flagged (some st) = st.wakeup_queued

abbrev pub busy : Option SessionRuntimeState → Bool
busy none = false
busy (some st) = st.inflight

pub wakeups-append :
    (s : String) (ws vs : List Wakeup) → wakeups s (ws ++ vs) ≡ wakeups s ws + wakeups s vs
wakeups-append s [] vs = omega arith
wakeups-append s (w ∷ ws) vs = omega (arith, wakeups-append s ws vs)

-- A state lies under its own session.
abbrev pub Own : String → SessionRuntimeState → Type 0
Own k st = st.session_id ≡ k

-- What a method keeps: no flag goes up but with a wakeup for its session that it is about to publish,
-- and the bus and the turns in flight stay as they are.
pub record Keeps (sch sch' : Scheduler) : Type 0 where
  pub own : Entries Own sch.session_states → Entries Own sch'.session_states
  pub flag :
      (s : String)
      → flagged (get sch'.session_states s) ≡ true
      → (flagged (get sch.session_states s) ≡ true)
        ⊎ (wakeups s sch.pending < wakeups s sch'.pending)
  pub grows : (s : String) → wakeups s sch.pending ≤ wakeups s sch'.pending
  pub bus : sch'.published ≡ sch.published
  pub turn : (s : String) → busy (get sch'.session_states s) ≡ busy (get sch.session_states s)

pub Keeps-refl : (sch : Scheduler) → Keeps sch sch
Keeps-refl sch = record {
  own = λ o. o;
  flag = λ s h. inl h;
  grows = λ s. omega arith;
  bus = refl;
  turn = λ s. refl;
}

Keeps-trans : {a b c : Scheduler} → Keeps a b → Keeps b c → Keeps a c
Keeps-trans {a} {b} {c} f g = record {
  own = λ o. g.own (f.own o);
  flag = λ s h. elim (g.flag s h) [
    | inl u ↦ elim (f.flag s u) [ inl v ↦ inl v | inr v ↦ inr (omega (arith, g.grows s)) ]
    | inr u ↦ inr (omega (arith, f.grows s))
  ];
  grows = λ s. omega (arith, f.grows s, g.grows s);
  bus = g.bus ∙ f.bus;
  turn = λ s. g.turn s ∙ f.turn s;
}

-- A new state of a session that has the old flags.
put_state-Keeps :
    (sch : Scheduler) (s : String) (st : SessionRuntimeState)
    → st.wakeup_queued ≡ flagged (get sch.session_states s)
    → st.inflight ≡ busy (get sch.session_states s)
    → (Entries Own sch.session_states → Own s st)
    → Keeps sch (put_state sch s st)
unfolding put_state
put_state-Keeps sch s st f t o = record {
  own = λ h. Entries-put Own sch.session_states s st h (o h);
  flag = λ j h. ground (arith, get-put sch.session_states s j st, eq_iff s j);
  grows = λ j. omega arith;
  bus = refl;
  turn = λ j. ground (arith, get-put sch.session_states s j st, eq_iff s j);
}

-- The flag of a session goes up, and its wakeup is about to be published.
flag_up-Keeps :
    (sch : Scheduler) (s reason source : String) (st : SessionRuntimeState)
    → get sch.session_states s ≡ some st
    → Keeps sch (plan_wakeup (put_state sch s (record st { wakeup_queued = true })) s reason source)
unfolding put_state plan_wakeup
flag_up-Keeps sch s reason source st e =
    let w : Wakeup = record { session_id = s; reason = reason; source = source } in
    let raised : SessionRuntimeState = record st { wakeup_queued = true } in
    record {
      own = λ h.
          Entries-put Own sch.session_states s raised h (get-Entries Own sch.session_states s h e);
      flag = λ j h. ground (
        arith,
        get-put sch.session_states s j raised,
        eq_iff s j,
        wakeups-append j sch.pending (w ∷ []),
      );
      grows = λ j. omega (arith, wakeups-append j sch.pending (w ∷ []));
      bus = refl;
      turn = λ j. ground (arith, get-put sch.session_states s j raised, eq_iff s j);
    }

pub request_wakeup-Keeps :
    (sch : Scheduler) (s reason source : String)
    → Keeps sch (request_wakeup_if_needed sch s reason source)
unfolding request_wakeup_if_needed
request_wakeup-Keeps sch s reason source = elim (Option-cases (get sch.session_states s)) [
  | inl e ↦ rw (e, request_wakeup_if_needed) (Keeps-refl sch)
  | inr (st, e) ↦ elim (Bool-cases (needs_wakeup st)) [
    | inl n ↦ rw (e, request_wakeup_if_needed, n) (flag_up-Keeps sch s reason source st e)
    | inr n ↦ rw (e, request_wakeup_if_needed, n) (Keeps-refl sch)
  ]
]

pub debounce-Keeps : (sch : Scheduler) (s : String) → Keeps sch (run_user_message_debounce sch s)
unfolding run_user_message_debounce
debounce-Keeps sch s = request_wakeup-Keeps sch s "user_message" "debounce_timer"

enqueued-flags :
    (sch : Scheduler) (e : RuntimeEvent) (now : ℕ)
    → let st = enqueue_event (get_or_create_state sch e.session_id now) e now in
      (st.wakeup_queued ≡ flagged (get sch.session_states e.session_id))
      × (st.inflight ≡ busy (get sch.session_states e.session_id))
      × (st.session_id ≡ (get_or_create_state sch e.session_id now).session_id)
unfolding get_or_create_state enqueue_event
enqueued-flags sch e now = ground arith

created-Own :
    (sch : Scheduler) (s : String) (now : ℕ)
    → Entries Own sch.session_states
    → (get_or_create_state sch s now).session_id ≡ s
unfolding get_or_create_state
created-Own sch s now h = elim (Option-cases (get sch.session_states s)) [
  | inl e ↦ rw (e, get_or_create_state)
  | inr (st, e) ↦ rw (e, get_or_create_state) (get-Entries Own sch.session_states s h e)
]

pub enqueue-Keeps : (sch : Scheduler) (e : RuntimeEvent) (now : ℕ) → Keeps sch (enqueue sch e now)
unfolding enqueue
enqueue-Keeps sch e now =
    let f = enqueued-flags sch e now in
    put_state-Keeps sch e.session_id _ f.0 f.1 (λ h. f.2 ∙ created-Own sch e.session_id now h)

-- A method that touches neither the states nor the bus.
aside-Keeps :
    (a b : Scheduler)
    → b.session_states ≡ a.session_states
    → b.pending ≡ a.pending
    → b.published ≡ a.published
    → Keeps a b
aside-Keeps a b p q r = record {
  own = λ o. subst (λ d. Entries Own d) (sym p) o;
  flag = λ s h. inl (rw p at h);
  grows = λ s. omega (arith, ap (wakeups s) q);
  bus = r;
  turn = λ s. ap (λ d. busy (get d s)) p;
}

persist_text-Keeps :
    (sch : Scheduler) (e : RuntimeEvent) (stored : Bool) → Keeps sch (persist_text sch e stored)
unfolding persist_text
persist_text-Keeps sch e stored = aside-Keeps sch _ (ground arith) (ground arith) (ground arith)

debounced-Keeps :
    (sch : Scheduler) (s : String) (b : Bool)
    → Keeps sch (if b then record sch { debounce_tasks = put sch.debounce_tasks s false } else sch)
debounced-Keeps sch s b = aside-Keeps sch _ (ground arith) (ground arith) (ground arith)

pub handle_user_message-Keeps :
    (sch : Scheduler) (e : RuntimeEvent) (stored : Bool) (now : ℕ)
    → Keeps sch (handle_user_message sch e stored now)
unfolding handle_user_message
handle_user_message-Keeps sch e stored now = Keeps-trans (persist_text-Keeps sch e stored) (
    Keeps-trans (enqueue-Keeps (persist_text sch e stored) e now)
      (debounced-Keeps (enqueue (persist_text sch e stored) e now) e.session_id _))

requested-Keeps :
    (sch : Scheduler) (s : String) (b : Bool)
    → Keeps sch
        (if b then request_wakeup_if_needed sch s "subtask_completed" "subtask_completed" else sch)
requested-Keeps sch s true = request_wakeup-Keeps sch s "subtask_completed" "subtask_completed"
requested-Keeps sch s false = Keeps-refl sch

pub handle_subtask_completed-Keeps :
    (sch : Scheduler) (e : RuntimeEvent) (now : ℕ) → Keeps sch (handle_subtask_completed sch e now)
unfolding handle_subtask_completed
handle_subtask_completed-Keeps sch e now =
    Keeps-trans (enqueue-Keeps sch e now) (requested-Keeps (enqueue sch e now) e.session_id _)

pub end_debounce-Keeps : (sch : Scheduler) (s : String) → Keeps sch (end_debounce sch s)
unfolding end_debounce
end_debounce-Keeps sch s = aside-Keeps sch _ refl refl refl

beaten-flags :
    (sch : Scheduler) (s : String) (now : ℕ)
    → let st = touch (get_or_create_state sch s now) now in
      (st.wakeup_queued ≡ flagged (get sch.session_states s))
      × (st.inflight ≡ busy (get sch.session_states s))
      × (st.session_id ≡ (get_or_create_state sch s now).session_id)
unfolding get_or_create_state touch
beaten-flags sch s now = ground arith

pub beat-Keeps : (sch : Scheduler) (s : String) (now : ℕ) → Keeps sch (beat sch s now)
unfolding beat
beat-Keeps sch s now =
    let f = beaten-flags sch s now in
    put_state-Keeps sch s _ f.0 f.1 (λ h. f.2 ∙ created-Own sch s now h)
