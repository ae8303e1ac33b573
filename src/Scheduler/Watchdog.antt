-- ===== src/Scheduler/Watchdog.antt =====
-- `heartbeat_watchdog` of session_scheduler.py: it wakes every session that has been left waiting.
use mathlib.Core.Option.{some-injective}
use mathlib.Core.List.{append-nil, append_assoc}
use fairy_claw.Base.{
  ◌<◌, String, ◌≡◌, refl, ◌∙◌, ap, sym, List, ◌++◌, true, false, none, some, [], ◌∷◌, inl, inr, ◌⊎◌,
  arith, if◌then◌else◌, str_eq, Bool-cases, Option-cases, eq_iff,
}
use fairy_claw.Base.Dict.{Dict, get, Entries}
use fairy_claw.Event.{SessionRuntimeState, has_mailbox_events, has_triggerable_mailbox_events}
use fairy_claw.Scheduler.{
  Wakeup, Scheduler, needs_wakeup, publish_wakeup, watch, watch_section, publish_each,
  heartbeat_watchdog,
}
use fairy_claw.Scheduler.Flags.{wakeups, flagged, Own, wakeups-append, Keeps}

watch-get :
    (d : Dict SessionRuntimeState) (s : String)
    → get (watch d).0 s ≡ elim (get d s) [
      | none ↦ none
      | some st ↦ if needs_wakeup st then some (record st { wakeup_queued = true }) else some st
    ]
unfolding watch get
watch-get [] s = refl
watch-get ((k, st) ∷ d) s = elim (Bool-cases (needs_wakeup st)) [
  | inl n ↦
      rw n (elim (Bool-cases (str_eq k s)) [ inl e ↦ rw (e, n) | inr e ↦ rw e (watch-get d s) ])
  | inr n ↦
      rw n (elim (Bool-cases (str_eq k s)) [ inl e ↦ rw (e, n) | inr e ↦ rw e (watch-get d s) ])
]

watch-woken :
    (d : Dict SessionRuntimeState) (s : String) (st : SessionRuntimeState)
    → Entries Own d
    → get d s ≡ some st
    → needs_wakeup st ≡ true
    → 0 < wakeups s (watch d).1
unfolding watch get
watch-woken [] s st o e n = cc
watch-woken ((k, x) ∷ d) s st o e n = elim (Bool-cases (str_eq k s)) [
  | inl q ↦
      let same' : x ≡ st = some-injective x st (rw q at e) in
      let own : x.session_id ≡ s = o.0 ∙ (eq_iff k s).0 q in
      let due : needs_wakeup x ≡ true = rw same' n in
      rw due (ground (arith, (eq_iff x.session_id s).1 own))
  | inr q ↦
      let rest = watch-woken d s st o.1 (rw q at e) n in
      elim (Bool-cases (needs_wakeup x)) [ inl m ↦ rw m (omega arith) | inr m ↦ rw m rest ]
]

watch-Own : (d : Dict SessionRuntimeState) → Entries Own d → Entries Own (watch d).0
unfolding watch
watch-Own [] o = tt
watch-Own ((k, st) ∷ d) o = elim (Bool-cases (needs_wakeup st)) [
  | inl n ↦ rw n (o.0, watch-Own d o.1)
  | inr n ↦ rw n (o.0, watch-Own d o.1)
]

-- The critical section raises flags and plans the wakeups of their sessions, and touches nothing else.
pub watchdog-Keeps :
    (sch : Scheduler) → Entries Own sch.session_states → Keeps sch (watch_section sch)
unfolding watch_section
watchdog-Keeps sch o = record {
  own = λ h. watch-Own sch.session_states h;
  flag = λ s h. elim (Option-cases (get sch.session_states s)) [
    | inl e ↦ absurd (ground (arith, watch-get sch.session_states s))
    | inr (st, e) ↦ elim (Bool-cases (needs_wakeup st)) [
      | inl n ↦ inr (
          omega (
            arith,
            wakeups-append s sch.pending (watch sch.session_states).1,
            watch-woken sch.session_states s st o e n,
          ))
      | inr n ↦ inl (ground (arith, watch-get sch.session_states s))
    ]
  ];
  grows = λ s. omega (arith, wakeups-append s sch.pending (watch sch.session_states).1);
  bus = refl;
  turn = λ s. ground (arith, watch-get sch.session_states s);
}

-- The loop of publications adds the wakeups, in their order, and touches nothing else.
publish_each_lem :
    (sch : Scheduler) (ws : List Wakeup)
    → publish_each sch ws ≡ record sch { published = sch.published ++ ws }
unfolding publish_each publish_wakeup
publish_each_lem sch [] = ap (λ ws. record sch { published = ws }) (sym (append-nil sch.published))
publish_each_lem sch (w ∷ ws) =
    publish_each_lem (record sch { published = sch.published ++ w ∷ [] }) ws
    ∙ ap (λ vs. record sch { published = vs }) (append_assoc sch.published (w ∷ []) ws)

heartbeat_watchdog_lem :
    (sch : Scheduler)
    → heartbeat_watchdog sch ≡ record sch {
      session_states = (watch sch.session_states).0;
      published = sch.published ++ (watch sch.session_states).1;
    }
unfolding heartbeat_watchdog
heartbeat_watchdog_lem sch =
    publish_each_lem (record sch { session_states = (watch sch.session_states).0 })
      (watch sch.session_states).1

flag_up-served :
    (st : SessionRuntimeState) → needs_wakeup (record st { wakeup_queued = true }) ≡ false
unfolding needs_wakeup
flag_up-served st = ground arith

-- A second round of the watchdog, with nothing in between, finds no session to wake.
watch_again : (d : Dict SessionRuntimeState) → watch (watch d).0 ≡ ((watch d).0, [])
unfolding watch
watch_again [] = refl
watch_again ((k, st) ∷ d) = elim (Bool-cases (needs_wakeup st)) [
  | inl n ↦ rw (n, flag_up-served st, watch_again d)
  | inr n ↦ rw (n, n, watch_again d)
]

watched :
    (st : SessionRuntimeState)
    → has_mailbox_events st ≡ true
    → has_triggerable_mailbox_events st ≡ true
    → (st.inflight ≡ true)
      ⊎ (flagged (if needs_wakeup st then some (record st { wakeup_queued = true }) else some st)
          ≡ true)
unfolding needs_wakeup
watched st m t = ground arith

watchdog_again :
    (sch : Scheduler) → heartbeat_watchdog (heartbeat_watchdog sch) ≡ heartbeat_watchdog sch
watchdog_again sch =
    rw (heartbeat_watchdog_lem sch) (heartbeat_watchdog_lem _ ∙ simp (watch_again, append-nil) refl)

-- One round of the watchdog, with nothing else between its lock and the end of its publications, wakes
-- whatever waits: afterwards each session with a triggerable mailbox
-- has a turn in flight or its flag up; a session that it found waiting has had a wakeup published;
-- and a second round right after changes nothing and publishes nothing.
pub watchdog_wakes :
    (sch : Scheduler) (s : String) (st : SessionRuntimeState)
    → Entries Own sch.session_states
    → get sch.session_states s ≡ some st
    → has_mailbox_events st ≡ true
    → has_triggerable_mailbox_events st ≡ true
    → let sch' = heartbeat_watchdog sch in
      ((st.inflight ≡ true) ⊎ (flagged (get sch'.session_states s) ≡ true))
      × (needs_wakeup st ≡ true → wakeups s sch.published < wakeups s sch'.published)
      × (heartbeat_watchdog sch' ≡ sch')
watchdog_wakes sch s st o e m t = (
  rw (heartbeat_watchdog_lem sch, watch-get sch.session_states s, e) (watched st m t),
  λ n. omega (
    arith,
    ap (λ y. wakeups s y.published) (heartbeat_watchdog_lem sch),
    wakeups-append s sch.published (watch sch.session_states).1,
    watch-woken sch.session_states s st o e n,
  ),
  watchdog_again sch,
)
