-- ===== src/Bus/Schedule.antt =====
-- Which sessions the bus has scheduled: each once, in the ready queue or in the hands of one worker.
use fairy_claw.Base.{
  ℕ, zero, suc, ◌+◌, ◌≤◌, max, String, ◌≡◌, ◌≢◌, refl, true, Option, none, some, List, [], ◌∷◌,
  ◌++◌, inl, inr, arith, ap, if◌then◌else◌, str_eq, mem_text, get_elem?, set, not_empty, Bool-cases,
  eq_iff,
}
use fairy_claw.Base.Dict.{
  Dict, get, put, remove, discard, get-put, get-remove, mem-add, mem-discard,
}
use fairy_claw.Event.{RuntimeEvent}
use fairy_claw.Bus.{
  Worker, waiting, holding, dispatching, Bus, queue_of, start, repeat, publish, retire,
  pop_next_event, reschedule_session, put_worker, got, Step, publishes, takes, pops, finishes,
}

-- 1 if the two sessions are one, and 0 if not.
abbrev pub same : String → String → ℕ
same t s = if str_eq t s then 1 else 0

-- How often a session stands in a list, and how many workers have it in hand.
abbrev pub occurrences : String → List String → ℕ
occurrences s [] = 0
occurrences s (t ∷ ts) = same t s + occurrences s ts

abbrev pub owns : String → Worker → ℕ
owns s waiting = 0
owns s (holding t) = same t s
owns s (dispatching t e) = same t s

abbrev pub held : String → List Worker → ℕ
held s [] = 0
held s (w ∷ ws) = owns s w + held s ws

pub record IsScheduled (b : Bus) : Type 0 where
  pub once :
      (s : String)
      → occurrences s b.ready_sessions + held s b.workers
        ≡ (if mem_text s b.scheduled_sessions then 1 else 0)
  pub served :
      (s : String) → not_empty (queue_of b s) ≡ true → mem_text s b.scheduled_sessions ≡ true

pub held-set :
    (s : String) (ws : List Worker) (i : ℕ) (old new : Worker)
    → get_elem? ws i ≡ some old
    → held s (set ws i new) + owns s old ≡ held s ws + owns s new
held-set s [] i old new h = cc
held-set s (w ∷ ws) zero old new h = let e : w ≡ old = cc in rw (← e) (omega arith)
held-set s (w ∷ ws) (suc i) old new h = omega (arith, held-set s ws i old new h)

pub occurrences-append :
    (s : String) (ts us : List String)
    → occurrences s (ts ++ us) ≡ occurrences s ts + occurrences s us
occurrences-append s [] us = omega arith
occurrences-append s (t ∷ ts) us = omega (arith, occurrences-append s ts us)

pub held-repeat : (s : String) (n : ℕ) → held s (repeat n) ≡ 0
unfolding repeat
held-repeat s zero = refl
held-repeat s (suc n) = omega (arith, held-repeat s n)

pub start-IsScheduled : (n : ℕ) → IsScheduled (start n)
unfolding start get
start-IsScheduled n = record {
  once = λ s. omega (arith, held-repeat s (max 1 n));
  served = λ s h. cc;
}

publish-IsScheduled : (b : Bus) (e : RuntimeEvent) → IsScheduled b → IsScheduled (publish b e)
unfolding publish
publish-IsScheduled b e v = elim (Bool-cases (mem_text e.session_id b.scheduled_sessions)) [
  | inl m ↦ rw m (record {
    once = v.once;
    served = λ s h. ground (
      arith,
      v.served s,
      eq_iff e.session_id s,
      get-put b.session_queues e.session_id s (queue_of b e.session_id ++ e ∷ []),
    );
  })
  | inr m ↦ rw m (record {
    once = λ s. ground (
      arith,
      v.once s,
      occurrences-append s b.ready_sessions (e.session_id ∷ []),
      eq_iff e.session_id s,
      mem-add b.scheduled_sessions e.session_id s,
    );
    served = λ s h. ground (
      arith,
      v.served s,
      eq_iff e.session_id s,
      mem-add b.scheduled_sessions e.session_id s,
      get-put b.session_queues e.session_id s (queue_of b e.session_id ++ e ∷ []),
    );
  })
]

-- A worker that lets its session go, with the queue of that session gone too.
release-IsScheduled :
    (b : Bus) (q : Dict (List RuntimeEvent)) (i : ℕ) (s : String) (old : Worker)
    → get_elem? b.workers i ≡ some old
    → ((t : String) → owns t old ≡ same s t)
    → ((t : String) → get q t ≡ (if str_eq s t then none else get b.session_queues t))
    → IsScheduled b
    → IsScheduled (
        put_worker
          (record b { scheduled_sessions = discard b.scheduled_sessions s; session_queues = q })
          i
          waiting)
release-IsScheduled b q i s old g own gone v = record {
  once = λ t. ground (
    arith,
    v.once t,
    own t,
    eq_iff s t,
    held-set t b.workers i old waiting g,
    mem-discard b.scheduled_sessions s t,
  );
  served =
      λ t h. ground (arith, v.served t, gone t, eq_iff s t, mem-discard b.scheduled_sessions s t);
}

-- A worker that passes from one hold on its session to another, with the queue of that session
-- changed; the session was scheduled, since the worker had it.
keep-IsScheduled :
    (b : Bus) (q : List RuntimeEvent) (i : ℕ) (s : String) (old new : Worker)
    → get_elem? b.workers i ≡ some old
    → ((t : String) → owns t old ≡ same s t)
    → ((t : String) → owns t new ≡ same s t)
    → IsScheduled b
    → IsScheduled (put_worker (record b { session_queues = put b.session_queues s q }) i new)
keep-IsScheduled b q i s old new g own own' v = record {
  once = λ t. ground (arith, v.once t, own t, own' t, held-set t b.workers i old new g);
  served = λ t h. ground (
    arith,
    v.served t,
    v.once t,
    own t,
    eq_iff s t,
    held-set t b.workers i old waiting g,
    get-put b.session_queues s t q,
  );
}

pops-IsScheduled :
    (b : Bus) (i : ℕ) (s : String)
    → get_elem? b.workers i ≡ some (holding s)
    → IsScheduled b
    → IsScheduled (got (pop_next_event b s) i s)
unfolding pop_next_event
pops-IsScheduled b i s g v = go (get b.session_queues s) refl
  where
    go :
        (o : Option (List RuntimeEvent))
        → get b.session_queues s ≡ o
        → IsScheduled (
            got
              (elim o [
                | none ↦ (record b { scheduled_sessions = discard b.scheduled_sessions s }, none)
                | some [] ↦ (retire b s, none)
                | some (e ∷ q) ↦ (record b { session_queues = put b.session_queues s q }, some e)
              ])
              i
              s)
    go none e =
        release-IsScheduled b b.session_queues i s (holding s) g (λ t. refl)
          (λ t. ground (arith, eq_iff s t)) v
    go (some []) e =
        release-IsScheduled b (remove b.session_queues s) i s (holding s) g (λ t. refl)
          (get-remove b.session_queues s) v
    go (some (x ∷ q)) e =
        keep-IsScheduled b q i s (holding s) (dispatching s x) g (λ t. refl) (λ t. refl) v

-- A worker that puts its session back among the ready ones.
back-IsScheduled :
    (b : Bus) (i : ℕ) (s : String) (e : RuntimeEvent)
    → get_elem? b.workers i ≡ some (dispatching s e)
    → IsScheduled b
    → IsScheduled (put_worker (record b { ready_sessions = b.ready_sessions ++ s ∷ [] }) i waiting)
back-IsScheduled b i s e g v = record {
  once = λ t. omega (
    arith,
    v.once t,
    held-set t b.workers i (dispatching s e) waiting g,
    occurrences-append t b.ready_sessions (s ∷ []),
  );
  served = v.served;
}

finishes-IsScheduled :
    (b : Bus) (i : ℕ) (s : String) (e : RuntimeEvent)
    → get_elem? b.workers i ≡ some (dispatching s e)
    → IsScheduled b
    → IsScheduled (put_worker (reschedule_session b s) i waiting)
unfolding reschedule_session
finishes-IsScheduled b i s e g v = go (get b.session_queues s)
  where
    gone : IsScheduled (put_worker (retire b s) i waiting)
    gone =
        release-IsScheduled b (remove b.session_queues s) i s (dispatching s e) g (λ t. refl)
          (get-remove b.session_queues s) v

    go :
        (o : Option (List RuntimeEvent))
        → IsScheduled (
            put_worker
              (elim o [
                | none ↦ retire b s
                | some [] ↦ retire b s
                | some (x ∷ q) ↦ record b { ready_sessions = b.ready_sessions ++ s ∷ [] }
              ])
              i
              waiting)
    go none = gone
    go (some []) = gone
    go (some (x ∷ q)) = back-IsScheduled b i s e g v

takes-IsScheduled :
    (b : Bus) (i : ℕ) (s : String) (rest : List String)
    → get_elem? b.workers i ≡ some waiting
    → b.ready_sessions ≡ s ∷ rest
    → IsScheduled b
    → IsScheduled (put_worker (record b { ready_sessions = rest }) i (holding s))
takes-IsScheduled b i s rest g r v = record {
  once = λ t.
      omega (arith, v.once t, ap (occurrences t) r, held-set t b.workers i waiting (holding s) g);
  served = v.served;
}

-- Every step of the bus keeps each scheduled session in one place, and each session with queued
-- events scheduled.
pub Step-IsScheduled : {b b' : Bus} → Step b b' → IsScheduled b → IsScheduled b'
Step-IsScheduled {b} (publishes e) v = publish-IsScheduled b e v
Step-IsScheduled {b} (takes i s rest g r) v = takes-IsScheduled b i s rest g r v
Step-IsScheduled {b} (pops i s g) v = pops-IsScheduled b i s g v
Step-IsScheduled {b} (finishes i s e g) v = finishes-IsScheduled b i s e g v

pub data Reach (n : ℕ) : Bus → Type 0 where
  begin : Reach n (start n)
  next : {b b' : Bus} → Reach n b → Step b b' → Reach n b'

pub Reach-IsScheduled : {n : ℕ} {b : Bus} → Reach n b → IsScheduled b
Reach-IsScheduled {n} begin = start-IsScheduled n
Reach-IsScheduled (next r st) = Step-IsScheduled st (Reach-IsScheduled r)

pub owns-le-held :
    (s : String) (ws : List Worker) (i : ℕ) (w : Worker)
    → get_elem? ws i ≡ some w
    → owns s w ≤ held s ws
owns-le-held s [] i w h = cc
owns-le-held s (v ∷ ws) zero w h = let e : v ≡ w = cc in rw (← e) (omega arith)
owns-le-held s (v ∷ ws) (suc i) w h = omega (arith, owns-le-held s ws i w h)

owns_two :
    (s : String) (ws : List Worker) (i j : ℕ) (w w' : Worker)
    → i ≢ j
    → get_elem? ws i ≡ some w
    → get_elem? ws j ≡ some w'
    → owns s w + owns s w' ≤ held s ws
owns_two s [] i j w w' ne g h = cc
owns_two s (v ∷ ws) zero zero w w' ne g h = absurd (ne refl)
owns_two s (v ∷ ws) zero (suc j) w w' ne g h =
    let e : v ≡ w = cc in rw (← e) (omega (arith, owns-le-held s ws j w' h))
owns_two s (v ∷ ws) (suc i) zero w w' ne g h =
    let e : v ≡ w' = cc in rw (← e) (omega (arith, owns-le-held s ws i w g))
owns_two s (v ∷ ws) (suc i) (suc j) w w' ne g h =
    omega (arith, owns_two s ws i j w w' (λ e. ne (ap suc e)) g h)

pub held_le_one : (b : Bus) (s : String) → IsScheduled b → held s b.workers ≤ 1
held_le_one b s v = ground (arith, v.once s)

-- Whatever is published and however the workers interleave, two workers never have the same session
-- in hand, so no two events of one session are dispatched at the same time.
pub one_worker_per_session :
    {n : ℕ} {b : Bus} (s : String) (i j : ℕ) (w w' : Worker)
    → Reach n b
    → i ≢ j
    → get_elem? b.workers i ≡ some w
    → get_elem? b.workers j ≡ some w'
    → owns s w + owns s w' ≤ 1
one_worker_per_session {b = b} s i j w w' r ne g h =
    omega (arith, owns_two s b.workers i j w w' ne g h, held_le_one b s (Reach-IsScheduled r))

-- No session is stranded: one with a queued event is ready exactly once, or exactly one worker has
-- it in hand.
pub queued_session_is_scheduled :
    {n : ℕ} {b : Bus} (s : String)
    → Reach n b
    → not_empty (queue_of b s) ≡ true
    → occurrences s b.ready_sessions + held s b.workers ≡ 1
queued_session_is_scheduled s r h =
    ground (arith, (Reach-IsScheduled r).once s, (Reach-IsScheduled r).served s)
