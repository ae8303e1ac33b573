-- ===== src/Bus/Order.antt =====
-- The order in which the bus handles the events of one session.
use fairy_claw.Base.{
  ℕ, zero, suc, ◌≤◌, String, ◌≡◌, refl, ◌∙◌, sym, Bool, true, Option, none, some, List, [], ◌∷◌,
  ◌++◌, inl, inr, arith, ap, max, if◌then◌else◌, str_eq, get_elem?, set, Bool-cases, eq_iff,
  str_eq_refl, keep, keep-append, all,
}
use mathlib.Core.Path.{ap₂}
use mathlib.Core.List.{append-nil, append_assoc}
use fairy_claw.Base.Dict.{get, put, remove, discard, get-put, get-remove}
use fairy_claw.Event.{RuntimeEvent}
use fairy_claw.Bus.{
  Worker, waiting, holding, dispatching, Bus, queue_of, start, repeat, publish, retire,
  pop_next_event, reschedule_session, put_worker, got, Step, publishes, takes, pops, finishes,
}
use fairy_claw.Bus.Schedule.{
  owns, held, held-set, owns-le-held, held_le_one, held-repeat, IsScheduled, Step-IsScheduled,
  start-IsScheduled,
}

-- What a step publishes, and the event whose dispatch it ends.
abbrev pub published : {b b' : Bus} → Step b b' → List RuntimeEvent
published (publishes e) = e ∷ []
published (takes i s rest g r) = []
published (pops i s g) = []
published (finishes i s e g) = []

abbrev pub completed : {b b' : Bus} → Step b b' → List RuntimeEvent
completed (publishes e) = []
completed (takes i s rest g r) = []
completed (pops i s g) = []
completed (finishes i s e g) = e ∷ []

-- A run of the bus with what has been published and what has been handled so far, in order.
pub data Trace (n : ℕ) : Bus → List RuntimeEvent → List RuntimeEvent → Type 0 where
  quiet : Trace n (start n) [] []
  step :
      {b b' : Bus} {ps hs : List RuntimeEvent}
      → Trace n b ps hs
      → (st : Step b b') → Trace n b' (ps ++ published st) (hs ++ completed st)

abbrev pub addressed : String → RuntimeEvent → Bool
addressed s e = str_eq e.session_id s

-- The events of one session in a list, and those that a worker is dispatching for it.
abbrev pub events_of : String → List RuntimeEvent → List RuntimeEvent
events_of s es = keep (addressed s) es

abbrev pub flight : String → Worker → List RuntimeEvent
flight s waiting = []
flight s (holding t) = []
flight s (dispatching t e) = if str_eq t s then e ∷ [] else []

abbrev pub in_flight : String → List Worker → List RuntimeEvent
in_flight s [] = []
in_flight s (w ∷ ws) = flight s w ++ in_flight s ws

in_flight_none : (s : String) (ws : List Worker) → held s ws ≡ 0 → in_flight s ws ≡ []
in_flight_none s [] h = refl
in_flight_none s (waiting ∷ ws) h = in_flight_none s ws (omega arith)
in_flight_none s (holding t ∷ ws) h = in_flight_none s ws (omega arith)
in_flight_none s (dispatching t e ∷ ws) h = elim (Bool-cases (str_eq t s)) [
  | inl q ↦ absurd (ground arith)
  | inr q ↦ rw q (in_flight_none s ws (omega arith))
]

-- The worker that has a session in hand is the only one that dispatches for it.
in_flight_owner :
    (s : String) (ws : List Worker) (i : ℕ) (w : Worker)
    → get_elem? ws i ≡ some w
    → owns s w ≡ 1
    → held s ws ≤ 1
    → in_flight s ws ≡ flight s w
in_flight_owner s [] i w g o h = cc
in_flight_owner s (v ∷ ws) zero w g o h =
    let e : v ≡ w = cc in
    let rest = in_flight_none s ws (omega (arith, ap (owns s) e)) in
    rw (rest, e) (append-nil (flight s w))
in_flight_owner s (v ∷ ws) (suc i) w g o h =
    let le = owns-le-held s ws i w g in
    let first : in_flight s (v ∷ []) ≡ [] = in_flight_none s (v ∷ []) (omega arith) in
    ap (λ es. es ++ in_flight s ws) (sym (append-nil (flight s v)) ∙ first)
    ∙ in_flight_owner s ws i w g o (omega arith)

get_elem?-set :
    (ws : List Worker) (i : ℕ) (old new : Worker)
    → get_elem? ws i ≡ some old
    → get_elem? (set ws i new) i ≡ some new
get_elem?-set [] i old new g = cc
get_elem?-set (w ∷ ws) zero old new g = refl
get_elem?-set (w ∷ ws) (suc i) old new g = get_elem?-set ws i old new g

flight_none : (s : String) (w : Worker) → owns s w ≡ 0 → flight s w ≡ []
flight_none s waiting o = refl
flight_none s (holding t) o = refl
flight_none s (dispatching t e) o = ground arith

-- A worker of another session does not count.
in_flight_other :
    (s : String) (ws : List Worker) (i : ℕ) (old new : Worker)
    → get_elem? ws i ≡ some old
    → owns s old ≡ 0
    → owns s new ≡ 0
    → in_flight s (set ws i new) ≡ in_flight s ws
in_flight_other s [] i old new g o n = refl
in_flight_other s (w ∷ ws) zero old new g o n =
    let e : w ≡ old = cc in rw (flight_none s new n, e, flight_none s old o)
in_flight_other s (w ∷ ws) (suc i) old new g o n =
    ap (λ es. flight s w ++ es) (in_flight_other s ws i old new g o n)

-- What is still to be handled of a session: the event in a worker's hands, then the queue.
abbrev pub pending : Bus → String → List RuntimeEvent
pending b s = in_flight s b.workers ++ queue_of b s

-- A worker that takes a session dispatches nothing yet, and one that lets it go had nothing.
in_flight-take :
    (ws : List Worker) (i : ℕ) (s t : String)
    → get_elem? ws i ≡ some waiting
    → held t (set ws i (holding s)) ≤ 1
    → in_flight t (set ws i (holding s)) ≡ in_flight t ws
in_flight-take ws i s t g one = elim (Bool-cases (str_eq s t)) [
  | inl e ↦
      in_flight_owner t (set ws i (holding s)) i (holding s)
        (get_elem?-set ws i waiting (holding s) g) (rw e) one
      ∙ sym (in_flight_none t ws (ground (arith, held-set t ws i waiting (holding s) g)))
  | inr e ↦ in_flight_other t ws i waiting (holding s) g refl (rw e)
]

in_flight-release :
    (ws : List Worker) (i : ℕ) (s t : String)
    → get_elem? ws i ≡ some (holding s)
    → held t ws ≤ 1
    → in_flight t (set ws i waiting) ≡ in_flight t ws
in_flight-release ws i s t g one = elim (Bool-cases (str_eq s t)) [
  | inl e ↦
      in_flight_none t (set ws i waiting) (ground (arith, held-set t ws i (holding s) waiting g))
      ∙ sym (in_flight_owner t ws i (holding s) g (rw e) one)
  | inr e ↦ in_flight_other t ws i (holding s) waiting g (rw e) refl
]

-- With the event that a worker begins to dispatch, or ends: before or after it there is no other.
in_flight-dispatch :
    (ws : List Worker) (i : ℕ) (s t : String) (e : RuntimeEvent)
    → get_elem? ws i ≡ some (holding s)
    → held t ws ≤ 1
    → in_flight t (set ws i (dispatching s e)) ≡ in_flight t ws ++ flight t (dispatching s e)
in_flight-dispatch ws i s t e g one = elim (Bool-cases (str_eq s t)) [
  | inl m ↦
      in_flight_owner t (set ws i (dispatching s e)) i (dispatching s e)
        (get_elem?-set ws i (holding s) (dispatching s e) g) (rw m)
        (omega (arith, held-set t ws i (holding s) (dispatching s e) g))
      ∙ rw (in_flight_owner t ws i (holding s) g (rw m) one)
  | inr m ↦
      in_flight_other t ws i (holding s) (dispatching s e) g (rw m) (rw m)
      ∙ sym (rw m (append-nil (in_flight t ws)))
]

in_flight-finish :
    (ws : List Worker) (i : ℕ) (s t : String) (e : RuntimeEvent)
    → get_elem? ws i ≡ some (dispatching s e)
    → held t ws ≤ 1
    → in_flight t ws ≡ flight t (dispatching s e) ++ in_flight t (set ws i waiting)
in_flight-finish ws i s t e g one = elim (Bool-cases (str_eq s t)) [
  | inl m ↦
      in_flight_owner t ws i (dispatching s e) g (rw m) one
      ∙ rw
          (in_flight_none t (set ws i waiting)
            (ground (arith, held-set t ws i (dispatching s e) waiting g)))
          (sym (append-nil _))
  | inr m ↦ sym (rw m (in_flight_other t ws i (dispatching s e) waiting g (rw m) refl))
]

-- Dropping a queue that is missing or empty changes no queue.
queue_of-remove :
    (b : Bus) (s t : String)
    → queue_of b s ≡ []
    → queue_of (record b { session_queues = remove b.session_queues s }) t ≡ queue_of b t
queue_of-remove b s t h = ground (arith, eq_iff s t, get-remove b.session_queues s t)

-- All that has been published for each session is what has been handled, in that order, followed by
-- what is pending.
abbrev InOrder : Bus → List RuntimeEvent → List RuntimeEvent → Type 0
InOrder b ps hs = (s : String) → events_of s ps ≡ events_of s hs ++ pending b s

workers-publish : (b : Bus) (e : RuntimeEvent) → (publish b e).workers ≡ b.workers
unfolding publish
workers-publish b e = ground arith

queue_of-publish :
    (b : Bus) (e : RuntimeEvent) (s : String)
    → queue_of (publish b e) s ≡ queue_of b s ++ events_of s (e ∷ [])
unfolding publish
queue_of-publish b e s =
    let queued = get-put b.session_queues e.session_id s (queue_of b e.session_id ++ e ∷ []) in
    elim (Bool-cases (str_eq e.session_id s)) [
      | inl m ↦
          let q : e.session_id ≡ s = (eq_iff e.session_id s).0 m in
          ground (arith, queued, ap (queue_of b) q)
      | inr m ↦ ground (arith, queued, append-nil (queue_of b s))
    ]

publish-InOrder :
    (b : Bus) (ps hs : List RuntimeEvent) (e : RuntimeEvent)
    → InOrder b ps hs
    → InOrder (publish b e) (ps ++ e ∷ []) hs
publish-InOrder b ps hs e h s =
    keep-append (addressed s) ps (e ∷ [])
    ∙ rw (h s, workers-publish b e, queue_of-publish b e s) (simp append_assoc)

all-keep : (s : String) (es : List RuntimeEvent) → all (addressed s) (events_of s es) ≡ true
all-keep s [] = refl
all-keep s (e ∷ es) = ground (arith, all-keep s es)

all-middle :
    (s : String) (es fs : List RuntimeEvent) (e : RuntimeEvent)
    → all (addressed s) (es ++ e ∷ fs) ≡ true
    → addressed s e ≡ true
all-middle s [] fs e h = ground arith
all-middle s (x ∷ es) fs e h = all-middle s es fs e (ground arith)

-- A dispatched event is one of its worker's session.
dispatched-addressed :
    (b : Bus) (ps hs : List RuntimeEvent) (i : ℕ) (s : String) (e : RuntimeEvent)
    → get_elem? b.workers i ≡ some (dispatching s e)
    → IsScheduled b
    → InOrder b ps hs
    → e.session_id ≡ s
dispatched-addressed b ps hs i s e g v h =
    let rest = in_flight s (set b.workers i waiting) ++ queue_of b s in
    let one = in_flight-finish b.workers i s s e g (held_le_one b s v) in
    let split : events_of s ps ≡ events_of s hs ++ e ∷ rest = h s ∙ rw one (rw (str_eq_refl s)) in
    (eq_iff e.session_id s).0 (all-middle s (events_of s hs) rest e (rw (← split) (all-keep s ps)))

queue_of-reschedule : (b : Bus) (s t : String) → queue_of (reschedule_session b s) t ≡ queue_of b t
unfolding reschedule_session retire
queue_of-reschedule b s t = ground (arith, eq_iff s t, get-remove b.session_queues s t)

workers-reschedule : (b : Bus) (s : String) → (reschedule_session b s).workers ≡ b.workers
unfolding reschedule_session retire
workers-reschedule b s = ground arith

finishes-InOrder :
    (b : Bus) (ps hs : List RuntimeEvent) (i : ℕ) (s : String) (e : RuntimeEvent)
    → get_elem? b.workers i ≡ some (dispatching s e)
    → IsScheduled b
    → InOrder b ps hs
    → InOrder (put_worker (reschedule_session b s) i waiting) ps (hs ++ e ∷ [])
finishes-InOrder b ps hs i s e g v h t =
    let d = dispatched-addressed b ps hs i s e g v h in
    let f : events_of t (e ∷ []) ≡ flight t (dispatching s e) = rw d in
    let fin = in_flight-finish b.workers i s t e g (held_le_one b t v) in
    h t
    ∙ rw
        (
          fin,
          keep-append (addressed t) hs (e ∷ []),
          f,
          queue_of-reschedule b s t,
          workers-reschedule b s,
        )
        (simp append_assoc)

queue_of-put :
    (b : Bus) (s t : String) (q : List RuntimeEvent)
    → queue_of (record b { session_queues = put b.session_queues s q }) t
      ≡ (if str_eq s t then q else queue_of b t)
queue_of-put b s t q = ground (arith, get-put b.session_queues s t q)

-- The head of the queue has gone to the end of what is dispatched.
move-event :
    (b : Bus) (s t : String) (x : RuntimeEvent) (q : List RuntimeEvent)
    → get b.session_queues s ≡ some (x ∷ q)
    → (in_flight t b.workers ++ flight t (dispatching s x))
        ++ (if str_eq s t then q else queue_of b t)
      ≡ pending b t
move-event b s t x q e = elim (Bool-cases (str_eq s t)) [
  | inl m ↦
      let whole : queue_of b s ≡ x ∷ q = rw (e, queue_of) in
      let all' : queue_of b t ≡ x ∷ q = rw (← (eq_iff s t).0 m) whole in
      rw m (
        append_assoc (in_flight t b.workers) (x ∷ []) q
        ∙ ap (λ r. in_flight t b.workers ++ r) (sym all'))
  | inr m ↦ rw m (ap (λ es. es ++ queue_of b t) (append-nil (in_flight t b.workers)))
]

-- The step of a worker that asks for the next event, for each answer.
pops-pending :
    (b : Bus) (i : ℕ) (s t : String)
    → get_elem? b.workers i ≡ some (holding s)
    → IsScheduled b
    → pending (got (pop_next_event b s) i s) t ≡ pending b t
unfolding pop_next_event
pops-pending b i s t g v = go (get b.session_queues s) refl
  where
    one : held t b.workers ≤ 1
    one = held_le_one b t v

    freed : in_flight t (set b.workers i waiting) ≡ in_flight t b.workers
    freed = in_flight-release b.workers i s t g one

    go :
        (o : Option (List RuntimeEvent))
        → get b.session_queues s ≡ o
        → pending
            (got
              (elim o [
                | none ↦ (record b { scheduled_sessions = discard b.scheduled_sessions s }, none)
                | some [] ↦ (retire b s, none)
                | some (e ∷ q) ↦ (record b { session_queues = put b.session_queues s q }, some e)
              ])
              i
              s)
            t
          ≡ pending b t
    go none e = ap (λ es. es ++ queue_of b t) freed
    go (some []) e = ap₂ (λ es q. es ++ q) freed (queue_of-remove b s t (rw (e, queue_of)))
    go (some (x ∷ q)) e =
        ap₂ (λ es r. es ++ r) (in_flight-dispatch b.workers i s t x g one) (queue_of-put b s t q)
        ∙ move-event b s t x q e

start-pending : (n : ℕ) (s : String) → pending (start n) s ≡ []
unfolding start get
start-pending n s =
    append-nil (in_flight s (repeat (max 1 n)))
    ∙ in_flight_none s (repeat (max 1 n)) (held-repeat s (max 1 n))

Step-InOrder :
    {b b' : Bus} (ps hs : List RuntimeEvent) (st : Step b b')
    → IsScheduled b
    → InOrder b ps hs
    → InOrder b' (ps ++ published st) (hs ++ completed st)
Step-InOrder {b} ps hs (publishes e) v h t = rw (append-nil hs) (publish-InOrder b ps hs e h t)
Step-InOrder {b} ps hs (takes i s rest g r) v h t =
    let v' = Step-IsScheduled (takes i s rest g r) v in
    rw (append-nil hs, append-nil ps)
      (h t
        ∙ ap (λ es. events_of t hs ++ (es ++ queue_of b t))
            (sym (in_flight-take b.workers i s t g (held_le_one _ t v'))))
Step-InOrder {b} ps hs (pops i s g) v h t =
    rw (append-nil hs, append-nil ps)
      (h t ∙ ap (λ es. events_of t hs ++ es) (sym (pops-pending b i s t g v)))
Step-InOrder {b} ps hs (finishes i s e g) v h t =
    rw (append-nil ps) (finishes-InOrder b ps hs i s e g v h t)

pub Trace-IsScheduled :
    {n : ℕ} {b : Bus} {ps hs : List RuntimeEvent} → Trace n b ps hs → IsScheduled b
Trace-IsScheduled {n} quiet = start-IsScheduled n
Trace-IsScheduled (step tr st) = Step-IsScheduled st (Trace-IsScheduled tr)

Trace-InOrder : {n : ℕ} {b : Bus} {ps hs : List RuntimeEvent} → Trace n b ps hs → InOrder b ps hs
Trace-InOrder {n} quiet = λ s. sym (start-pending n s)
Trace-InOrder (step {ps = ps} {hs = hs} tr st) =
    Step-InOrder ps hs st (Trace-IsScheduled tr) (Trace-InOrder tr)

-- In every run of the bus, with any number of workers and any interleaving, the events published for
-- a session are the ones handled so far in the order of their publication, followed by the one that
-- a worker is dispatching, if any, followed by the queue: none is lost, repeated or overtaken.
pub events_in_order :
    {n : ℕ} {b : Bus} {ps hs : List RuntimeEvent} (s : String)
    → Trace n b ps hs
    → events_of s ps ≡ events_of s hs ++ (in_flight s b.workers ++ queue_of b s)
events_in_order s tr = Trace-InOrder tr s
