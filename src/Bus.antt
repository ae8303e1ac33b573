-- ===== src/Bus.antt =====
-- `SessionEventBus` of fairyclaw/core/events/bus.py. Every method that holds `_lock` is one atomic
-- step on the bus; what a worker of `_worker_loop` does between two awaits is one step of that
-- worker. A handler runs inside `_dispatch`, between `dispatching` and the reschedule.
pub mod Schedule
pub mod Order
pub mod Tests
use fairy_claw.Base.{
  ℕ, zero, suc, ◌+◌, max, String, ◌≡◌, refl, Bool, true, false, Option, none, some, List, [], ◌∷◌,
  ◌++◌, if◌then◌else◌, str_eq, mem_text, length, get_elem?, set,
}
use fairy_claw.Base.Dict.{Dict, get, put, remove, TextSet, add, discard}
use fairy_claw.Event.{RuntimeEvent, RuntimeEventType, event_type_value}

-- Where a worker is in its loop: waiting for a ready session, with a session taken from
-- `_ready_sessions`, or inside `_dispatch` of an event.
pub data Worker : Type 0 where
  waiting : Worker
  holding : String → Worker
  dispatching : String → RuntimeEvent → Worker

pub record Bus : Type 0 where
  pub session_queues : Dict (List RuntimeEvent)
  pub ready_sessions : List String
  pub scheduled_sessions : TextSet
  pub workers : List Worker

-- `asyncio.Queue` of a session that has none is empty.
abbrev pub queue_of : Bus → String → List RuntimeEvent
queue_of b s = elim (get b.session_queues s) [ none ↦ [] | some q ↦ q ]

pub repeat : ℕ → List Worker
repeat zero = []
repeat (suc n) = waiting ∷ repeat n

-- A new bus, after `start` has made its workers.
unfoldable pub start : ℕ → Bus
unfolding repeat
start worker_count = record {
  session_queues = [];
  ready_sessions = [];
  scheduled_sessions = [];
  workers = repeat (max 1 worker_count);
}

unfoldable pub publish : Bus → RuntimeEvent → Bus
publish b e =
    let queued = record b {
      session_queues = put b.session_queues e.session_id (queue_of b e.session_id ++ e ∷ []);
    } in
    if mem_text e.session_id b.scheduled_sessions then queued else record queued {
      scheduled_sessions = add b.scheduled_sessions e.session_id;
      ready_sessions = b.ready_sessions ++ e.session_id ∷ [];
    }

-- The session is no longer scheduled and its empty queue is dropped.
pub retire : Bus → String → Bus
retire b s = record b {
  scheduled_sessions = discard b.scheduled_sessions s;
  session_queues = remove b.session_queues s;
}

unfoldable pub pop_next_event : Bus → String → Bus × Option RuntimeEvent
unfolding retire
pop_next_event b s = elim (get b.session_queues s) [
  | none ↦ (record b { scheduled_sessions = discard b.scheduled_sessions s }, none)
  | some [] ↦ (retire b s, none)
  | some (e ∷ q) ↦ (record b { session_queues = put b.session_queues s q }, some e)
]

unfoldable pub reschedule_session : Bus → String → Bus
unfolding retire
reschedule_session b s = elim (get b.session_queues s) [
  | none ↦ retire b s
  | some [] ↦ retire b s
  | some (e ∷ q) ↦ record b { ready_sessions = b.ready_sessions ++ s ∷ [] }
]

abbrev pub put_worker : Bus → ℕ → Worker → Bus
put_worker b i w = record b { workers = set b.workers i w }

-- What a worker that asked for the next event of its session does with the answer.
abbrev pub got : Bus × Option RuntimeEvent → ℕ → String → Bus
got (b, none) i s = put_worker b i waiting
got (b, some e) i s = put_worker b i (dispatching s e)

-- The steps of the bus: a publication, and the three steps of worker `i`.
pub data Step (b : Bus) : Bus → Type 0 where
  publishes : (e : RuntimeEvent) → Step b (publish b e)
  takes :
      (i : ℕ) (s : String) (rest : List String)
      → get_elem? b.workers i ≡ some waiting
      → b.ready_sessions ≡ s ∷ rest
      → Step b (put_worker (record b { ready_sessions = rest }) i (holding s))
  pops :
      (i : ℕ) (s : String)
      → get_elem? b.workers i ≡ some (holding s)
      → Step b (got (pop_next_event b s) i s)
  finishes :
      (i : ℕ) (s : String) (e : RuntimeEvent)
      → get_elem? b.workers i ≡ some (dispatching s e)
      → Step b (put_worker (reschedule_session b s) i waiting)
