-- ===== src/BlockQueue.antt =====
-- 7.3/blockingQueue/blockQueue.hpp: a bounded queue between any number of producers and consumers, with
-- one mutex and a condition variable for each side. A thread runs one statement at a time, and the
-- statements of different threads come in any order.
pub mod Counts
pub mod Invariant
use mathlib.Core.Option
use my_linux.Base.{
  ℕ, zero, suc, ◌+◌, Bool, true, false, Option, none, some, List, [], ◌∷◌, ◌++◌, ◌==◌,
  if◌then◌else◌, get_elem?, set, replicate, length,
}

-- Where a thread stands: outside, or before the statement of `push` or `pop` that the name says. After
-- `pthread_cond_wait` a woken thread is before the lock again. Items are only moved, so any number stands
-- for one.
pub data Place : Type 0 where
  outside : Place
  push_lock push_test push_asleep push_store : ℕ → Place
  push_signal push_unlock : Place
  pop_lock pop_test pop_asleep pop_load : Place
  pop_signal pop_unlock : ℕ → Place

-- `class BlockQueue` with its threads. The last two fields are for the proofs alone: all the items
-- stored and all those loaded, in order.
pub record BlockQueue : Type 0 where
  pub items : List ℕ
  pub cap : ℕ
  pub mutex : Bool
  pub threads : List Place
  pub stored : List ℕ
  pub loaded : List ℕ

-- `BlockQueue(cap)`, and threads that have called nothing yet.
unfoldable pub create_queue : ℕ → ℕ → BlockQueue
create_queue cap n = record {
  items = [];
  cap = cap;
  mutex = false;
  threads = replicate n outside;
  stored = [];
  loaded = [];
}

-- A statement that waits, `front` of an empty queue, and a statement that has run.
pub data Outcome : Type 0 where
  waiting : Outcome
  undefined_front : Outcome
  ran : BlockQueue → Outcome

abbrev pub is_full : BlockQueue → Bool
is_full q = length q.items == q.cap

abbrev pub is_empty : BlockQueue → Bool
is_empty q = elim q.items [ [] ↦ true | _ ∷ _ ↦ false ]

abbrev pub moves : BlockQueue → ℕ → Place → BlockQueue
moves q i p = record q { threads = set q.threads i p }

-- Who is woken, if anyone sleeps on the variable of the consumers, or of the producers.
unfoldable pub first_consumer : List Place → Option ℕ
first_consumer [] = none
first_consumer (p ∷ ts) =
    let rest = Option.map suc (first_consumer ts) in elim p [ pop_asleep ↦ some 0 | _ ↦ rest ]

unfoldable pub first_producer : List Place → Option (ℕ × ℕ)
first_producer [] = none
first_producer (p ∷ ts) =
    let rest = Option.map (λ k. (suc k.0, k.1)) (first_producer ts) in
    elim p [ push_asleep x ↦ some (0, x) | _ ↦ rest ]

-- `pthread_cond_signal` wakes one sleeping thread, which the kernel chooses: `j`, if it sleeps there.
unfoldable pub wake_consumer : List Place → ℕ → List Place
unfolding first_consumer
wake_consumer ts j =
    let other : List Place = elim (first_consumer ts) [ none ↦ ts | some k ↦ set ts k pop_lock ] in
    elim (get_elem? ts j) [
      | none ↦ other
      | some p ↦ elim p [ pop_asleep ↦ set ts j pop_lock | _ ↦ other ]
    ]

unfoldable pub wake_producer : List Place → ℕ → List Place
unfolding first_producer
wake_producer ts j =
    let other : List Place = elim (first_producer ts) [
      | none ↦ ts
      | some k ↦ set ts k.0 (push_lock k.1)
    ] in
    elim (get_elem? ts j) [
      | none ↦ other
      | some p ↦ elim p [ push_asleep x ↦ set ts j (push_lock x) | _ ↦ other ]
    ]

-- `*out = _q.front(); _q.pop();`
unfoldable pub take_front : BlockQueue → ℕ → Outcome
take_front q i = elim q.items [
  | [] ↦ undefined_front
  | x ∷ rest ↦
      ran (record (moves q i (pop_signal x)) { items = rest; loaded = q.loaded ++ (x ∷ []) })
]

-- `pthread_mutex_lock` waits while the mutex is held.
abbrev pub lock : BlockQueue → ℕ → Place → Outcome
lock q i p = if q.mutex then waiting else ran (record (moves q i p) { mutex = true })

-- `pthread_cond_wait` gives the mutex back and sleeps.
abbrev pub cond_wait : BlockQueue → ℕ → Place → BlockQueue
cond_wait q i p = record (moves q i p) { mutex = false }

-- The next statement of thread `i`, which stands at the place; `j` is the thread to wake.
unfoldable pub statement : BlockQueue → ℕ → ℕ → Place → Outcome
unfolding wake_consumer wake_producer take_front
statement q i j outside = waiting
statement q i j (push_lock x) = lock q i (push_test x)
statement q i j (push_test x) =
    ran (if is_full q then cond_wait q i (push_asleep x) else moves q i (push_store x))
statement q i j (push_asleep x) = waiting
statement q i j (push_store x) =
    ran (record (moves q i push_signal) {
      items = q.items ++ (x ∷ []);
      stored = q.stored ++ (x ∷ []);
    })
statement q i j push_signal =
    ran (record q { threads = wake_consumer (set q.threads i push_unlock) j })
statement q i j push_unlock = ran (record (moves q i outside) { mutex = false })
statement q i j pop_lock = lock q i pop_test
statement q i j pop_test = ran (if is_empty q then cond_wait q i pop_asleep else moves q i pop_load)
statement q i j pop_asleep = waiting
statement q i j pop_load = take_front q i
statement q i j (pop_signal x) =
    ran (record q { threads = wake_producer (set q.threads i (pop_unlock x)) j })
statement q i j (pop_unlock x) = ran (record (moves q i outside) { mutex = false })

-- What happens next: a thread that is outside calls `push` or `pop`, a thread runs a statement, or
-- one that sleeps wakes up with no signal, as POSIX allows.
pub data Event : Type 0 where
  calls_push : ℕ → ℕ → Event
  calls_pop : ℕ → Event
  runs : ℕ → ℕ → Event
  wakes : ℕ → Event

abbrev pub enter : BlockQueue → ℕ → Place → Place → Outcome
enter q i to outside = ran (moves q i to)
enter q i to _ = waiting

abbrev pub spurious : BlockQueue → ℕ → Place → Outcome
spurious q i (push_asleep x) = ran (moves q i (push_lock x))
spurious q i pop_asleep = ran (moves q i pop_lock)
spurious q i _ = waiting

abbrev pub act : BlockQueue → Event → Place → Outcome
act q (calls_push i x) p = enter q i (push_lock x) p
act q (calls_pop i) p = enter q i pop_lock p
act q (runs i j) p = statement q i j p
act q (wakes i) p = spurious q i p

abbrev pub actor : Event → ℕ
actor (calls_push i x) = i
actor (calls_pop i) = i
actor (runs i j) = i
actor (wakes i) = i

unfoldable pub step : BlockQueue → Event → Outcome
unfolding statement
step q e = elim (get_elem? q.threads (actor e)) [ none ↦ waiting | some p ↦ act q e p ]

-- A schedule: an event that cannot happen yet is passed over.
unfoldable pub run : BlockQueue → List Event → Outcome
unfolding step
run q [] = ran q
run q (e ∷ es) =
    let skip = run q es in
    elim (step q e) [ waiting ↦ skip | undefined_front ↦ undefined_front | ran s ↦ run s es ]
