-- ===== src/BlockQueue/Invariant/Schedules.antt =====
-- Any schedule of the threads of a block queue (7.3/blockingQueue/blockQueue.hpp), from its construction
-- on.
use my_linux.Base.{
  ℕ, suc, ◌≤◌, ◌≡◌, inl, inr, List, [], ◌∷◌, ◌++◌, length, get_elem?, some, set, arith, refl,
}
use my_linux.Base.Totals.{total}
use my_linux.BlockQueue.{
  BlockQueue, Place, outside, push_lock, push_asleep, pop_lock, pop_asleep, Outcome, waiting, ran,
  create_queue, Event, calls_push, calls_pop, runs, wakes, act, actor, step, run, undefined_front,
}
use my_linux.BlockQueue.Counts.{at_push_asleep, at_pop_asleep, IsMove, set-IsMove}
use my_linux.Base.{replicate, Option-cases}
use my_linux.Base.Totals.{total-replicate}
use my_linux.BlockQueue.Invariant.{IsMonitor, Keeps, waits, goes_on}
use my_linux.BlockQueue.Invariant.Statements.{statement-Keeps}

create_queue-IsMonitor : (cap k : ℕ) → IsMonitor (create_queue (suc cap) k)
unfolding create_queue
create_queue-IsMonitor cap k = record {
  positive = omega arith;
  owner = omega (arith, none_at);
  room = omega (arith, none_at);
  stock = omega (arith, none_at);
  order = refl;
  consumers = inl (none_at at_pop_asleep refl);
  producers = inl (none_at at_push_asleep refl);
}
  where
    none_at : (w : Place → ℕ) → w outside ≡ 0 → total w (replicate k outside) ≡ 0
    none_at w e = total-replicate w k outside e

module _ (q : BlockQueue) (h : IsMonitor q) (i : ℕ) where
  enters_push :
      (x : ℕ)
      → get_elem? q.threads i ≡ some outside
      → IsMonitor (record q { threads = set q.threads i (push_lock x) })
  enters_push x e = record {
    positive = h.positive;
    owner = omega (arith, m);
    room = omega (arith, m);
    stock = omega (arith, m);
    order = h.order;
    consumers = omega (arith, m);
    producers = omega (arith, m);
  }
    where
      m : IsMove outside (push_lock x) q.threads (set q.threads i (push_lock x))
      m = set-IsMove q.threads i _ _ e

  enters_pop :
      get_elem? q.threads i ≡ some outside
      → IsMonitor (record q { threads = set q.threads i pop_lock })
  enters_pop e = record {
    positive = h.positive;
    owner = omega (arith, m);
    room = omega (arith, m);
    stock = omega (arith, m);
    order = h.order;
    consumers = omega (arith, m);
    producers = omega (arith, m);
  }
    where
      m : IsMove outside pop_lock q.threads (set q.threads i pop_lock)
      m = set-IsMove q.threads i _ _ e

  wakes_push :
      (x : ℕ)
      → get_elem? q.threads i ≡ some (push_asleep x)
      → IsMonitor (record q { threads = set q.threads i (push_lock x) })
  wakes_push x e = record {
    positive = h.positive;
    owner = omega (arith, m);
    room = omega (arith, m);
    stock = omega (arith, m);
    order = h.order;
    consumers = omega (arith, m);
    producers = omega (arith, m);
  }
    where
      m : IsMove (push_asleep x) (push_lock x) q.threads (set q.threads i (push_lock x))
      m = set-IsMove q.threads i _ _ e

  wakes_pop :
      get_elem? q.threads i ≡ some pop_asleep
      → IsMonitor (record q { threads = set q.threads i pop_lock })
  wakes_pop e = record {
    positive = h.positive;
    owner = omega (arith, m);
    room = omega (arith, m);
    stock = omega (arith, m);
    order = h.order;
    consumers = omega (arith, m);
    producers = omega (arith, m);
  }
    where
      m : IsMove pop_asleep pop_lock q.threads (set q.threads i pop_lock)
      m = set-IsMove q.threads i _ _ e

act-Keeps :
    (q : BlockQueue)
    → IsMonitor q
    → (e : Event) (p : Place) → get_elem? q.threads (actor e) ≡ some p
    → Keeps (act q e p)
act-Keeps q h (calls_push i x) outside f = goes_on _ (enters_push q h i x f)
act-Keeps q h (calls_push i x) _ f = waits
act-Keeps q h (calls_pop i) outside f = goes_on _ (enters_pop q h i f)
act-Keeps q h (calls_pop i) _ f = waits
act-Keeps q h (runs i j) p f = statement-Keeps q h i j p f
act-Keeps q h (wakes i) (push_asleep x) f = goes_on _ (wakes_push q h i x f)
act-Keeps q h (wakes i) pop_asleep f = goes_on _ (wakes_pop q h i f)
act-Keeps q h (wakes i) _ f = waits

pub step-Keeps : (q : BlockQueue) → IsMonitor q → (e : Event) → Keeps (step q e)
unfolding step
step-Keeps q h e = elim (Option-cases (get_elem? q.threads (actor e))) [
  | inl f ↦ rw (step, f) waits
  | inr (p, f) ↦ rw (step, f) (act-Keeps q h e p f)
]

-- A schedule that has run to its end, and left a sound queue.
abbrev Ends : Outcome → Type 0
Ends out = (s : BlockQueue) × IsMonitor s × (out ≡ ran s)

run_lem : (q : BlockQueue) → IsMonitor q → (es : List Event) → Ends (run q es)
unfolding run
run_lem q h [] = (q, h, refl)
run_lem q h (e ∷ es) = after (step q e) (step-Keeps q h e) (run_lem q h es) (λ s i. run_lem s i es)
  where
    after :
        (out : Outcome)
        → Keeps out
        → Ends (run q es)
        → ((s : BlockQueue) → IsMonitor s → Ends (run s es))
        → Ends (elim out as (λ _. Outcome) [
          | waiting ↦ run q es
          | undefined_front ↦ undefined_front
          | ran s ↦ run s es
        ])
    after _ waits skip on = skip
    after _ (goes_on s i) skip on = on s i

-- From a queue of capacity above 0 and any number of threads, every sequence of calls,
-- statements and wake-ups, spurious ones too, runs without taking the front of an empty queue,
-- and leaves a queue in which the mutex has one owner exactly when it is held, the capacity is
-- kept, and, if a consumer sleeps, every item is accounted for by a consumer that is awake or a
-- signal to come, likewise for producers and free places.
pub run-IsMonitor :
    (cap k : ℕ) (es : List Event)
    → (s : BlockQueue) × IsMonitor s × (run (create_queue (suc cap) k) es ≡ ran s)
run-IsMonitor cap k es = run_lem _ (create_queue-IsMonitor cap k) es

-- After every schedule of any number of threads from a queue of capacity above 0, what the
-- consumers loaded, in order, followed by the items in the queue, at most its capacity, is what
-- the producers stored, in order.
pub run_order :
    (cap k : ℕ) (es : List Event)
    → (s : BlockQueue) × (run (create_queue (suc cap) k) es ≡ ran s)
      × (s.stored ≡ s.loaded ++ s.items)
      × (length s.items ≤ s.cap)
run_order cap k es = let (s, h, e) = run-IsMonitor cap k es in (s, e, h.order, omega (arith, h))
