-- ===== src/Tests/BlockQueue.antt =====
-- The block queue of 7.3/blockingQueue/blockQueue.hpp on concrete schedules.
use my_linux.Base.{ℕ, ◌≤◌, ◌≡◌, refl, false, List, [], ◌∷◌, ◌++◌, length}
use my_linux.BlockQueue.{
  BlockQueue, outside, push_asleep, pop_lock, pop_asleep, ran, Event, calls_push, calls_pop, runs,
  step, run, create_queue,
}
use my_linux.BlockQueue.Invariant.{IsMonitor}
use my_linux.BlockQueue.Invariant.Schedules.{run-IsMonitor, run_order}
use my_linux.BlockQueue.Invariant.Progress.{run_wakes}

-- A consumer falls asleep and a producer fills the queue and falls asleep, before the signal for the first is
-- given: one place, four threads.
abbrev drowsy : List Event
drowsy =
    calls_pop 2
    ∷ runs 2 0
    ∷ runs 2 0
    ∷ calls_pop 3
    ∷ runs 3 0
    ∷ runs 3 0
    ∷ calls_push 0 7
    ∷ runs 0 0
    ∷ runs 0 0
    ∷ runs 0 0
    ∷ runs 0 2
    ∷ runs 0 0
    ∷ calls_push 1 8
    ∷ runs 1 0
    ∷ runs 1 0
    ∷ []

abbrev asleep : BlockQueue
asleep = record {
  items = 7 ∷ [];
  cap = 1;
  mutex = false;
  threads = outside ∷ push_asleep 8 ∷ pop_lock ∷ pop_asleep ∷ [];
  stored = 7 ∷ [];
  loaded = [];
}

drowsy_lem : run (create_queue 1 4) drowsy ≡ ran asleep
unfolding run step create_queue
drowsy_lem = refl

run-IsMonitor_example : (s : BlockQueue) × IsMonitor s × (run (create_queue 1 4) drowsy ≡ ran s)
run-IsMonitor_example = run-IsMonitor 0 4 drowsy

run_order_example :
    (s : BlockQueue) × (run (create_queue 1 4) drowsy ≡ ran s)
    × (s.stored ≡ s.loaded ++ s.items)
    × (length s.items ≤ s.cap)
run_order_example = run_order 0 4 drowsy

run_wakes_example : (t : ℕ) × (u : ℕ) × (r : BlockQueue) × (step asleep (runs t u) ≡ ran r)
run_wakes_example = run_wakes 0 4 drowsy asleep 1 3 8 drowsy_lem refl refl
