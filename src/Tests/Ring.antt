-- ===== src/Tests/Ring.antt =====
-- The ring of 7.9/sem/RingQueue.hpp on concrete schedules.
use my_linux.Base.{true, false, ℕ, ◌+◌, ◌≤◌, ◌≡◌, refl, List, [], ◌∷◌, ◌++◌, length, arith}
use my_linux.Ring.{
  Ring, push_unlock, push_wait, pop_wait, ran, Event, calls_push, calls_pop, runs, step, run,
  create,
}
use my_linux.Ring.Counts.{in_push, in_pop}
use my_linux.Ring.Invariant.{IsSound}
use my_linux.Ring.Invariant.Schedules.{run-IsSound, run_fifo}
use my_linux.Ring.Invariant.Progress.{run_excludes, run_advances}

-- Two producers and a consumer of one slot: the first producer fills it, the second waits.
abbrev crossed : List Event
crossed =
    calls_push 0 7 ∷ calls_push 1 8 ∷ runs 0 ∷ runs 1 ∷ runs 0 ∷ runs 0 ∷ calls_pop 2 ∷ runs 0 ∷ []

abbrev after_crossed : Ring
after_crossed = record {
  queue = 7 ∷ [];
  capacity = 1;
  data_sem = 0;
  space_sem = 0;
  c_pos = 0;
  p_pos = 0;
  c_mtx = false;
  p_mtx = true;
  threads = push_unlock ∷ push_wait 8 ∷ pop_wait ∷ [];
  stored = 7 ∷ [];
  loaded = [];
}

crossed_lem : run (create 1 3) crossed ≡ ran after_crossed
unfolding run step create
crossed_lem = refl

run-IsSound_example : (s : Ring) × (n : ℕ) × IsSound s n × (run (create 1 3) crossed ≡ ran s)
run-IsSound_example = run-IsSound 0 3 crossed

run_fifo_example :
    (s : Ring) × (rest : List ℕ) × (run (create 1 3) crossed ≡ ran s)
    × (s.stored ≡ s.loaded ++ rest)
    × (length rest ≤ s.capacity)
run_fifo_example = run_fifo 0 3 crossed

run_excludes_example :
    (in_push push_unlock + in_push (push_wait 8) ≤ 1)
    × (in_pop push_unlock + in_pop (push_wait 8) ≤ 1)
run_excludes_example =
    run_excludes 0 3 crossed after_crossed 0 1 push_unlock (push_wait 8) crossed_lem
      (λ e. omega (arith, e)) refl refl

run_advances_example : (t : ℕ) × (u : Ring) × (step after_crossed (runs t) ≡ ran u)
run_advances_example = run_advances 0 3 crossed after_crossed 1 2 8 crossed_lem refl refl
