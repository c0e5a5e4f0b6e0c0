-- ===== src/Ring/Invariant/Schedules.antt =====
-- Any schedule of the threads of a ring (7.9/sem/RingQueue.hpp), from its construction on.
use native.Mathlib.Nat.{mod-add-mod}
use my_linux.Base.{
  set, set, ℕ, suc, ◌%◌, ◌≤◌, ◌≡◌, refl, sym, inl, inr, Option-cases, List, [], ◌∷◌, ◌++◌, length,
  get_elem?, some, arith, length-replicate, replicate,
}
use my_linux.Ring.{
  Ring, Pc, Stepped, blocked, out_of_range, ran, idle, push_wait, push_lock, push_store, push_wrap,
  push_unlock, push_post, pop_wait, pop_lock, pop_load, pop_wrap, pop_unlock, pop_post, statement,
  Event, calls_push, calls_pop, runs, enter, step, run, create,
}
use my_linux.Ring.Slots.{slots, length-slots}
use my_linux.Base.Totals.{total, total-replicate}
use my_linux.Ring.Invariant.{IsSound, IsMove, set-IsMove, Keeps, waits, goes_on}
use my_linux.Ring.Invariant.Producers.{
  push_wait-Keeps, push_lock-Keeps, push_store-Keeps, push_wrap-Keeps, push_unlock-Keeps,
  push_post-Keeps,
}
use my_linux.Ring.Invariant.Consumers.{
  pop_wait-Keeps, pop_lock-Keeps, pop_load-Keeps, pop_wrap-Keeps, pop_unlock-Keeps, pop_post-Keeps,
}

pub create-IsSound : (num k : ℕ) → IsSound (create (suc num) k) 0
unfolding create
create-IsSound num k = record {
  positive = omega arith;
  buffer = length-replicate (suc num) 0;
  free = omega (arith, none_at);
  filled = omega (arith, none_at);
  p_lock = omega (arith, none_at);
  c_lock = omega (arith, none_at);
  p_range = omega arith;
  c_range = omega arith;
  turn = sym (mod-add-mod 0 (suc num) 0);
  items = refl;
}
  where
    none_at : (w : Pc → ℕ) → w idle ≡ 0 → total w (replicate k idle) ≡ 0
    none_at w e = total-replicate w k idle e

module _ (r : Ring) (n : ℕ) (h : IsSound r n) (i : ℕ) where
  statement-Keeps : (pc : Pc) → get_elem? r.threads i ≡ some pc → Keeps (statement r i pc)
  unfolding statement
  statement-Keeps idle e = waits
  statement-Keeps (push_wait x) e = push_wait-Keeps r n h i x e
  statement-Keeps (push_lock x) e = push_lock-Keeps r n h i x e
  statement-Keeps (push_store x) e = push_store-Keeps r n h i x e
  statement-Keeps push_wrap e = push_wrap-Keeps r n h i e
  statement-Keeps push_unlock e = push_unlock-Keeps r n h i e
  statement-Keeps push_post e = push_post-Keeps r n h i e
  statement-Keeps pop_wait e = pop_wait-Keeps r n h i e
  statement-Keeps pop_lock e = pop_lock-Keeps r n h i e
  statement-Keeps pop_load e = pop_load-Keeps r n h i e
  statement-Keeps (pop_wrap x) e = pop_wrap-Keeps r n h i x e
  statement-Keeps (pop_unlock x) e = pop_unlock-Keeps r n h i x e
  statement-Keeps (pop_post x) e = pop_post-Keeps r n h i x e

  enter_push-Keeps :
      (x : ℕ) → (pc : Pc) → get_elem? r.threads i ≡ some pc → Keeps (enter r i (push_wait x) pc)
  enter_push-Keeps x idle e = goes_on _ n (record {
    positive = h.positive;
    buffer = h.buffer;
    free = omega (arith, m);
    filled = omega (arith, m);
    p_lock = omega (arith, m);
    c_lock = omega (arith, m);
    p_range = omega (arith, m);
    c_range = omega (arith, m);
    turn = h.turn;
    items = h.items;
  })
    where
      m : IsMove idle (push_wait x) r.threads (set r.threads i (push_wait x))
      m = set-IsMove r.threads i _ _ e
  enter_push-Keeps x _ e = waits

  enter_pop-Keeps : (pc : Pc) → get_elem? r.threads i ≡ some pc → Keeps (enter r i pop_wait pc)
  enter_pop-Keeps idle e = goes_on _ n (record {
    positive = h.positive;
    buffer = h.buffer;
    free = omega (arith, m);
    filled = omega (arith, m);
    p_lock = omega (arith, m);
    c_lock = omega (arith, m);
    p_range = omega (arith, m);
    c_range = omega (arith, m);
    turn = h.turn;
    items = h.items;
  })
    where
      m : IsMove idle pop_wait r.threads (set r.threads i pop_wait)
      m = set-IsMove r.threads i _ _ e
  enter_pop-Keeps _ e = waits

pub step-Keeps : (r : Ring) (n : ℕ) → IsSound r n → (e : Event) → Keeps (step r e)
unfolding step
step-Keeps r n h (calls_push i x) = elim (Option-cases (get_elem? r.threads i)) [
  | inl e ↦ rw (step, e) waits
  | inr (pc, e) ↦ rw (step, e) (enter_push-Keeps r n h i x pc e)
]
step-Keeps r n h (calls_pop i) = elim (Option-cases (get_elem? r.threads i)) [
  | inl e ↦ rw (step, e) waits
  | inr (pc, e) ↦ rw (step, e) (enter_pop-Keeps r n h i pc e)
]
step-Keeps r n h (runs i) = elim (Option-cases (get_elem? r.threads i)) [
  | inl e ↦ rw (step, e) waits
  | inr (pc, e) ↦ rw (step, e) (statement-Keeps r n h i pc e)
]

-- A schedule that has run to its end, and left a sound ring.
abbrev Ends : Stepped → Type 0
Ends out = (s : Ring) × (n : ℕ) × IsSound s n × (out ≡ ran s)

-- Whatever came out of the first event, the rest runs from a sound ring.
run_lem : (r : Ring) (n : ℕ) → IsSound r n → (es : List Event) → Ends (run r es)
unfolding run
run_lem r n h [] = (r, n, h, refl)
run_lem r n h (e ∷ es) =
    after (step r e) (step-Keeps r n h e) (run_lem r n h es) (λ s k i. run_lem s k i es)
  where
    after :
        (out : Stepped)
        → Keeps out
        → Ends (run r es)
        → ((s : Ring) (k : ℕ) → IsSound s k → Ends (run s es))
        → Ends (elim out as (λ _. Stepped) [
          | blocked ↦ run r es
          | out_of_range ↦ out_of_range
          | ran s ↦ run s es
        ])
    after _ waits skip on = skip
    after _ (goes_on s k i) skip on = on s k i

-- From a ring of capacity `num` above 0 and any number of threads, every sequence of calls and
-- statements runs without an access outside the vector, whatever the threads and their order, and leaves
-- a ring in which the semaphores count the items and the free slots less those taken by a thread under
-- way, each mutex has one owner exactly when it is held, and the slots from the consumers' position on
-- hold what was stored and not yet loaded.
pub run-IsSound :
    (num k : ℕ) (es : List Event)
    → (s : Ring) × (n : ℕ) × IsSound s n × (run (create (suc num) k) es ≡ ran s)
run-IsSound num k es = run_lem _ 0 (create-IsSound num k) es

-- After every schedule of any number of threads from a ring of capacity above 0, what the
-- consumers loaded, in order, followed by at most as many further items as the capacity, is
-- what the producers stored, in order.
pub run_fifo :
    (num k : ℕ) (es : List Event)
    → (s : Ring) × (rest : List ℕ) × (run (create (suc num) k) es ≡ ran s)
      × (s.stored ≡ s.loaded ++ rest)
      × (length rest ≤ s.capacity)
run_fifo num k es =
    let (s, n, h, e) = run-IsSound num k es in
    let rest = slots s.queue s.capacity (s.c_pos % s.capacity) n in
    (
      s,
      rest,
      e,
      h.items,
      omega (arith, h, length-slots s.queue s.capacity (s.c_pos % s.capacity) n),
    )
