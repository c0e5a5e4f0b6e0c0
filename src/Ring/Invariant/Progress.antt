-- ===== src/Ring/Invariant/Progress.antt =====
-- What the sound rings of 7.9/sem/RingQueue.hpp exclude: two owners of one mutex, and a deadlock.
use mathlib.Core.Bool.{true≢false}
use native.Mathlib.Decide.{dec_lt}
use my_linux.Base.{
  Bool, Option-cases, ℕ, suc, ◌+◌, ◌≤◌, ◌<◌, ◌≡◌, ◌≢◌, refl, ap, sym, ◌∙◌, inl, inr, true, false,
  Bool-cases, lt→ltb, List, get_elem?, some, arith, subst,
}
use my_linux.Ring.{
  Ring, Pc, Stepped, blocked, out_of_range, ran, idle, push_wait, push_lock, push_store, push_wrap,
  push_unlock, push_post, pop_wait, pop_lock, pop_load, pop_wrap, pop_unlock, pop_post, statement,
  store_item, load_item, Event, runs, step, run, create,
}
use my_linux.Base.Totals.{total, weights_le, total_found}
use my_linux.Ring.Counts.{
  total-in_push, total-in_pop, total-ready, in_push, in_pop, ready, at_push_lock, at_pop_lock,
}
use my_linux.Ring.Invariant.{bit, bit_le, IsSound, Keeps, waits, goes_on}
use my_linux.Ring.Invariant.Producers.{push_store-Keeps, push_wait-Keeps, push_lock-Keeps}
use my_linux.Ring.Invariant.Consumers.{pop_load-Keeps, pop_wait-Keeps, pop_lock-Keeps}
use my_linux.Ring.Invariant.Schedules.{run-IsSound}

-- A step that does not wait, from a sound ring, has run.
abbrev is_blocked : Stepped → Bool
is_blocked blocked = true
is_blocked _ = false

not_blocked : (out : Stepped) → Keeps out → is_blocked out ≡ false → (s : Ring) × (out ≡ ran s)
not_blocked _ waits e = absurd (true≢false e)
not_blocked _ (goes_on s k i) e = (s, refl)

ran-injective : (r s : Ring) → ran r ≡ ran s → r ≡ s
ran-injective r s e = ap (λ out. elim out [ blocked ↦ r | out_of_range ↦ r | ran t ↦ t ]) e

store_item_lem : (r : Ring) (i x : ℕ) → is_blocked (store_item r i x) ≡ false
unfolding store_item
store_item_lem r i x = elim (Option-cases (get_elem? r.queue r.p_pos)) [
  | inl e ↦ rw (store_item, e) refl
  | inr (y, e) ↦ rw (store_item, e) refl
]

load_item_lem : (r : Ring) (i : ℕ) → is_blocked (load_item r i) ≡ false
unfolding load_item
load_item_lem r i = elim (Option-cases (get_elem? r.queue r.c_pos)) [
  | inl e ↦ rw (load_item, e) refl
  | inr (y, e) ↦ rw (load_item, e) refl
]

module _ (r : Ring) (n : ℕ) (h : IsSound r n) where
  one_owner :
      (i j : ℕ) (a b : Pc)
      → i ≢ j
      → get_elem? r.threads i ≡ some a
      → get_elem? r.threads j ≡ some b
      → (in_push a + in_push b ≤ 1) × (in_pop a + in_pop b ≤ 1)
  one_owner i j a b d e f = (
    omega (
      arith,
      h,
      bit_le r.p_mtx,
      total-in_push r.threads,
      weights_le in_push r.threads i j a b d e f,
    ),
    omega (
      arith,
      h,
      bit_le r.c_mtx,
      total-in_pop r.threads,
      weights_le in_pop r.threads i j a b d e f,
    ),
  )

  abbrev CanRun : Type 0
  CanRun = (i : ℕ) × (s : Ring) × (step r (runs i) ≡ ran s)

  can_run :
      (i : ℕ) (pc : Pc)
      → get_elem? r.threads i ≡ some pc
      → (s : Ring) → statement r i pc ≡ ran s
      → CanRun
  unfolding step
  can_run i pc e s f = (i, s, rw (step, e) f)

  unblocked :
      (i : ℕ) (pc : Pc)
      → get_elem? r.threads i ≡ some pc
      → Keeps (statement r i pc)
      → is_blocked (statement r i pc) ≡ false
      → CanRun
  unblocked i pc e k b = let (s, f) = not_blocked (statement r i pc) k b in can_run i pc e s f

  ready-CanRun : (i : ℕ) (pc : Pc) → get_elem? r.threads i ≡ some pc → 0 < ready pc → CanRun
  unfolding statement
  ready-CanRun i idle e p = elim p [ ]
  ready-CanRun i (push_wait x) e p = elim p [ ]
  ready-CanRun i (push_lock x) e p = elim p [ ]
  ready-CanRun i (push_store x) e p =
      unblocked i _ e (push_store-Keeps r n h i x e) (store_item_lem r i x)
  ready-CanRun i push_wrap e p = can_run i _ e _ refl
  ready-CanRun i push_unlock e p = can_run i _ e _ refl
  ready-CanRun i push_post e p = can_run i _ e _ refl
  ready-CanRun i pop_wait e p = elim p [ ]
  ready-CanRun i pop_lock e p = elim p [ ]
  ready-CanRun i pop_load e p = unblocked i _ e (pop_load-Keeps r n h i e) (load_item_lem r i)
  ready-CanRun i (pop_wrap x) e p = can_run i _ e _ refl
  ready-CanRun i (pop_unlock x) e p = can_run i _ e _ refl
  ready-CanRun i (pop_post x) e p = can_run i _ e _ refl

  counted-CanRun : 0 < total ready r.threads → CanRun
  counted-CanRun p = let (i, pc, e, g) = total_found ready r.threads p in ready-CanRun i pc e g

  push_lock-CanRun :
      (i : ℕ) (pc : Pc) → get_elem? r.threads i ≡ some pc → 0 < at_push_lock pc → CanRun
  unfolding statement
  push_lock-CanRun i (push_lock x) e p = elim (Bool-cases r.p_mtx) [
    | inl q ↦
        counted-CanRun (omega (arith, h, ap bit q, total-in_push r.threads, total-ready r.threads))
    | inr q ↦ unblocked i _ e (push_lock-Keeps r n h i x e) (rw (statement, q) refl)
  ]
  push_lock-CanRun i _ e p = elim p [ ]

  pop_lock-CanRun :
      (i : ℕ) (pc : Pc) → get_elem? r.threads i ≡ some pc → 0 < at_pop_lock pc → CanRun
  unfolding statement
  pop_lock-CanRun i pop_lock e p = elim (Bool-cases r.c_mtx) [
    | inl q ↦
        counted-CanRun (omega (arith, h, ap bit q, total-in_pop r.threads, total-ready r.threads))
    | inr q ↦ unblocked i _ e (pop_lock-Keeps r n h i e) (rw (statement, q) refl)
  ]
  pop_lock-CanRun i _ e p = elim p [ ]

  -- Where no thread is between the two semaphores, a free slot serves `push` and an item serves `pop`.
  waiting-CanRun :
      (i j x : ℕ)
      → get_elem? r.threads i ≡ some (push_wait x)
      → get_elem? r.threads j ≡ some pop_wait
      → total at_push_lock r.threads + total at_pop_lock r.threads + total ready r.threads ≡ 0
      → CanRun
  unfolding statement
  waiting-CanRun i j x e f z = elim (dec_lt 0 n) [
    | yes p ↦
        unblocked j _ f (pop_wait-Keeps r n h j f)
          (rw (statement, lt→ltb 0 r.data_sem (omega (arith, h, total-ready r.threads))) refl)
    | no p ↦
        unblocked i _ e (push_wait-Keeps r n h i x e)
          (rw (statement, lt→ltb 0 r.space_sem (omega (arith, h, total-ready r.threads))) refl)
  ]

  one_of-CanRun :
      (i j x : ℕ)
      → get_elem? r.threads i ≡ some (push_wait x)
      → get_elem? r.threads j ≡ some pop_wait
      → CanRun
  one_of-CanRun i j x e f = elim (dec_lt 0 (total ready r.threads)) [
    | yes p ↦ counted-CanRun p
    | no p ↦ elim (dec_lt 0 (total at_push_lock r.threads)) [
      | yes q ↦
          let (k, pc, a, g) = total_found at_push_lock r.threads q in push_lock-CanRun k pc a g
      | no q ↦ elim (dec_lt 0 (total at_pop_lock r.threads)) [
        | yes w ↦
            let (k, pc, a, g) = total_found at_pop_lock r.threads w in pop_lock-CanRun k pc a g
        | no w ↦ waiting-CanRun i j x e f (omega arith)
      ]
    ]
  ]

-- After every schedule from a ring of capacity above 0, of two different threads at most one is between
-- the lock and the unlock of `push`, and at most one between those of `pop`.
pub run_excludes :
    (num k : ℕ) (es : List Event) (s : Ring) (i j : ℕ) (a b : Pc)
    → run (create (suc num) k) es ≡ ran s
    → i ≢ j
    → get_elem? s.threads i ≡ some a
    → get_elem? s.threads j ≡ some b
    → (in_push a + in_push b ≤ 1) × (in_pop a + in_pop b ≤ 1)
run_excludes num k es s i j a b e d f g =
    let (t, n, h, q) = run-IsSound num k es in
    one_owner s n (subst (λ u. IsSound u n) (ran-injective t s (sym q ∙ e)) h) i j a b d f g

-- After every schedule from a ring of capacity above 0, if one thread waits for a free slot in
-- `push` and another for an item in `pop`, then some thread of the ring can run its next
-- statement.
pub run_advances :
    (num k : ℕ) (es : List Event) (s : Ring) (i j x : ℕ)
    → run (create (suc num) k) es ≡ ran s
    → get_elem? s.threads i ≡ some (push_wait x)
    → get_elem? s.threads j ≡ some pop_wait
    → (t : ℕ) × (u : Ring) × (step s (runs t) ≡ ran u)
run_advances num k es s i j x e f g =
    let (t, n, h, q) = run-IsSound num k es in
    one_of-CanRun s n (subst (λ u. IsSound u n) (ran-injective t s (sym q ∙ e)) h) i j x f g
