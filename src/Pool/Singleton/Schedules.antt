-- ===== src/Pool/Singleton/Schedules.antt =====
-- Any schedule of the callers of `get_instance` (7.10/threadPool/thread_pool.hpp).
use mathlib.Core.Option.{none-ne-some, some-injective}
use my_linux.Base.{
  Bool, ℕ, zero, suc, ◌≤◌, ◌≡◌, inl, inr, false, Option, none, some, List, [], ◌∷◌, length,
  get_elem?, replicate, arith, refl, ap, sym, subst, Bool-cases, Option-cases,
}
use my_linux.Base.Totals.{total-replicate, total_found}
use my_linux.Pool.Singleton.{
  Workers, Caller, away, first_check, got, PoolClass, no_instance, ClassOutcome, blocked,
  null_pointer, went, ClassEvent, enters, goes, class_act, class_actor, class_step, class_run,
}
use my_linux.Pool.Singleton.Once.{
  bit, Settled, Fits, holding, IsOnce, held_le, Keeps, waits, keeps, quiet-IsOnce,
}
use my_linux.Pool.Singleton.Statements.{get_instance-Keeps}

module _ (creates : ℕ → Bool) where
  class_act-Keeps :
      (s : PoolClass)
      → IsOnce creates s
      → (e : ClassEvent) (c : Caller) → get_elem? s.callers (class_actor e) ≡ some c
      → Keeps creates (class_act creates s e c)
  class_act-Keeps s h (enters i) away f =
      keeps _ (quiet-IsOnce creates s h i away first_check f refl tt)
  class_act-Keeps s h (enters i) (got a) f =
      keeps _ (quiet-IsOnce creates s h i (got a) first_check f refl tt)
  class_act-Keeps s h (enters i) _ f = waits
  class_act-Keeps s h (goes i) c f = get_instance-Keeps creates s h i c f

  class_step-Keeps :
      (s : PoolClass) → IsOnce creates s → (e : ClassEvent) → Keeps creates (class_step creates s e)
  unfolding class_step
  class_step-Keeps s h e = elim (Option-cases (get_elem? s.callers (class_actor e))) [
    | inl f ↦ rw (class_step, f) waits
    | inr (c, f) ↦ rw (class_step, f) (class_act-Keeps s h e c f)
  ]

  no_instance-IsOnce : (cap n : ℕ) → IsOnce creates (no_instance cap n)
  unfolding no_instance
  no_instance-IsOnce cap n = record {
    owner = total-replicate holding n away refl;
    fits = λ i c e. subst (Fits creates none [] cap) (sym (all_away n i c e)) tt;
    only = λ a e. absurd (none-ne-some a e);
    settled = λ _. inl (refl, refl);
  }
    where
      all_away : (m i : ℕ) (c : Caller) → get_elem? (replicate m away) i ≡ some c → c ≡ away
      all_away zero i c e = absurd (none-ne-some c e)
      all_away (suc m) zero c e = sym (some-injective away c e)
      all_away (suc m) (suc i) c e = all_away m i c e

  -- A schedule that has run to its end.
  abbrev Ends : ClassOutcome → Type 0
  Ends out = (s : PoolClass) × IsOnce creates s × (out ≡ went s)

  class_run-Ends :
      (s : PoolClass) → IsOnce creates s → (es : List ClassEvent) → Ends (class_run creates s es)
  unfolding class_run
  class_run-Ends s h [] = (s, h, refl)
  class_run-Ends s h (e ∷ es) =
      after (class_step creates s e) (class_step-Keeps s h e) (class_run-Ends s h es)
        (λ t k. class_run-Ends t k es)
    where
      after :
          (out : ClassOutcome)
          → Keeps creates out
          → Ends (class_run creates s es)
          → ((t : PoolClass) → IsOnce creates t → Ends (class_run creates t es))
          → Ends (elim out as (λ _. ClassOutcome) [
            | blocked ↦ class_run creates s es
            | null_pointer ↦ null_pointer
            | went t ↦ class_run creates t es
          ])
      after _ waits skip on = skip
      after _ (keeps t k) skip on = on t k

  Settled-length :
      (ptr : Option ℕ) (heap : List Workers) (cap : ℕ)
      → Settled creates ptr heap cap
      → length heap ≤ 1
  Settled-length ptr heap cap (inl h) = omega (arith, ap length h.1)
  Settled-length ptr heap cap (inr h) = omega (arith, ap length h.1)

  IsOnce-length : (s : PoolClass) → IsOnce creates s → length s.heap ≤ 1
  IsOnce-length s h = elim (Bool-cases s.static_mtx) [
    | inl m ↦
        let (i, c, e, g) = total_found holding s.callers (omega (arith, h.owner, ap bit m)) in
        held_le creates s.instance_ptr s.heap s.cap c g (h.fits i c e)
    | inr m ↦ Settled-length s.instance_ptr s.heap s.cap (h.settled m)
  ]

  -- However any number of threads interleave their calls of `get_instance`, no null pointer is followed, at
  -- most one pool is ever made, every call that has returned gave a pointer to it, and whenever the static
  -- mutex is free there is no pool, or `_instance` points to the only one and its workers, as many as `_thread_cap`, have the
  -- numbers from 1 on and have all been started: each has a thread of the system just if
  -- `pthread_create` succeeds for it, and its status is RUNNING in either case.
  pub class_run_once :
      (cap n : ℕ) (es : List ClassEvent)
      → (s : PoolClass) × (class_run creates (no_instance cap n) es ≡ went s)
        × (length s.heap ≤ 1)
        × ((i : ℕ) (a : Option ℕ)
            → get_elem? s.callers i ≡ some (got a)
            → (a ≡ some 0) × (s.instance_ptr ≡ some 0))
        × (s.static_mtx ≡ false → Settled creates s.instance_ptr s.heap s.cap)
  class_run_once cap n es =
      let (s, h, e) = class_run-Ends _ (no_instance-IsOnce cap n) es in
      (s, e, IsOnce-length s h, λ i a f. h.fits i (got a) f, h.settled)
