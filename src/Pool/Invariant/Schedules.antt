-- ===== src/Pool/Invariant/Schedules.antt =====
-- Any schedule of the threads of a pool (7.10/threadPool/thread_pool.hpp), from its construction on.
use my_linux.Base.{
  ℕ, ◌≡◌, inl, inr, List, [], ◌∷◌, ◌++◌, get_elem?, some, set, arith, refl, replicate, Option-cases,
}
use my_linux.Base.Totals.{total, total-replicate, total-append}
use my_linux.Pool.{
  ThreadPool, ThreadPlace, outside, push_lock, unstarted, worker_lock, worker_asleep, PoolOutcome,
  waiting, undefined_front, ran, PoolEvent, starts, calls_push, runs, wakes, create_pool, pool_act,
  pool_actor, pool_step, pool_run,
}
use my_linux.Pool.Counts.{inside, loading, sleeping, carries, IsMove, set-IsMove}
use my_linux.Pool.Invariant.{IsPool, Spends, waits, spends}
use my_linux.Pool.Invariant.Bounds.{still_accounted}
use my_linux.Pool.Invariant.Working.{pool_statement-Spends}

module _ {T : Type 0} (call : T → T) where
  pub create_pool-IsPool : (cap n : ℕ) → IsPool call (create_pool cap n)
  unfolding create_pool
  create_pool-IsPool cap n = record {
    owner = none_at inside refl refl;
    stock = omega (arith, none_at loading refl refl);
    order = refl;
    accounted = λ w. omega (arith, none_at (carries (λ t. w (call t))) refl refl);
    awake = inl (none_at sleeping refl refl);
  }
    where
      none_at :
          (w : ThreadPlace T → ℕ)
          → w unstarted ≡ 0
          → w outside ≡ 0
          → total w (replicate cap unstarted ++ replicate n outside) ≡ 0
      none_at w e f = omega (
        arith,
        total-append w (replicate cap unstarted) (replicate n outside),
        total-replicate w cap unstarted e,
        total-replicate w n outside f,
      )

  -- An event that cannot happen, or one that leaves a sound pool.
  pub data Keeps : PoolOutcome T → Type 0 where
    held : Keeps waiting
    goes_on : (p : ThreadPool T) → IsPool call p → Keeps (ran p)

  Spends-Keeps : {p : ThreadPool T} {out : PoolOutcome T} → Spends call p out → Keeps out
  Spends-Keeps waits = held
  Spends-Keeps (spends q h b s) = goes_on q h

  -- A thread goes from one place to another that counts alike for the mutex and the tasks.
  module _ (p : ThreadPool T) (h : IsPool call p) (i : ℕ) where
    starts-IsPool :
        get_elem? p.threads i ≡ some unstarted
        → IsPool call (record p { threads = set p.threads i worker_lock })
    starts-IsPool e = record {
      owner = omega (arith, m, h.owner);
      stock = omega (arith, m, h.stock);
      order = h.order;
      accounted = still_accounted call p h i _ _ e (λ w. refl);
      awake = omega (arith, m, h.awake);
    }
      where
        m : IsMove unstarted worker_lock p.threads (set p.threads i worker_lock)
        m = set-IsMove p.threads i _ _ e

    calls-IsPool :
        (x : T)
        → get_elem? p.threads i ≡ some outside
        → IsPool call (record p { threads = set p.threads i (push_lock x) })
    calls-IsPool x e = record {
      owner = omega (arith, m, h.owner);
      stock = omega (arith, m, h.stock);
      order = h.order;
      accounted = still_accounted call p h i _ _ e (λ w. refl);
      awake = omega (arith, m, h.awake);
    }
      where
        m : IsMove outside (push_lock x) p.threads (set p.threads i (push_lock x))
        m = set-IsMove p.threads i _ _ e

    wakes-IsPool :
        get_elem? p.threads i ≡ some worker_asleep
        → IsPool call (record p { threads = set p.threads i worker_lock })
    wakes-IsPool e = record {
      owner = omega (arith, m, h.owner);
      stock = omega (arith, m, h.stock);
      order = h.order;
      accounted = still_accounted call p h i _ _ e (λ w. refl);
      awake = omega (arith, m, h.awake);
    }
      where
        m : IsMove worker_asleep worker_lock p.threads (set p.threads i worker_lock)
        m = set-IsMove p.threads i _ _ e

  pool_act-Keeps :
      (p : ThreadPool T)
      → IsPool call p
      → (e : PoolEvent T) (place : ThreadPlace T)
      → get_elem? p.threads (pool_actor call e) ≡ some place
      → Keeps (pool_act call p e place)
  pool_act-Keeps p h (starts i) unstarted f = goes_on _ (starts-IsPool p h i f)
  pool_act-Keeps p h (starts i) _ f = held
  pool_act-Keeps p h (calls_push i x) outside f = goes_on _ (calls-IsPool p h i x f)
  pool_act-Keeps p h (calls_push i x) _ f = held
  pool_act-Keeps p h (runs i j) place f = Spends-Keeps (pool_statement-Spends call p h i j place f)
  pool_act-Keeps p h (wakes i) worker_asleep f = goes_on _ (wakes-IsPool p h i f)
  pool_act-Keeps p h (wakes i) _ f = held

  pub pool_step-Keeps :
      (p : ThreadPool T) → IsPool call p → (e : PoolEvent T) → Keeps (pool_step call p e)
  unfolding pool_step
  pool_step-Keeps p h e = elim (Option-cases (get_elem? p.threads (pool_actor call e))) [
    | inl f ↦ rw (pool_step, f) held
    | inr (place, f) ↦ rw (pool_step, f) (pool_act-Keeps p h e place f)
  ]

  -- A schedule that has run to its end, and left a sound pool.
  abbrev pub Ends : PoolOutcome T → Type 0
  Ends out = (q : ThreadPool T) × IsPool call q × (out ≡ ran q)

  pool_run-Ends :
      (p : ThreadPool T) → IsPool call p → (es : List (PoolEvent T)) → Ends (pool_run call p es)
  unfolding pool_run
  pool_run-Ends p h [] = (p, h, refl)
  pool_run-Ends p h (e ∷ es) =
      after (pool_step call p e) (pool_step-Keeps p h e) (pool_run-Ends p h es)
        (λ q k. pool_run-Ends q k es)
    where
      after :
          (out : PoolOutcome T)
          → Keeps out
          → Ends (pool_run call p es)
          → ((q : ThreadPool T) → IsPool call q → Ends (pool_run call q es))
          → Ends (elim out as (λ _. PoolOutcome T) [
            | waiting ↦ pool_run call p es
            | undefined_front ↦ undefined_front
            | ran q ↦ pool_run call q es
          ])
      after _ held skip on = skip
      after _ (goes_on q k) skip on = on q k

  -- From a pool of any number of workers and callers, every sequence of starts, calls, statements and
  -- wake-ups, spurious ones too, runs without taking the front of an empty queue, and leaves a pool in
  -- which the mutex has one owner exactly when it is held, the tasks are popped in the order of their
  -- pushes, each task popped is with one worker or finished once, and, if a worker sleeps, every task in
  -- the queue is accounted for by a worker that will look at the queue or a signal to come.
  pub pool_run-IsPool :
      (cap n : ℕ) (es : List (PoolEvent T))
      → (q : ThreadPool T) × IsPool call q × (pool_run call (create_pool cap n) es ≡ ran q)
  pool_run-IsPool cap n es = pool_run-Ends _ (create_pool-IsPool cap n) es
