-- ===== src/Pool/Invariant/Working.antt =====
-- The statements of `thread_func` (7.10/threadPool/thread_pool.hpp) keep the invariant.
use my_linux.Base.{
  ℕ, ◌≡◌, inl, inr, Bool-cases, List, [], ◌∷◌, ◌++◌, length, append_assoc, refl, ap, sym, ◌∙◌,
  get_elem?, some, set, arith,
}
use my_linux.Base.Totals.{total-set, total-append}
use my_linux.Pool.{
  ThreadPool, ThreadPlace, outside, push_lock, push_store, push_signal, push_unlock, unstarted,
  worker_lock, worker_test, worker_asleep, worker_load, worker_unlock, worker_call, pool_statement,
  pop_task, no_tasks, ran,
}
use my_linux.Pool.Counts.{carries, loading_le, IsMove, set-IsMove}
use my_linux.Pool.Invariant.{bit, IsPool, Spends, waits, spends}
use my_linux.Pool.Invariant.Bounds.{bit_le, none_lem, some_lem, front_cases, still_accounted}
use my_linux.Pool.Invariant.Pushing.{
  push_lock-Spends, push_store-Spends, push_signal-Spends, push_unlock-Spends,
}

module _ {T : Type 0} (call : T → T) (p : ThreadPool T) (h : IsPool call p) (i : ℕ) where
  worker_lock-Spends :
      (j : ℕ)
      → get_elem? p.threads i ≡ some worker_lock
      → Spends call p (pool_statement call p i j worker_lock)
  unfolding pool_statement
  worker_lock-Spends j e = elim (Bool-cases p.mutex) [
    | inl f ↦ rw f waits
    | inr f ↦ rw f (
        spends _
          (record {
            owner = omega (arith, m, ap bit f, h.owner);
            stock = omega (arith, m, h.stock);
            order = h.order;
            accounted = still_accounted call p h i _ _ e (λ w. refl);
            awake = omega (arith, m, h.awake);
          })
          (omega (arith, m)) (omega (arith, m)))
  ]
    where
      m : IsMove worker_lock worker_test p.threads (set p.threads i worker_test)
      m = set-IsMove p.threads i _ _ e

  worker_test-Spends :
      (j : ℕ)
      → get_elem? p.threads i ≡ some worker_test
      → Spends call p (pool_statement call p i j worker_test)
  unfolding pool_statement
  worker_test-Spends j e = elim (Bool-cases (no_tasks p)) [
    | inl f ↦
        let m = set-IsMove p.threads i _ worker_asleep e in
        rw f (
          spends _
            (record {
              owner = omega (arith, m, h.owner, bit_le p.mutex);
              stock = omega (arith, m, h.stock);
              order = h.order;
              accounted = still_accounted call p h i _ _ e (λ w. refl);
              awake = inr (omega (arith, none_lem p.tasks f));
            })
            (omega (arith, m)) (omega (arith, m)))
    | inr f ↦
        let m = set-IsMove p.threads i _ worker_load e in
        rw f (
          spends _
            (record {
              owner = omega (arith, m, h.owner);
              stock = omega (
                arith,
                m,
                h.stock,
                h.owner,
                bit_le p.mutex,
                some_lem p.tasks f,
                loading_le (set p.threads i worker_load),
              );
              order = h.order;
              accounted = still_accounted call p h i _ _ e (λ w. refl);
              awake = omega (arith, m, h.awake);
            })
            (omega (arith, m)) (omega (arith, m)))
  ]

  pop_task_lem :
      (x : T) (rest : List T)
      → p.tasks ≡ x ∷ rest
      → pop_task p i
        ≡ ran (record p {
          threads = set p.threads i (worker_unlock x);
          tasks = rest;
          popped = p.popped ++ (x ∷ []);
        })
  unfolding pop_task
  pop_task_lem x rest f = rw f refl

  worker_load-Spends :
      (j : ℕ)
      → get_elem? p.threads i ≡ some worker_load
      → Spends call p (pool_statement call p i j worker_load)
  unfolding pool_statement
  worker_load-Spends j e =
      let (x, rest, f) = front_cases p.tasks (omega (arith, before, h.stock)) in
      rw (pop_task_lem x rest f)
        (taken x rest f (set-IsMove p.threads i worker_load (worker_unlock x) e))
    where
      before : IsMove worker_load outside p.threads (set p.threads i outside)
      before = set-IsMove p.threads i _ _ e

      taken :
          (x : T) (rest : List T)
          → p.tasks ≡ x ∷ rest
          → IsMove worker_load (worker_unlock x) p.threads (set p.threads i (worker_unlock x))
          → Spends call p (
              ran (record p {
                threads = set p.threads i (worker_unlock x);
                tasks = rest;
                popped = p.popped ++ (x ∷ []);
              }))
      taken x rest f m =
          spends _
            (record {
              owner = omega (arith, m, h.owner);
              stock = omega (arith, m, h.stock, ap length f);
              order =
                  h.order ∙ ap (λ l. p.popped ++ l) f ∙ sym (append_assoc p.popped (x ∷ []) rest);
              accounted = λ w. omega (
                arith,
                h.accounted w,
                total-append (λ t. w (call t)) p.popped (x ∷ []),
                total-set (carries (λ t. w (call t))) p.threads i _ (worker_unlock x) e,
              );
              awake = omega (arith, m, h.awake, ap length f);
            })
            (omega (arith, m, ap length f)) (omega (arith, m))

  worker_unlock-Spends :
      (x : T) (j : ℕ)
      → get_elem? p.threads i ≡ some (worker_unlock x)
      → Spends call p (pool_statement call p i j (worker_unlock x))
  unfolding pool_statement
  worker_unlock-Spends x j e =
      spends _
        (record {
          owner = omega (arith, m, h.owner, bit_le p.mutex);
          stock = omega (arith, m, h.stock);
          order = h.order;
          accounted = still_accounted call p h i _ _ e (λ w. refl);
          awake = omega (arith, m, h.awake);
        })
        (omega (arith, m)) (omega (arith, m))
    where
      m : IsMove (worker_unlock x) (worker_call x) p.threads (set p.threads i (worker_call x))
      m = set-IsMove p.threads i _ _ e

  worker_call-Spends :
      (x : T) (j : ℕ)
      → get_elem? p.threads i ≡ some (worker_call x)
      → Spends call p (pool_statement call p i j (worker_call x))
  unfolding pool_statement
  worker_call-Spends x j e =
      spends _
        (record {
          owner = omega (arith, m, h.owner);
          stock = omega (arith, m, h.stock);
          order = h.order;
          accounted = λ w. omega (
            arith,
            h.accounted w,
            total-append w p.finished (call x ∷ []),
            total-set (carries (λ t. w (call t))) p.threads i _ worker_lock e,
          );
          awake = omega (arith, m, h.awake);
        })
        (omega (arith, m)) (omega (arith, m))
    where
      m : IsMove (worker_call x) worker_lock p.threads (set p.threads i worker_lock)
      m = set-IsMove p.threads i _ _ e

  pub pool_statement-Spends :
      (j : ℕ) (place : ThreadPlace T)
      → get_elem? p.threads i ≡ some place
      → Spends call p (pool_statement call p i j place)
  unfolding pool_statement
  pool_statement-Spends j outside e = waits
  pool_statement-Spends j unstarted e = waits
  pool_statement-Spends j worker_asleep e = waits
  pool_statement-Spends j (push_lock x) e = push_lock-Spends call p h i x j e
  pool_statement-Spends j (push_store x) e = push_store-Spends call p h i x j e
  pool_statement-Spends j push_signal e = push_signal-Spends call p h i j e
  pool_statement-Spends j push_unlock e = push_unlock-Spends call p h i j e
  pool_statement-Spends j worker_lock e = worker_lock-Spends j e
  pool_statement-Spends j worker_test e = worker_test-Spends j e
  pool_statement-Spends j worker_load e = worker_load-Spends j e
  pool_statement-Spends j (worker_unlock x) e = worker_unlock-Spends x j e
  pool_statement-Spends j (worker_call x) e = worker_call-Spends x j e
