-- ===== src/Pool/Invariant/Pushing.antt =====
-- The statements of `pushTask` (7.10/threadPool/thread_pool.hpp) keep the invariant.
use my_linux.Base.{
  ℕ, ◌+◌, ◌≡◌, inl, inr, Bool-cases, List, [], ◌∷◌, ◌++◌, length, length-append, append_assoc, refl,
  ap, ◌∙◌, get_elem?, some, set, arith,
}
use my_linux.Base.Totals.{total-set}
use my_linux.Pool.{
  ThreadPool, ThreadPlace, outside, push_lock, push_store, push_signal, push_unlock, worker_lock,
  pool_statement, ran,
}
use my_linux.Pool.Counts.{carries, IsMove, set-IsMove, Woken, nobody, somebody, thread_wakeup-Woken}
use my_linux.Pool.Invariant.{bit, IsPool, Spends, waits, spends}
use my_linux.Pool.Invariant.Bounds.{bit_le, still_accounted}

module _ {T : Type 0} (call : T → T) (p : ThreadPool T) (h : IsPool call p) (i : ℕ) where
  pub push_lock-Spends :
      (x : T) (j : ℕ)
      → get_elem? p.threads i ≡ some (push_lock x)
      → Spends call p (pool_statement call p i j (push_lock x))
  unfolding pool_statement
  push_lock-Spends x j e = elim (Bool-cases p.mutex) [
    | inl f ↦ rw f waits
    | inr f ↦ rw f (
        spends _
          (record {
            owner = omega (arith, m, ap bit f, h.owner);
            stock = omega (arith, m, h.stock);
            order = h.order;
            accounted = still_accounted call p h i _ _ e (λ w. refl);
            awake = omega (arith, m, h.awake);
          })
          (omega (arith, m)) (omega (arith, m)))
  ]
    where
      m : IsMove (push_lock x) (push_store x) p.threads (set p.threads i (push_store x))
      m = set-IsMove p.threads i _ _ e

  pub push_store-Spends :
      (x : T) (j : ℕ)
      → get_elem? p.threads i ≡ some (push_store x)
      → Spends call p (pool_statement call p i j (push_store x))
  unfolding pool_statement
  push_store-Spends x j e =
      spends _
        (record {
          owner = omega (arith, m, h.owner);
          stock = omega (arith, m, h.stock, l);
          order = ap (λ xs. xs ++ (x ∷ [])) h.order ∙ append_assoc p.popped p.tasks (x ∷ []);
          accounted = still_accounted call p h i _ _ e (λ w. refl);
          awake = omega (arith, m, h.awake, l);
        })
        (omega (arith, m, l)) (omega (arith, m))
    where
      m : IsMove (push_store x) push_signal p.threads (set p.threads i push_signal)
      m = set-IsMove p.threads i _ _ e

      l : length (p.tasks ++ (x ∷ [])) ≡ length p.tasks + 1
      l = length-append p.tasks (x ∷ [])

  pub push_signal-Spends :
      (j : ℕ)
      → get_elem? p.threads i ≡ some push_signal
      → Spends call p (pool_statement call p i j push_signal)
  unfolding pool_statement
  push_signal-Spends j e = woken _ (thread_wakeup-Woken (set p.threads i push_unlock) j)
    where
      m : IsMove push_signal push_unlock p.threads (set p.threads i push_unlock)
      m = set-IsMove p.threads i _ _ e

      woken :
          (us : List (ThreadPlace T))
          → Woken (set p.threads i push_unlock) us
          → Spends call p (ran (record p { threads = us }))
      woken _ (nobody z) =
          spends _
            (record {
              owner = omega (arith, m, h.owner);
              stock = omega (arith, m, h.stock);
              order = h.order;
              accounted = still_accounted call p h i _ _ e (λ w. refl);
              awake = inl z;
            })
            (omega (arith, m)) (omega (arith, m))
      woken _ (somebody k f) =
          let n = set-IsMove (set p.threads i push_unlock) k _ worker_lock f in
          spends _
            (record {
              owner = omega (arith, m, n, h.owner);
              stock = omega (arith, m, n, h.stock);
              order = h.order;
              accounted = λ w. omega (
                arith,
                still_accounted call p h i _ push_unlock e (λ v. refl) w,
                total-set (carries (λ t. w (call t))) (set p.threads i push_unlock) k _ worker_lock
                    f,
              );
              awake = omega (arith, m, n, h.awake);
            })
            (omega (arith, m, n)) (omega (arith, m, n))

  pub push_unlock-Spends :
      (j : ℕ)
      → get_elem? p.threads i ≡ some push_unlock
      → Spends call p (pool_statement call p i j push_unlock)
  unfolding pool_statement
  push_unlock-Spends j e =
      spends _
        (record {
          owner = omega (arith, m, h.owner, bit_le p.mutex);
          stock = omega (arith, m, h.stock);
          order = h.order;
          accounted = still_accounted call p h i _ _ e (λ w. refl);
          awake = omega (arith, m, h.awake);
        })
        (omega (arith, m)) (omega (arith, m))
    where
      m : IsMove push_unlock outside p.threads (set p.threads i outside)
      m = set-IsMove p.threads i _ _ e
