-- ===== src/BlockQueue/Invariant/Push.antt =====
-- The statements of `push` (7.3/blockingQueue/blockQueue.hpp) keep the invariant.
use my_linux.Base.{
  ==_iff, ℕ, ◌≤◌, ◌≡◌, inl, inr, Bool-cases, List, [], ◌∷◌, ◌++◌, length, length-append,
  append_assoc, ap, ◌∙◌, get_elem?, some, set, arith,
}
use my_linux.BlockQueue.{
  BlockQueue, Place, outside, push_lock, push_test, push_asleep, push_store, push_signal,
  push_unlock, pop_lock, pop_asleep, statement, is_full,
}
use my_linux.BlockQueue.Counts.{
  at_pop_asleep, IsMove, set-IsMove, Woken, nobody, somebody, wake_consumer-Woken,
}
use my_linux.BlockQueue.Invariant.{bit, IsMonitor, Keeps, waits, goes_on}
use my_linux.BlockQueue.Invariant.Bounds.{bit_le, ne_of_test}

module _ (q : BlockQueue) (h : IsMonitor q) (i : ℕ) where
  unlocks : bit q.mutex ≤ 1
  unlocks = bit_le q.mutex

  pub push_lock-Keeps :
      (x j : ℕ) → get_elem? q.threads i ≡ some (push_lock x) → Keeps (statement q i j (push_lock x))
  unfolding statement
  push_lock-Keeps x j e = elim (Bool-cases q.mutex) [
    | inl p ↦ rw p waits
    | inr p ↦ rw p (
        goes_on _ (record {
          positive = h.positive;
          owner = omega (arith, m, ap bit p, h.owner);
          room = omega (arith, m);
          stock = omega (arith, m);
          order = h.order;
          consumers = omega (arith, m);
          producers = omega (arith, m);
        }))
  ]
    where
      m : IsMove (push_lock x) (push_test x) q.threads (set q.threads i (push_test x))
      m = set-IsMove q.threads i _ _ e

  pub push_test-Keeps :
      (x j : ℕ) → get_elem? q.threads i ≡ some (push_test x) → Keeps (statement q i j (push_test x))
  unfolding statement
  push_test-Keeps x j e = elim (Bool-cases (is_full q)) [
    | inl p ↦ rw p (
        goes_on _ (record {
          positive = h.positive;
          owner = omega (arith, sleeps, unlocks);
          room = omega (arith, sleeps);
          stock = omega (arith, sleeps);
          order = h.order;
          consumers = omega (arith, sleeps);
          producers = omega (arith, sleeps, (==_iff (length q.items) q.cap).0 p);
        }))
    | inr p ↦ rw p (
        goes_on _ (record {
          positive = h.positive;
          owner = omega (arith, goes);
          room = omega (arith, goes, unlocks, ne_of_test (length q.items) q.cap p);
          stock = omega (arith, goes);
          order = h.order;
          consumers = omega (arith, goes);
          producers = omega (arith, goes);
        }))
  ]
    where
      sleeps : IsMove (push_test x) (push_asleep x) q.threads (set q.threads i (push_asleep x))
      sleeps = set-IsMove q.threads i _ _ e

      goes : IsMove (push_test x) (push_store x) q.threads (set q.threads i (push_store x))
      goes = set-IsMove q.threads i _ _ e

  pub push_store-Keeps :
      (x j : ℕ)
      → get_elem? q.threads i ≡ some (push_store x)
      → Keeps (statement q i j (push_store x))
  unfolding statement
  push_store-Keeps x j e = goes_on _ (record {
    positive = h.positive;
    owner = omega (arith, m, length-append q.items (x ∷ []));
    room = omega (arith, m, length-append q.items (x ∷ []));
    stock = omega (arith, m, length-append q.items (x ∷ []));
    order = ap (λ l. l ++ (x ∷ [])) h.order ∙ append_assoc q.loaded q.items (x ∷ []);
    consumers = omega (arith, m, length-append q.items (x ∷ []));
    producers = omega (arith, m, length-append q.items (x ∷ []));
  })
    where
      m : IsMove (push_store x) push_signal q.threads (set q.threads i push_signal)
      m = set-IsMove q.threads i _ _ e

  pub push_signal-Keeps :
      (j : ℕ) → get_elem? q.threads i ≡ some push_signal → Keeps (statement q i j push_signal)
  unfolding statement
  push_signal-Keeps j e = goes_on _ (woken _ (wake_consumer-Woken (set q.threads i push_unlock) j))
    where
      m : IsMove push_signal push_unlock q.threads (set q.threads i push_unlock)
      m = set-IsMove q.threads i _ _ e

      woken :
          (us : List Place)
          → Woken at_pop_asleep (λ x. pop_asleep) (λ x. pop_lock) (set q.threads i push_unlock) us
          → IsMonitor (record q { threads = us })
      woken _ (nobody z) = record {
        positive = h.positive;
        owner = omega (arith, m, z);
        room = omega (arith, m, z);
        stock = omega (arith, m, z);
        order = h.order;
        consumers = omega (arith, m, z);
        producers = omega (arith, m, z);
      }
      woken us (somebody _ y k) = record {
        positive = h.positive;
        owner = omega (arith, m, k);
        room = omega (arith, m, k);
        stock = omega (arith, m, k);
        order = h.order;
        consumers = omega (arith, m, k);
        producers = omega (arith, m, k);
      }

  pub push_unlock-Keeps :
      (j : ℕ) → get_elem? q.threads i ≡ some push_unlock → Keeps (statement q i j push_unlock)
  unfolding statement
  push_unlock-Keeps j e = goes_on _ (record {
    positive = h.positive;
    owner = omega (arith, m, unlocks);
    room = omega (arith, m);
    stock = omega (arith, m);
    order = h.order;
    consumers = omega (arith, m);
    producers = omega (arith, m);
  })
    where
      m : IsMove push_unlock outside q.threads (set q.threads i outside)
      m = set-IsMove q.threads i _ _ e
