-- ===== src/BlockQueue/Invariant/Pop.antt =====
-- The statements of `pop` (7.3/blockingQueue/blockQueue.hpp) keep the invariant.
use my_linux.Base.{
  ℕ, ◌≤◌, ◌≡◌, inl, inr, Bool-cases, List, [], ◌∷◌, ◌++◌, length, append_assoc, ap, sym, ◌∙◌,
  get_elem?, some, set, arith,
}
use my_linux.BlockQueue.{
  BlockQueue, Place, outside, push_lock, push_asleep, pop_lock, pop_test, pop_asleep, pop_load,
  pop_signal, pop_unlock, take_front, statement, is_empty,
}
use my_linux.BlockQueue.Counts.{
  at_push_asleep, IsMove, set-IsMove, Woken, nobody, somebody, wake_producer-Woken,
}
use my_linux.BlockQueue.Invariant.{bit, IsMonitor, Keeps, waits, goes_on}
use my_linux.BlockQueue.Invariant.Bounds.{bit_le, empty_lem, some_lem, front_cases}

module _ (q : BlockQueue) (h : IsMonitor q) (i : ℕ) where
  unlocks : bit q.mutex ≤ 1
  unlocks = bit_le q.mutex

  pub pop_signal-Keeps :
      (x j : ℕ)
      → get_elem? q.threads i ≡ some (pop_signal x)
      → Keeps (statement q i j (pop_signal x))
  unfolding statement
  pop_signal-Keeps x j e =
      goes_on _ (woken _ (wake_producer-Woken (set q.threads i (pop_unlock x)) j))
    where
      m : IsMove (pop_signal x) (pop_unlock x) q.threads (set q.threads i (pop_unlock x))
      m = set-IsMove q.threads i _ _ e

      woken :
          (us : List Place)
          → Woken at_push_asleep push_asleep push_lock (set q.threads i (pop_unlock x)) us
          → IsMonitor (record q { threads = us })
      woken _ (nobody z) = record {
        positive = h.positive;
        owner = omega (arith, m, z);
        room = omega (arith, m, z);
        stock = omega (arith, m, z);
        order = h.order;
        consumers = omega (arith, m, z);
        producers = omega (arith, m, z);
      }
      woken us (somebody _ y k) = record {
        positive = h.positive;
        owner = omega (arith, m, k);
        room = omega (arith, m, k);
        stock = omega (arith, m, k);
        order = h.order;
        consumers = omega (arith, m, k);
        producers = omega (arith, m, k);
      }

  pub pop_lock-Keeps :
      (j : ℕ) → get_elem? q.threads i ≡ some pop_lock → Keeps (statement q i j pop_lock)
  unfolding statement
  pop_lock-Keeps j e = elim (Bool-cases q.mutex) [
    | inl p ↦ rw p waits
    | inr p ↦ rw p (
        goes_on _ (record {
          positive = h.positive;
          owner = omega (arith, m, ap bit p, h.owner);
          room = omega (arith, m);
          stock = omega (arith, m);
          order = h.order;
          consumers = omega (arith, m);
          producers = omega (arith, m);
        }))
  ]
    where
      m : IsMove pop_lock pop_test q.threads (set q.threads i pop_test)
      m = set-IsMove q.threads i _ _ e

  pub pop_test-Keeps :
      (j : ℕ) → get_elem? q.threads i ≡ some pop_test → Keeps (statement q i j pop_test)
  unfolding statement
  pop_test-Keeps j e = elim (Bool-cases (is_empty q)) [
    | inl p ↦ rw p (
        goes_on _ (record {
          positive = h.positive;
          owner = omega (arith, sleeps, unlocks);
          room = omega (arith, sleeps);
          stock = omega (arith, sleeps);
          order = h.order;
          consumers = omega (arith, sleeps, empty_lem q.items p);
          producers = omega (arith, sleeps);
        }))
    | inr p ↦ rw p (
        goes_on _ (record {
          positive = h.positive;
          owner = omega (arith, goes);
          room = omega (arith, goes);
          stock = omega (arith, goes, unlocks, some_lem q.items p);
          order = h.order;
          consumers = omega (arith, goes);
          producers = omega (arith, goes);
        }))
  ]
    where
      sleeps : IsMove pop_test pop_asleep q.threads (set q.threads i pop_asleep)
      sleeps = set-IsMove q.threads i _ _ e

      goes : IsMove pop_test pop_load q.threads (set q.threads i pop_load)
      goes = set-IsMove q.threads i _ _ e

  pub pop_load-Keeps :
      (j : ℕ) → get_elem? q.threads i ≡ some pop_load → Keeps (statement q i j pop_load)
  unfolding statement take_front
  pop_load-Keeps j e =
      let (x, rest, f) = front_cases q.items (omega (arith, before)) in
      rw f (goes_on _ (taken x rest f (set-IsMove q.threads i pop_load (pop_signal x) e)))
    where
      before : IsMove pop_load outside q.threads (set q.threads i outside)
      before = set-IsMove q.threads i _ _ e

      taken :
          (x : ℕ) (rest : List ℕ)
          → q.items ≡ x ∷ rest
          → IsMove pop_load (pop_signal x) q.threads (set q.threads i (pop_signal x))
          → IsMonitor (record q {
            threads = set q.threads i (pop_signal x);
            items = rest;
            loaded = q.loaded ++ (x ∷ []);
          })
      taken x rest f m = record {
        positive = h.positive;
        owner = omega (arith, ap length f);
        room = omega (arith, ap length f);
        stock = omega (arith, ap length f);
        order = h.order ∙ ap (λ l. q.loaded ++ l) f ∙ sym (append_assoc q.loaded (x ∷ []) rest);
        consumers = omega (arith, ap length f);
        producers = omega (arith, ap length f);
      }

  pub pop_unlock-Keeps :
      (x j : ℕ)
      → get_elem? q.threads i ≡ some (pop_unlock x)
      → Keeps (statement q i j (pop_unlock x))
  unfolding statement
  pop_unlock-Keeps x j e = goes_on _ (record {
    positive = h.positive;
    owner = omega (arith, m, unlocks);
    room = omega (arith, m);
    stock = omega (arith, m);
    order = h.order;
    consumers = omega (arith, m);
    producers = omega (arith, m);
  })
    where
      m : IsMove (pop_unlock x) outside q.threads (set q.threads i outside)
      m = set-IsMove q.threads i _ _ e
