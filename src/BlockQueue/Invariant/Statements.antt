-- ===== src/BlockQueue/Invariant/Statements.antt =====
-- Every statement keeps the invariant of a block queue (7.3/blockingQueue/blockQueue.hpp).
use my_linux.Base.{ℕ, ◌≡◌, get_elem?, some}
use my_linux.BlockQueue.{
  BlockQueue, Place, outside, push_lock, push_test, push_asleep, push_store, push_signal,
  push_unlock, pop_lock, pop_test, pop_asleep, pop_load, pop_signal, pop_unlock, statement,
}
use my_linux.BlockQueue.Invariant.{IsMonitor, Keeps, waits}
use my_linux.BlockQueue.Invariant.Push.{
  push_lock-Keeps, push_test-Keeps, push_store-Keeps, push_signal-Keeps, push_unlock-Keeps,
}
use my_linux.BlockQueue.Invariant.Pop.{
  pop_signal-Keeps, pop_lock-Keeps, pop_test-Keeps, pop_load-Keeps, pop_unlock-Keeps,
}

module _ (q : BlockQueue) (h : IsMonitor q) (i : ℕ) where
  pub statement-Keeps :
      (j : ℕ) (p : Place) → get_elem? q.threads i ≡ some p → Keeps (statement q i j p)
  unfolding statement
  statement-Keeps j outside e = waits
  statement-Keeps j (push_asleep x) e = waits
  statement-Keeps j pop_asleep e = waits
  statement-Keeps j (push_lock x) e = push_lock-Keeps q h i x j e
  statement-Keeps j (push_test x) e = push_test-Keeps q h i x j e
  statement-Keeps j (push_store x) e = push_store-Keeps q h i x j e
  statement-Keeps j push_signal e = push_signal-Keeps q h i j e
  statement-Keeps j push_unlock e = push_unlock-Keeps q h i j e
  statement-Keeps j pop_lock e = pop_lock-Keeps q h i j e
  statement-Keeps j pop_test e = pop_test-Keeps q h i j e
  statement-Keeps j pop_load e = pop_load-Keeps q h i j e
  statement-Keeps j (pop_signal x) e = pop_signal-Keeps q h i x j e
  statement-Keeps j (pop_unlock x) e = pop_unlock-Keeps q h i x j e
