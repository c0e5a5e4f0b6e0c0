-- ===== src/BlockQueue/Invariant.antt =====
-- The invariant of a block queue (7.3/blockingQueue/blockQueue.hpp), and that every statement keeps it.
mod Bounds
mod Push
mod Pop
mod Statements
pub mod Schedules
pub mod Progress
use mathlib.Core.Bool.{true≢false}
use my_linux.Base.{
  ◌==◌, ◌≢◌, ==_iff, ℕ, zero, suc, ◌+◌, ◌≤◌, ◌<◌, ◌≡◌, ◌⊎◌, inl, inr, Bool, true, false, Bool-cases,
  List, [], ◌∷◌, ◌++◌, if◌then◌else◌, length, length-append, append_assoc, ap, sym, ◌∙◌, get_elem?,
  some, set, arith, refl,
}
use my_linux.Base.Totals.{total}
use my_linux.BlockQueue.{
  BlockQueue, Place, outside, push_lock, push_test, push_asleep, push_store, push_signal,
  push_unlock, pop_lock, pop_test, pop_asleep, pop_load, pop_signal, pop_unlock, Outcome, waiting,
  ran, wake_consumer, wake_producer, take_front, statement, is_full, is_empty,
}
use my_linux.BlockQueue.Counts.{
  at_push_lock, at_push_test, at_push_asleep, at_push_store, at_push_signal, at_push_unlock,
  at_pop_lock, at_pop_test, at_pop_asleep, at_pop_load, at_pop_signal, at_pop_unlock, IsMove,
  set-IsMove, Woken, nobody, somebody, wake_consumer-Woken, wake_producer-Woken,
}

abbrev pub bit : Bool → ℕ
bit b = if b then 1 else 0

-- The mutex has one owner exactly when it is held; the queue is within its capacity, with room for whoever is
-- about to store and an item for whoever is about to load; it holds what was stored and not yet
-- loaded; and if a consumer sleeps, every item is accounted for by a consumer that is awake or by a
-- signal to come, likewise for the producers and the free places.
pub record IsMonitor (q : BlockQueue) : Type 0 where
  pub positive : 0 < q.cap
  pub owner :
      total at_push_test q.threads
        + total at_push_store q.threads
        + total at_push_signal q.threads
        + total at_push_unlock q.threads
        + (total at_pop_test q.threads
            + total at_pop_load q.threads
            + total at_pop_signal q.threads
            + total at_pop_unlock q.threads)
      ≡ bit q.mutex
  pub room : length q.items + total at_push_store q.threads ≤ q.cap
  pub stock : total at_pop_load q.threads ≤ length q.items
  pub order : q.stored ≡ q.loaded ++ q.items
  pub consumers :
      (total at_pop_asleep q.threads ≡ 0)
      ⊎ (length q.items
          ≤ total at_pop_lock q.threads
            + total at_pop_test q.threads
            + total at_pop_load q.threads
            + total at_push_signal q.threads)
  pub producers :
      (total at_push_asleep q.threads ≡ 0)
      ⊎ (q.cap
          ≤ length q.items
            + (total at_push_lock q.threads
                + total at_push_test q.threads
                + total at_push_store q.threads
                + total at_pop_signal q.threads))

-- A statement that waits, or one that runs and leaves a sound queue.
pub data Keeps : Outcome → Type 0 where
  waits : Keeps waiting
  goes_on : (q : BlockQueue) → IsMonitor q → Keeps (ran q)
