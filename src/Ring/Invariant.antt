-- ===== src/Ring/Invariant.antt =====
-- The invariant of a ring (7.9/sem/RingQueue.hpp), and that every statement keeps it.
mod Producers
mod Consumers
pub mod Schedules
pub mod Progress
use my_linux.Base.{
  ℕ, ◌+◌, ◌%◌, ◌≤◌, ◌<◌, ◌≡◌, Bool, true, false, arith, List, ◌++◌, if◌then◌else◌, length,
  get_elem?, some, set,
}
use my_linux.Ring.{Ring, Pc, Stepped, blocked, ran}
use my_linux.Ring.Slots.{slots}
use my_linux.Base.Totals.{total-set, total}
use my_linux.Ring.Counts.{
  at_push_lock, at_push_store, at_push_wrap, at_push_unlock, at_push_post, at_pop_lock, at_pop_load,
  at_pop_wrap, at_pop_unlock, at_pop_post,
}

abbrev pub bit : Bool → ℕ
bit b = if b then 1 else 0

pub bit_le : (b : Bool) → bit b ≤ 1
bit_le true = omega arith
bit_le false = omega arith

-- The ring holds `n` items, the ones stored and not yet loaded; the semaphores count them and the free
-- slots, less those that a thread under way has taken and not yet given back; each mutex has at most one
-- owner; a position is outside the vector only just before it is wrapped.
pub record IsSound (r : Ring) (n : ℕ) : Type 0 where
  pub positive : 0 < r.capacity
  pub buffer : length r.queue ≡ r.capacity
  pub free :
      r.space_sem
        + (total at_push_lock r.threads + total at_push_store r.threads)
        + n
        + (total at_pop_wrap r.threads
            + total at_pop_unlock r.threads
            + total at_pop_post r.threads)
      ≡ r.capacity
  pub filled :
      n
      ≡ r.data_sem
        + (total at_push_wrap r.threads
            + total at_push_unlock r.threads
            + total at_push_post r.threads)
        + (total at_pop_lock r.threads + total at_pop_load r.threads)
  pub p_lock :
      total at_push_store r.threads + total at_push_wrap r.threads + total at_push_unlock r.threads
      ≡ bit r.p_mtx
  pub c_lock :
      total at_pop_load r.threads + total at_pop_wrap r.threads + total at_pop_unlock r.threads
      ≡ bit r.c_mtx
  pub p_range : r.p_pos < r.capacity + total at_push_wrap r.threads
  pub c_range : r.c_pos < r.capacity + total at_pop_wrap r.threads
  pub turn : r.p_pos % r.capacity ≡ (r.c_pos % r.capacity + n) % r.capacity
  pub items : r.stored ≡ r.loaded ++ slots r.queue r.capacity (r.c_pos % r.capacity) n

-- A statement that waits, or one that runs and leaves a sound ring.
pub data Keeps : Stepped → Type 0 where
  waits : Keeps blocked
  goes_on : (r : Ring) (n : ℕ) → IsSound r n → Keeps (ran r)

-- How each count changes when a thread goes from `old` to `new`.
pub record IsMove (old new : Pc) (ts us : List Pc) : Type 0 where
  pub push_locks :
      total at_push_lock us + at_push_lock old ≡ total at_push_lock ts + at_push_lock new
  pub push_stores :
      total at_push_store us + at_push_store old ≡ total at_push_store ts + at_push_store new
  pub push_wraps :
      total at_push_wrap us + at_push_wrap old ≡ total at_push_wrap ts + at_push_wrap new
  pub push_unlocks :
      total at_push_unlock us + at_push_unlock old ≡ total at_push_unlock ts + at_push_unlock new
  pub push_posts :
      total at_push_post us + at_push_post old ≡ total at_push_post ts + at_push_post new
  pub pop_locks : total at_pop_lock us + at_pop_lock old ≡ total at_pop_lock ts + at_pop_lock new
  pub pop_loads : total at_pop_load us + at_pop_load old ≡ total at_pop_load ts + at_pop_load new
  pub pop_wraps : total at_pop_wrap us + at_pop_wrap old ≡ total at_pop_wrap ts + at_pop_wrap new
  pub pop_unlocks :
      total at_pop_unlock us + at_pop_unlock old ≡ total at_pop_unlock ts + at_pop_unlock new
  pub pop_posts : total at_pop_post us + at_pop_post old ≡ total at_pop_post ts + at_pop_post new

pub set-IsMove :
    (ts : List Pc) (i : ℕ) (old new : Pc)
    → get_elem? ts i ≡ some old
    → IsMove old new ts (set ts i new)
set-IsMove ts i old new e = record {
  push_locks = total-set at_push_lock ts i old new e;
  push_stores = total-set at_push_store ts i old new e;
  push_wraps = total-set at_push_wrap ts i old new e;
  push_unlocks = total-set at_push_unlock ts i old new e;
  push_posts = total-set at_push_post ts i old new e;
  pop_locks = total-set at_pop_lock ts i old new e;
  pop_loads = total-set at_pop_load ts i old new e;
  pop_wraps = total-set at_pop_wrap ts i old new e;
  pop_unlocks = total-set at_pop_unlock ts i old new e;
  pop_posts = total-set at_pop_post ts i old new e;
}
