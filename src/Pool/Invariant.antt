-- ===== src/Pool/Invariant.antt =====
-- The invariant of a thread pool (7.10/threadPool/thread_pool.hpp).
mod Bounds
mod Pushing
mod Working
pub mod Schedules
pub mod Draining
use my_linux.Base.{ℕ, ◌+◌, ◌≤◌, ◌<◌, ◌*◌, ◌≡◌, ◌⊎◌, Bool, List, ◌++◌, if◌then◌else◌, length}
use my_linux.Base.Totals.{total}
use my_linux.Pool.{ThreadPool, ThreadPlace, PoolOutcome, waiting, ran}
use my_linux.Pool.Counts.{inside, loading, sleeping, ready, started, cost, carries}

abbrev pub bit : Bool → ℕ
bit b = if b then 1 else 0

module _ {T : Type 0} (call : T → T) where
  -- The mutex has one owner exactly when it is held; there is a task for whoever is about to pop; tasks are
  -- popped in the order of their pushes; what was popped is with a worker or finished, whatever is counted
  -- of the finished tasks; and if a worker sleeps, every task in the queue is accounted for by a worker
  -- that will look at the queue, or by a signal to come.
  pub record IsPool (p : ThreadPool T) : Type 0 where
    pub owner : total inside p.threads ≡ bit p.mutex
    pub stock : total loading p.threads ≤ length p.tasks
    pub order : p.pushed ≡ p.popped ++ p.tasks
    pub accounted :
        (w : T → ℕ)
        → total (λ t. w (call t)) p.popped
          ≡ total (carries (λ t. w (call t))) p.threads + total w p.finished
    pub awake : (total sleeping p.threads ≡ 0) ⊎ (length p.tasks ≤ total ready p.threads)

  -- The statements that can run before the next call.
  abbrev pub budget : ThreadPool T → ℕ
  budget p = length p.tasks * 5 + total cost p.threads

  -- A statement that waits, or one that runs, keeps the invariant and takes from the budget.
  pub data Spends (p : ThreadPool T) : PoolOutcome T → Type 0 where
    waits : Spends p waiting
    spends :
        (q : ThreadPool T)
        → IsPool q
        → budget q < budget p
        → total started p.threads ≤ total started q.threads
        → Spends p (ran q)
