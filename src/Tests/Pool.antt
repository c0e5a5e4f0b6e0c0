-- ===== src/Tests/Pool.antt =====
-- The thread pool of 7.10/threadPool on concrete schedules.
use my_linux.Base.{
  ℕ, suc, ◌≤◌, ◌≡◌, ◌⊎◌, refl, true, false, List, [], ◌∷◌, length, Option, some, get_elem?, arith,
}
use my_linux.Pool.{
  ThreadPool, outside, worker_asleep, worker_lock, unstarted, push_unlock, ran, PoolEvent, starts,
  calls_push, runs, create_pool, pool_step, pool_run,
}
use my_linux.Pool.Invariant.{IsPool, budget}
use my_linux.Pool.Invariant.Schedules.{pool_run-IsPool}
use my_linux.Pool.Invariant.Draining.{no_more, then_runs, CanRun, IsDrained, pool_run_drains}
use my_linux.Pool.Singleton.{PoolClass, no_instance, ClassEvent, enters, goes, class_run, went, got}
use my_linux.Pool.Singleton.Once.{Settled}
use my_linux.Pool.Singleton.Schedules.{class_run_once}

-- A worker falls asleep, another is never started, and a task is pushed: two workers, one caller.
abbrev awaken : List (PoolEvent ℕ)
awaken = starts 0 ∷ runs 0 0 ∷ runs 0 0 ∷ calls_push 2 7 ∷ runs 2 0 ∷ runs 2 0 ∷ runs 2 1 ∷ []

abbrev awake : ThreadPool ℕ
awake = record {
  tasks = 7 ∷ [];
  mutex = true;
  threads = worker_lock ∷ unstarted ∷ push_unlock ∷ [];
  pushed = 7 ∷ [];
  popped = [];
  finished = [];
}

abbrev unlocked : ThreadPool ℕ
unlocked = record {
  tasks = 7 ∷ [];
  mutex = false;
  threads = worker_lock ∷ unstarted ∷ outside ∷ [];
  pushed = 7 ∷ [];
  popped = [];
  finished = [];
}

awaken_lem : pool_run suc (create_pool 2 1) awaken ≡ ran awake
unfolding pool_run pool_step create_pool
awaken_lem = refl

unlocks : pool_step suc awake (runs 2 0) ≡ ran unlocked
unfolding pool_step
unlocks = refl

-- The worker takes the task, calls it and sleeps again.
finishes :
    pool_run suc unlocked
      (runs 0 0 ∷ runs 0 0 ∷ runs 0 0 ∷ runs 0 0 ∷ runs 0 0 ∷ runs 0 0 ∷ runs 0 0 ∷ [])
    ≡ ran (record unlocked {
      tasks = [];
      threads = worker_asleep ∷ unstarted ∷ outside ∷ [];
      popped = 7 ∷ [];
      finished = 8 ∷ [];
    })
unfolding pool_run pool_step
finishes = refl

pool_run-IsPool_example :
    (q : ThreadPool ℕ) × IsPool suc q × (pool_run suc (create_pool 2 1) awaken ≡ ran q)
pool_run-IsPool_example = pool_run-IsPool suc 2 1 awaken

pool_run_drains_example : (1 ≤ budget suc awake) × (CanRun suc unlocked ⊎ IsDrained suc unlocked)
pool_run_drains_example =
    pool_run_drains suc 2 1 awaken awake unlocked 1 awaken_lem (omega arith)
      (then_runs awake unlocked 2 0 0 unlocks no_more)

-- Two callers see no pool; one makes it while the other waits, and both get it.
abbrev race : List ClassEvent
race =
    enters 0
    ∷ enters 1
    ∷ goes 0
    ∷ goes 1
    ∷ goes 0
    ∷ goes 1
    ∷ goes 0
    ∷ goes 0
    ∷ goes 0
    ∷ goes 0
    ∷ goes 0
    ∷ goes 0
    ∷ goes 0
    ∷ goes 1
    ∷ goes 1
    ∷ goes 1
    ∷ goes 1
    ∷ goes 0
    ∷ []

class_run_once_example :
    (s : PoolClass) × (class_run (λ k. true) (no_instance 2 2) race ≡ went s)
    × (length s.heap ≤ 1)
    × ((i : ℕ) (a : Option ℕ)
        → get_elem? s.callers i ≡ some (got a)
        → (a ≡ some 0) × (s.instance_ptr ≡ some 0))
    × (s.static_mtx ≡ false → Settled (λ k. true) s.instance_ptr s.heap s.cap)
class_run_once_example = class_run_once (λ k. true) 2 2 race

-- A third caller can have the pool before its workers have been made.
early :
    (s : PoolClass) × (class_run
        (λ k. true)
        (no_instance 2 2)
        (enters 0 ∷ goes 0 ∷ goes 0 ∷ goes 0 ∷ goes 0 ∷ enters 1 ∷ goes 1 ∷ goes 1 ∷ [])
      ≡ went s)
    × (get_elem? s.callers 1 ≡ some (got (some 0)))
    × (s.heap ≡ [] ∷ [])
unfolding class_run no_instance
early = (_, refl, refl, refl)
