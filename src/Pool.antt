-- ===== src/Pool.antt =====
-- 7.10/threadPool/thread_pool.hpp: a thread pool, whose workers take tasks off one queue under a mutex and
-- a condition variable. A thread runs one statement at a time, and the statements of different threads
-- come in any order.
pub mod Counts
pub mod Invariant
pub mod Singleton
use mathlib.Core.Option
use my_linux.Base.{
  ℕ, zero, suc, ◌+◌, Bool, true, false, Option, none, some, List, [], ◌∷◌, ◌++◌, if◌then◌else◌,
  get_elem?, set, replicate,
}

-- Where a thread stands. A caller is outside, or before the statement of `pushTask` that the name says;
-- a worker has not been started yet, or is before the statement of `thread_func`. After
-- `pthread_cond_wait` a woken worker is before the lock again.
pub data ThreadPlace (T : Type 0) : Type 0 where
  outside : ThreadPlace T
  push_lock push_store : T → ThreadPlace T
  push_signal push_unlock : ThreadPlace T
  unstarted : ThreadPlace T
  worker_lock worker_test worker_asleep worker_load : ThreadPlace T
  worker_unlock worker_call : T → ThreadPlace T

-- `class threadPool` with its callers and workers. The last three fields are for the proofs alone: the
-- tasks pushed and those popped, in order, and the tasks after their call, in the order of the calls.
pub record ThreadPool (T : Type 0) : Type 0 where
  pub tasks : List T
  pub mutex : Bool
  pub threads : List (ThreadPlace T)
  pub pushed : List T
  pub popped : List T
  pub finished : List T

-- A statement that waits, `front` of an empty queue, and a statement that has run.
pub data PoolOutcome (T : Type 0) : Type 0 where
  waiting undefined_front : PoolOutcome T
  ran : ThreadPool T → PoolOutcome T

-- What happens next: `startRunning` starts a worker, a thread that is outside calls `pushTask`, a thread
-- runs a statement, or one that sleeps wakes up with no signal, as POSIX allows.
pub data PoolEvent (T : Type 0) : Type 0 where
  starts : ℕ → PoolEvent T
  calls_push : ℕ → T → PoolEvent T
  runs : ℕ → ℕ → PoolEvent T
  wakes : ℕ → PoolEvent T

module _ {T : Type 0} where
  -- `threadPool(cap)` and `init`, with `n` threads that have called nothing yet.
  unfoldable pub create_pool : ℕ → ℕ → ThreadPool T
  create_pool cap n = record {
    tasks = [];
    mutex = false;
    threads = replicate cap unstarted ++ replicate n outside;
    pushed = [];
    popped = [];
    finished = [];
  }

  -- `isEmpty`
  abbrev pub no_tasks : ThreadPool T → Bool
  no_tasks p = elim p.tasks [ [] ↦ true | _ ∷ _ ↦ false ]

  abbrev pub stands : ThreadPool T → ℕ → ThreadPlace T → ThreadPool T
  stands p i place = record p { threads = set p.threads i place }

  -- Who is woken, if a worker sleeps.
  unfoldable pub first_asleep : List (ThreadPlace T) → Option ℕ
  first_asleep [] = none
  first_asleep (place ∷ ts) =
      let rest = Option.map suc (first_asleep ts) in
      elim place [ worker_asleep ↦ some 0 | _ ↦ rest ]

  -- `threadWakeup` wakes one sleeping worker, which the kernel chooses: `j`, if it sleeps.
  unfoldable pub thread_wakeup : List (ThreadPlace T) → ℕ → List (ThreadPlace T)
  unfolding first_asleep
  thread_wakeup ts j =
      let other : List (ThreadPlace T) = elim (first_asleep ts) [
        | none ↦ ts
        | some k ↦ set ts k worker_lock
      ] in
      elim (get_elem? ts j) [
        | none ↦ other
        | some place ↦ elim place [ worker_asleep ↦ set ts j worker_lock | _ ↦ other ]
      ]

  -- `popTask`
  unfoldable pub pop_task : ThreadPool T → ℕ → PoolOutcome T
  pop_task p i = elim p.tasks [
    | [] ↦ undefined_front
    | x ∷ rest ↦
        ran (record (stands p i (worker_unlock x)) { tasks = rest; popped = p.popped ++ (x ∷ []) })
  ]

  -- `LockGuard` locks when it is made; `pthread_mutex_lock` waits while the mutex is held.
  abbrev pub lock_guard : ThreadPool T → ℕ → ThreadPlace T → PoolOutcome T
  lock_guard p i place =
      if p.mutex then waiting else ran (record (stands p i place) { mutex = true })

  -- `threadWait` gives the mutex back and sleeps.
  abbrev pub thread_wait : ThreadPool T → ℕ → ThreadPool T
  thread_wait p i = record (stands p i worker_asleep) { mutex = false }

-- `call` is what `T::operator()` makes of a task.
module _ {T : Type 0} (call : T → T) where
  -- The next statement of thread `i`, which stands at the place; `j` is the worker to wake.
  unfoldable pub pool_statement : ThreadPool T → ℕ → ℕ → ThreadPlace T → PoolOutcome T
  unfolding thread_wakeup pop_task
  pool_statement p i j outside = waiting
  pool_statement p i j unstarted = waiting
  pool_statement p i j (push_lock x) = lock_guard p i (push_store x)
  pool_statement p i j (push_store x) = ran (record (stands p i push_signal) {
    tasks = p.tasks ++ (x ∷ []);
    pushed = p.pushed ++ (x ∷ []);
  })
  pool_statement p i j push_signal =
      ran (record p { threads = thread_wakeup (set p.threads i push_unlock) j })
  pool_statement p i j push_unlock = ran (record (stands p i outside) { mutex = false })
  pool_statement p i j worker_lock = lock_guard p i worker_test
  pool_statement p i j worker_test =
      ran (if no_tasks p then thread_wait p i else stands p i worker_load)
  pool_statement p i j worker_asleep = waiting
  pool_statement p i j worker_load = pop_task p i
  pool_statement p i j (worker_unlock x) =
      ran (record (stands p i (worker_call x)) { mutex = false })
  pool_statement p i j (worker_call x) =
      ran (record (stands p i worker_lock) { finished = p.finished ++ (call x ∷ []) })

  abbrev pub pool_act : ThreadPool T → PoolEvent T → ThreadPlace T → PoolOutcome T
  pool_act p (starts i) unstarted = ran (stands p i worker_lock)
  pool_act p (starts i) _ = waiting
  pool_act p (calls_push i x) outside = ran (stands p i (push_lock x))
  pool_act p (calls_push i x) _ = waiting
  pool_act p (runs i j) place = pool_statement p i j place
  pool_act p (wakes i) worker_asleep = ran (stands p i worker_lock)
  pool_act p (wakes i) _ = waiting

  abbrev pub pool_actor : PoolEvent T → ℕ
  pool_actor (starts i) = i
  pool_actor (calls_push i x) = i
  pool_actor (runs i j) = i
  pool_actor (wakes i) = i

  unfoldable pub pool_step : ThreadPool T → PoolEvent T → PoolOutcome T
  unfolding pool_statement
  pool_step p e = elim (get_elem? p.threads (pool_actor e)) [
    | none ↦ waiting
    | some place ↦ pool_act p e place
  ]

  -- A schedule: an event that cannot happen yet is passed over.
  unfoldable pub pool_run : ThreadPool T → List (PoolEvent T) → PoolOutcome T
  unfolding pool_step
  pool_run p [] = ran p
  pool_run p (e ∷ es) =
      let skip = pool_run p es in
      elim (pool_step p e) [
        | waiting ↦ skip
        | undefined_front ↦ undefined_front
        | ran q ↦ pool_run q es
      ]
