-- ===== src/Pool/Invariant/Draining.antt =====
-- A thread pool (7.10/threadPool/thread_pool.hpp) finishes the tasks that it was given.
use mathlib.Core.Bool.{true≢false}
use native.Mathlib.Decide.{dec_lt}
use my_linux.Base.{
  ℕ, suc, ◌+◌, ◌≤◌, ◌<◌, ◌≡◌, ◌⊎◌, inl, inr, Bool, true, false, List, [], ◌∷◌, length, get_elem?,
  some, arith, refl, Option-cases, ap, sym, ◌∙◌, subst, Bool-cases, List-cases,
}
use my_linux.Base.Totals.{total, total_found, total-append}
use my_linux.Pool.{
  ThreadPool, ThreadPlace, outside, push_lock, push_store, push_signal, push_unlock, unstarted,
  worker_lock, worker_test, worker_asleep, worker_load, worker_unlock, worker_call, PoolOutcome,
  waiting, undefined_front, ran, PoolEvent, runs, create_pool, pool_statement, pool_step, pool_run,
  pop_task,
}
use my_linux.Pool.Counts.{inside, sleeping, ready, started, carries, total_le}
use my_linux.Pool.Invariant.{bit, IsPool, budget, Spends, waits, spends}
use my_linux.Pool.Invariant.Working.{pool_statement-Spends}
use my_linux.Pool.Invariant.Schedules.{pool_run-IsPool}

module _ {T : Type 0} (call : T → T) where
  -- 1 while the thread has a statement to run.
  abbrev pub active : ThreadPlace T → ℕ
  active outside = 0
  active unstarted = 0
  active worker_asleep = 0
  active _ = 1

  abbrev is_waiting : PoolOutcome T → Bool
  is_waiting waiting = true
  is_waiting _ = false

  -- Statements that run one after the other, with no call and no spurious wake-up between them.
  pub data Runs (r : ThreadPool T) : ThreadPool T → ℕ → Type 0 where
    no_more : Runs r r 0
    then_runs :
        (p q : ThreadPool T) (i j k : ℕ)
        → pool_step call p (runs i j) ≡ ran q
        → Runs r q k
        → Runs r p (suc k)

  abbrev pub CanRun : ThreadPool T → Type 0
  CanRun p = (i : ℕ) × (j : ℕ) × (q : ThreadPool T) × (pool_step call p (runs i j) ≡ ran q)

  -- No task is left, and each that was pushed has been called once, whatever is counted of the results.
  abbrev pub IsDrained : ThreadPool T → Type 0
  IsDrained p =
      (p.tasks ≡ []) × ((w : T → ℕ) → total (λ t. w (call t)) p.pushed ≡ total w p.finished)

  pool_step-Spends :
      (p : ThreadPool T) → IsPool call p → (i j : ℕ) → Spends call p (pool_step call p (runs i j))
  unfolding pool_step
  pool_step-Spends p h i j = elim (Option-cases (get_elem? p.threads i)) [
    | inl f ↦ rw (pool_step, f) waits
    | inr (place, f) ↦ rw (pool_step, f) (pool_statement-Spends call p h i j place f)
  ]

  ran-injective : (p q : ThreadPool T) → ran p ≡ ran q → p ≡ q
  ran-injective p q e = ap (λ out. elim out [ waiting ↦ p | undefined_front ↦ p | ran t ↦ t ]) e

  -- What a statement that has run did.
  spent :
      (p q : ThreadPool T) (out : PoolOutcome T)
      → Spends call p out
      → out ≡ ran q
      → IsPool call q
        × (budget call q < budget call p)
        × (total started p.threads ≤ total started q.threads)
  spent p q _ waits e = absurd (true≢false (ap is_waiting e))
  spent p q _ (spends r h b s) e =
      subst
        (λ (t : ThreadPool T).
          IsPool call t
          × (budget call t < budget call p)
          × (total started p.threads ≤ total started t.threads))
        (ran-injective r q e) (h, b, s)

  went :
      (p : ThreadPool T) (out : PoolOutcome T)
      → Spends call p out
      → is_waiting out ≡ false
      → (q : ThreadPool T) × (out ≡ ran q)
  went p _ waits e = absurd (true≢false e)
  went p _ (spends q h b s) e = (q, refl)

  module _ (p : ThreadPool T) (h : IsPool call p) where
    unblocked :
        (i : ℕ) (place : ThreadPlace T)
        → get_elem? p.threads i ≡ some place
        → is_waiting (pool_statement call p i 0 place) ≡ false
        → CanRun p
    unfolding pool_step
    unblocked i place e f =
        let (q, g) = went p _ (pool_statement-Spends call p h i 0 place e) f in
        (i, 0, q, rw (pool_step, e) g)

    pop_task_runs : (i : ℕ) → is_waiting (pop_task p i) ≡ false
    unfolding pop_task
    pop_task_runs i = elim (List-cases p.tasks) [
      | inl e ↦ rw (pop_task, e) refl
      | inr (x, rest, e) ↦ rw (pop_task, e) refl
    ]

    inside-CanRun :
        (i : ℕ) (place : ThreadPlace T)
        → get_elem? p.threads i ≡ some place
        → 0 < inside place
        → CanRun p
    unfolding pool_statement
    inside-CanRun i (push_store x) e l = unblocked i _ e refl
    inside-CanRun i push_signal e l = unblocked i _ e refl
    inside-CanRun i push_unlock e l = unblocked i _ e refl
    inside-CanRun i worker_test e l = unblocked i _ e refl
    inside-CanRun i worker_load e l = unblocked i _ e (pop_task_runs i)
    inside-CanRun i (worker_unlock x) e l = unblocked i _ e refl
    inside-CanRun i _ e l = elim l [ ]

    active-CanRun :
        (i : ℕ) (place : ThreadPlace T)
        → get_elem? p.threads i ≡ some place
        → 0 < active place
        → p.mutex ≡ false
        → CanRun p
    unfolding pool_statement
    active-CanRun i outside e l m = elim l [ ]
    active-CanRun i unstarted e l m = elim l [ ]
    active-CanRun i worker_asleep e l m = elim l [ ]
    active-CanRun i (push_lock x) e l m = unblocked i _ e (rw m refl)
    active-CanRun i worker_lock e l m = unblocked i _ e (rw m refl)
    active-CanRun i (worker_call x) e l m = unblocked i _ e refl
    active-CanRun i (push_store x) e l m = inside-CanRun i _ e (omega arith)
    active-CanRun i push_signal e l m = inside-CanRun i _ e (omega arith)
    active-CanRun i push_unlock e l m = inside-CanRun i _ e (omega arith)
    active-CanRun i worker_test e l m = inside-CanRun i _ e (omega arith)
    active-CanRun i worker_load e l m = inside-CanRun i _ e (omega arith)
    active-CanRun i (worker_unlock x) e l m = inside-CanRun i _ e (omega arith)

    -- A thread that has a statement to run, or the one that holds the mutex, can run.
    pub some-CanRun : 0 < total active p.threads → CanRun p
    some-CanRun l = elim (Bool-cases p.mutex) [
      | inl m ↦
          let (i, place, e, g) = total_found inside p.threads (omega (arith, h.owner, ap bit m)) in
          inside-CanRun i place e g
      | inr m ↦ let (i, place, e, g) = total_found active p.threads l in active-CanRun i place e g m
    ]

  total_le_two :
      (u v w : ThreadPlace T → ℕ)
      → ((place : ThreadPlace T) → u place ≤ v place + w place)
      → (ts : List (ThreadPlace T)) → total u ts ≤ total v ts + total w ts
  total_le_two u v w f [] = omega arith
  total_le_two u v w f (place ∷ ts) = omega (arith, f place, total_le_two u v w f ts)

  carries_none :
      (w : T → ℕ) (ts : List (ThreadPlace T)) → total active ts ≡ 0 → total (carries w) ts ≡ 0
  carries_none w [] z = refl
  carries_none w (worker_unlock x ∷ ts) z = absurd (omega (arith, z))
  carries_none w (worker_call x ∷ ts) z = absurd (omega (arith, z))
  carries_none w (_ ∷ ts) z = omega (arith, carries_none w ts (omega (arith, z)))

  -- When no thread has a statement to run, a worker that has been started sleeps, so that the queue is
  -- empty, and no worker has a task in its hands.
  pub idle-IsDrained :
      (p : ThreadPool T)
      → IsPool call p
      → total active p.threads ≡ 0
      → 0 < total started p.threads
      → IsDrained p
  idle-IsDrained p h z l = (nil p.tasks none_left, all_finished)
    where
      nil : (xs : List T) → length xs ≡ 0 → xs ≡ []
      nil [] e = refl
      nil (x ∷ xs) e = absurd (omega (arith, e))

      awake_le : total started p.threads ≤ total active p.threads + total sleeping p.threads
      awake_le =
          total_le_two started active sleeping
            (λ place. elim place as (λ k. started k ≤ active k + sleeping k) [
              | outside ↦ omega arith
              | _ ↦ omega arith
            ])
            p.threads

      ready_le : total ready p.threads ≤ total active p.threads
      ready_le =
          total_le ready active
            (λ place. elim place as (λ k. ready k ≤ active k) [
              | outside ↦ omega arith
              | _ ↦ omega arith
            ])
            p.threads

      none_left : length p.tasks ≡ 0
      none_left = omega (arith, h.awake, awake_le, ready_le, z, l)

      all_finished : (w : T → ℕ) → total (λ t. w (call t)) p.pushed ≡ total w p.finished
      all_finished w =
          let v : T → ℕ = λ t. w (call t) in
          omega (
            arith,
            ap (total v) h.order,
            total-append v p.popped p.tasks,
            ap (total v) (nil p.tasks none_left),
            h.accounted w,
            carries_none v p.threads z,
          )

  drains_or_goes :
      (p : ThreadPool T) → IsPool call p → 0 < total started p.threads → CanRun p ⊎ IsDrained p
  drains_or_goes p h l = elim (dec_lt 0 (total active p.threads)) [
    | yes a ↦ inl (some-CanRun p h a)
    | no n ↦ inr (idle-IsDrained p h (omega (arith, n)) l)
  ]

  Runs_lem :
      (q p : ThreadPool T) (k : ℕ)
      → IsPool call p
      → 0 < total started p.threads
      → Runs q p k
      → (k ≤ budget call p) × (CanRun q ⊎ IsDrained q)
  Runs_lem _ p _ h l no_more = (omega arith, drains_or_goes p h l)
  Runs_lem r p _ h l (then_runs _ q i j k e rest) =
      let (a, b, c) = spent p q _ (pool_step-Spends p h i j) e in
      let (d, f) = Runs_lem r q k a (omega (arith, l, c)) rest in (omega (arith, b, d), f)

  -- After every schedule from a pool of any number of workers and callers, at least one worker started,
  -- when the threads then run any statements one after the other, in any order, with no further call and
  -- no spurious wake-up, they are at most five for each task in the queue and what each thread's place
  -- allows, and afterwards some thread can run a statement, or the queue is empty and each task pushed
  -- has been called exactly once, whatever is counted of the results.
  pub pool_run_drains :
      (cap n : ℕ) (es : List (PoolEvent T)) (p q : ThreadPool T) (k : ℕ)
      → pool_run call (create_pool cap n) es ≡ ran p
      → 0 < total started p.threads
      → Runs q p k
      → (k ≤ budget call p) × (CanRun q ⊎ IsDrained q)
  pool_run_drains cap n es p q k e l rest =
      let (t, h, g) = pool_run-IsPool call cap n es in
      Runs_lem q p k (subst (IsPool call) (ran-injective t p (sym g ∙ e)) h) l rest
