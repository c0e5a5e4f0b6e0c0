-- ===== src/Pool/Counts.antt =====
-- How many threads of a pool (7.10/threadPool/thread_pool.hpp) stand before each statement.
use my_linux.Base.{
  ℕ, suc, ◌+◌, ◌≡◌, ◌≤◌, ◌⊎◌, inl, inr, refl, List, [], ◌∷◌, none, some, arith, get_elem?, set,
  Option-cases,
}
use my_linux.Base.Totals.{total, total-set}
use my_linux.Pool.{
  ThreadPlace, outside, push_lock, push_store, push_signal, push_unlock, unstarted, worker_lock,
  worker_test, worker_asleep, worker_load, worker_unlock, worker_call, first_asleep, thread_wakeup,
}

module _ {T : Type 0} where
  -- 1 while the thread holds the mutex.
  abbrev pub inside : ThreadPlace T → ℕ
  inside (push_store x) = 1
  inside push_signal = 1
  inside push_unlock = 1
  inside worker_test = 1
  inside worker_load = 1
  inside (worker_unlock x) = 1
  inside _ = 0

  abbrev pub loading : ThreadPlace T → ℕ
  loading worker_load = 1
  loading _ = 0

  abbrev pub sleeping : ThreadPlace T → ℕ
  sleeping worker_asleep = 1
  sleeping _ = 0

  -- A signal to come, or a worker that will look at the queue before it sleeps.
  abbrev pub ready : ThreadPlace T → ℕ
  ready push_signal = 1
  ready worker_lock = 1
  ready worker_test = 1
  ready worker_load = 1
  ready _ = 0

  abbrev pub started : ThreadPlace T → ℕ
  started worker_lock = 1
  started worker_test = 1
  started worker_asleep = 1
  started worker_load = 1
  started (worker_unlock x) = 1
  started (worker_call x) = 1
  started _ = 0

  -- A bound on the statements that a thread can still run, without the tasks in the queue.
  abbrev pub cost : ThreadPlace T → ℕ
  cost outside = 0
  cost (push_lock x) = 12
  cost (push_store x) = 11
  cost push_signal = 5
  cost push_unlock = 1
  cost unstarted = 0
  cost worker_lock = 3
  cost worker_test = 2
  cost worker_asleep = 0
  cost worker_load = 1
  cost (worker_unlock x) = 5
  cost (worker_call x) = 4

  -- The weight of the task that a worker has taken and not finished.
  abbrev pub carries : (T → ℕ) → ThreadPlace T → ℕ
  carries w (worker_unlock x) = w x
  carries w (worker_call x) = w x
  carries w _ = 0

  pub total_le :
      (v w : ThreadPlace T → ℕ)
      → ((place : ThreadPlace T) → v place ≤ w place)
      → (ts : List (ThreadPlace T)) → total v ts ≤ total w ts
  total_le v w f [] = omega arith
  total_le v w f (place ∷ ts) = omega (arith, f place, total_le v w f ts)

  pub loading_le : (ts : List (ThreadPlace T)) → total loading ts ≤ total inside ts
  loading_le = total_le loading inside (λ place. elim place as (λ k. loading k ≤ inside k) [
    | worker_load ↦ omega arith
    | _ ↦ omega arith
  ])

-- How each count changes when a thread goes from `old` to `new`.
pub record IsMove {T : Type 0} (old new : ThreadPlace T) (ts us : List (ThreadPlace T))
    : Type 0 where
  pub n_inside : total inside us + inside old ≡ total inside ts + inside new
  pub n_loading : total loading us + loading old ≡ total loading ts + loading new
  pub n_sleeping : total sleeping us + sleeping old ≡ total sleeping ts + sleeping new
  pub n_ready : total ready us + ready old ≡ total ready ts + ready new
  pub n_started : total started us + started old ≡ total started ts + started new
  pub n_cost : total cost us + cost old ≡ total cost ts + cost new

module _ {T : Type 0} where
  pub set-IsMove :
      (ts : List (ThreadPlace T)) (i : ℕ) (old new : ThreadPlace T)
      → get_elem? ts i ≡ some old
      → IsMove old new ts (set ts i new)
  set-IsMove ts i old new e = record {
    n_inside = total-set inside ts i old new e;
    n_loading = total-set loading ts i old new e;
    n_sleeping = total-set sleeping ts i old new e;
    n_ready = total-set ready ts i old new e;
    n_started = total-set started ts i old new e;
    n_cost = total-set cost ts i old new e;
  }

  -- What a signal does: a sleeping worker is before the lock, or no worker sleeps.
  pub data Woken (ts : List (ThreadPlace T)) : List (ThreadPlace T) → Type 0 where
    nobody : total sleeping ts ≡ 0 → Woken ts ts
    somebody : (k : ℕ) → get_elem? ts k ≡ some worker_asleep → Woken ts (set ts k worker_lock)

  first_asleep_lem :
      (ts : List (ThreadPlace T))
      → ((first_asleep ts ≡ none) × (total sleeping ts ≡ 0))
        ⊎ ((k : ℕ) × (first_asleep ts ≡ some k) × (get_elem? ts k ≡ some worker_asleep))
  unfolding first_asleep
  first_asleep_lem [] = inl (refl, refl)
  first_asleep_lem (worker_asleep ∷ ts) = inr (0, refl, refl)
  first_asleep_lem (_ ∷ ts) = elim (first_asleep_lem ts) [
    | inl (e, z) ↦ inl (rw e refl, omega (arith, z))
    | inr (k, e, g) ↦ inr (suc k, rw e refl, g)
  ]

  pub thread_wakeup-Woken : (ts : List (ThreadPlace T)) (j : ℕ) → Woken ts (thread_wakeup ts j)
  unfolding thread_wakeup
  thread_wakeup-Woken ts j = elim (Option-cases (get_elem? ts j)) [
    | inl e ↦ rw (thread_wakeup, e) other
    | inr (p, e) ↦ rw (thread_wakeup, e) (chosen p e)
  ]
    where
      other : Woken ts (elim (first_asleep ts) as (λ _. List (ThreadPlace T)) [
        | none ↦ ts
        | some k ↦ set ts k worker_lock
      ])
      other = elim (first_asleep_lem ts) [
        | inl (e, z) ↦ rw e (nobody z)
        | inr (k, e, g) ↦ rw e (somebody k g)
      ]

      chosen :
          (p : ThreadPlace T)
          → get_elem? ts j ≡ some p
          → Woken ts (elim p as (λ _. List (ThreadPlace T)) [
            | worker_asleep ↦ set ts j worker_lock
            | _ ↦ elim (first_asleep ts) as (λ _. List (ThreadPlace T)) [
              | none ↦ ts
              | some k ↦ set ts k worker_lock
            ]
          ])
      chosen worker_asleep e = somebody j e
      chosen _ e = other
