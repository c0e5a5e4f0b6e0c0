-- ===== src/BlockQueue/Counts.antt =====
-- How many threads of a block queue (7.3/blockingQueue/blockQueue.hpp) stand before each statement.
use my_linux.Base.{
  ℕ, suc, ◌+◌, ◌≡◌, ◌⊎◌, inl, inr, refl, List, [], ◌∷◌, none, some, arith, get_elem?, set,
  Option-cases,
}
use my_linux.Base.Totals.{total, total-set}
use my_linux.BlockQueue.{
  Place, push_lock, push_test, push_asleep, push_store, push_signal, push_unlock, pop_lock,
  pop_test, pop_asleep, pop_load, pop_signal, pop_unlock, first_consumer, first_producer,
  wake_consumer, wake_producer,
}

-- 1 at one statement, 0 elsewhere.
abbrev pub at_push_lock : Place → ℕ
at_push_lock (push_lock x) = 1
at_push_lock _ = 0

abbrev pub at_push_test : Place → ℕ
at_push_test (push_test x) = 1
at_push_test _ = 0

abbrev pub at_push_asleep : Place → ℕ
at_push_asleep (push_asleep x) = 1
at_push_asleep _ = 0

abbrev pub at_push_store : Place → ℕ
at_push_store (push_store x) = 1
at_push_store _ = 0

abbrev pub at_push_signal : Place → ℕ
at_push_signal push_signal = 1
at_push_signal _ = 0

abbrev pub at_push_unlock : Place → ℕ
at_push_unlock push_unlock = 1
at_push_unlock _ = 0

abbrev pub at_pop_lock : Place → ℕ
at_pop_lock pop_lock = 1
at_pop_lock _ = 0

abbrev pub at_pop_test : Place → ℕ
at_pop_test pop_test = 1
at_pop_test _ = 0

abbrev pub at_pop_asleep : Place → ℕ
at_pop_asleep pop_asleep = 1
at_pop_asleep _ = 0

abbrev pub at_pop_load : Place → ℕ
at_pop_load pop_load = 1
at_pop_load _ = 0

abbrev pub at_pop_signal : Place → ℕ
at_pop_signal (pop_signal x) = 1
at_pop_signal _ = 0

abbrev pub at_pop_unlock : Place → ℕ
at_pop_unlock (pop_unlock x) = 1
at_pop_unlock _ = 0

-- How each count changes when a thread goes from `old` to `new`.
pub record IsMove (old new : Place) (ts us : List Place) : Type 0 where
  pub n_push_lock :
      total at_push_lock us + at_push_lock old ≡ total at_push_lock ts + at_push_lock new
  pub n_push_test :
      total at_push_test us + at_push_test old ≡ total at_push_test ts + at_push_test new
  pub n_push_asleep :
      total at_push_asleep us + at_push_asleep old ≡ total at_push_asleep ts + at_push_asleep new
  pub n_push_store :
      total at_push_store us + at_push_store old ≡ total at_push_store ts + at_push_store new
  pub n_push_signal :
      total at_push_signal us + at_push_signal old ≡ total at_push_signal ts + at_push_signal new
  pub n_push_unlock :
      total at_push_unlock us + at_push_unlock old ≡ total at_push_unlock ts + at_push_unlock new
  pub n_pop_lock : total at_pop_lock us + at_pop_lock old ≡ total at_pop_lock ts + at_pop_lock new
  pub n_pop_test : total at_pop_test us + at_pop_test old ≡ total at_pop_test ts + at_pop_test new
  pub n_pop_asleep :
      total at_pop_asleep us + at_pop_asleep old ≡ total at_pop_asleep ts + at_pop_asleep new
  pub n_pop_load : total at_pop_load us + at_pop_load old ≡ total at_pop_load ts + at_pop_load new
  pub n_pop_signal :
      total at_pop_signal us + at_pop_signal old ≡ total at_pop_signal ts + at_pop_signal new
  pub n_pop_unlock :
      total at_pop_unlock us + at_pop_unlock old ≡ total at_pop_unlock ts + at_pop_unlock new

pub set-IsMove :
    (ts : List Place) (i : ℕ) (old new : Place)
    → get_elem? ts i ≡ some old
    → IsMove old new ts (set ts i new)
set-IsMove ts i old new e = record {
  n_push_lock = total-set at_push_lock ts i old new e;
  n_push_test = total-set at_push_test ts i old new e;
  n_push_asleep = total-set at_push_asleep ts i old new e;
  n_push_store = total-set at_push_store ts i old new e;
  n_push_signal = total-set at_push_signal ts i old new e;
  n_push_unlock = total-set at_push_unlock ts i old new e;
  n_pop_lock = total-set at_pop_lock ts i old new e;
  n_pop_test = total-set at_pop_test ts i old new e;
  n_pop_asleep = total-set at_pop_asleep ts i old new e;
  n_pop_load = total-set at_pop_load ts i old new e;
  n_pop_signal = total-set at_pop_signal ts i old new e;
  n_pop_unlock = total-set at_pop_unlock ts i old new e;
}

-- A signal wakes a thread that sleeps on the variable, or nobody sleeps on it.
pub data Woken (counted : Place → ℕ) (old new : ℕ → Place) (ts : List Place)
    : List Place → Type 0 where
  nobody : total counted ts ≡ 0 → Woken counted old new ts ts
  somebody : (us : List Place) (x : ℕ) → IsMove (old x) (new x) ts us → Woken counted old new ts us

first_consumer_lem :
    (ts : List Place)
    → ((first_consumer ts ≡ none) × (total at_pop_asleep ts ≡ 0))
      ⊎ ((k : ℕ) × (first_consumer ts ≡ some k) × (get_elem? ts k ≡ some pop_asleep))
unfolding first_consumer
first_consumer_lem [] = inl (refl, refl)
first_consumer_lem (pop_asleep ∷ ts) = inr (0, refl, refl)
first_consumer_lem (_ ∷ ts) = elim (first_consumer_lem ts) [
  | inl (e, z) ↦ inl (rw e refl, omega (arith, z))
  | inr (k, e, g) ↦ inr (suc k, rw e refl, g)
]

first_producer_lem :
    (ts : List Place)
    → ((first_producer ts ≡ none) × (total at_push_asleep ts ≡ 0))
      ⊎ ((k : ℕ) × (x : ℕ) × (first_producer ts ≡ some (k, x))
          × (get_elem? ts k ≡ some (push_asleep x)))
unfolding first_producer
first_producer_lem [] = inl (refl, refl)
first_producer_lem (push_asleep x ∷ ts) = inr (0, x, refl, refl)
first_producer_lem (_ ∷ ts) = elim (first_producer_lem ts) [
  | inl (e, z) ↦ inl (rw e refl, omega (arith, z))
  | inr (k, x, e, g) ↦ inr (suc k, x, rw e refl, g)
]

pub wake_consumer-Woken :
    (ts : List Place) (j : ℕ)
    → Woken at_pop_asleep (λ x. pop_asleep) (λ x. pop_lock) ts (wake_consumer ts j)
unfolding wake_consumer
wake_consumer-Woken ts j = elim (Option-cases (get_elem? ts j)) [
  | inl e ↦ rw (wake_consumer, e) other
  | inr (p, e) ↦ rw (wake_consumer, e) (chosen p e)
]
  where
    other :
        Woken at_pop_asleep
          (λ x. pop_asleep)
          (λ x. pop_lock)
          ts
          (elim (first_consumer ts) as (λ _. List Place) [ none ↦ ts | some k ↦ set ts k pop_lock ])
    other = elim (first_consumer_lem ts) [
      | inl (e, z) ↦ rw e (nobody z)
      | inr (k, e, g) ↦ rw e (somebody _ 0 (set-IsMove ts k pop_asleep pop_lock g))
    ]

    chosen :
        (p : Place)
        → get_elem? ts j ≡ some p
        → Woken at_pop_asleep
            (λ x. pop_asleep)
            (λ x. pop_lock)
            ts
            (elim p as (λ _. List Place) [
              | pop_asleep ↦ set ts j pop_lock
              | _ ↦ elim (first_consumer ts) as (λ _. List Place) [
                | none ↦ ts
                | some k ↦ set ts k pop_lock
              ]
            ])
    chosen pop_asleep e = somebody _ 0 (set-IsMove ts j pop_asleep pop_lock e)
    chosen _ e = other

pub wake_producer-Woken :
    (ts : List Place) (j : ℕ) → Woken at_push_asleep push_asleep push_lock ts (wake_producer ts j)
unfolding wake_producer
wake_producer-Woken ts j = elim (Option-cases (get_elem? ts j)) [
  | inl e ↦ rw (wake_producer, e) other
  | inr (p, e) ↦ rw (wake_producer, e) (chosen p e)
]
  where
    other :
        Woken at_push_asleep push_asleep push_lock ts
          (elim (first_producer ts) as (λ _. List Place) [
            | none ↦ ts
            | some k ↦ set ts k.0 (push_lock k.1)
          ])
    other = elim (first_producer_lem ts) [
      | inl (e, z) ↦ rw e (nobody z)
      | inr (k, x, e, g) ↦ rw e (somebody _ x (set-IsMove ts k (push_asleep x) (push_lock x) g))
    ]

    chosen :
        (p : Place)
        → get_elem? ts j ≡ some p
        → Woken at_push_asleep push_asleep push_lock ts (elim p as (λ _. List Place) [
          | push_asleep x ↦ set ts j (push_lock x)
          | _ ↦ elim (first_producer ts) as (λ _. List Place) [
            | none ↦ ts
            | some k ↦ set ts k.0 (push_lock k.1)
          ]
        ])
    chosen (push_asleep x) e = somebody _ x (set-IsMove ts j (push_asleep x) (push_lock x) e)
    chosen _ e = other
