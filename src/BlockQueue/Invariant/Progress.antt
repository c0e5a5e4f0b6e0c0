-- ===== src/BlockQueue/Invariant/Progress.antt =====
-- A block queue (7.3/blockingQueue/blockQueue.hpp) never deadlocks.
use mathlib.Core.Bool.{true≢false}
use my_linux.Base.{
  ℕ, suc, ◌+◌, ◌<◌, ◌≡◌, inl, inr, Bool, true, false, Bool-cases, List, [], ◌∷◌, ◌++◌, ap, sym, ◌∙◌,
  get_elem?, some, set, arith, refl,
}
use my_linux.Base.Totals.{total}
use my_linux.BlockQueue.{
  BlockQueue, Place, push_lock, push_test, push_asleep, push_store, push_signal, push_unlock,
  pop_lock, pop_test, pop_asleep, pop_load, pop_signal, pop_unlock, Outcome, waiting, ran,
  take_front, create_queue, Event, runs, step, run, undefined_front, statement,
}
use my_linux.BlockQueue.Counts.{
  at_push_lock, at_push_test, at_push_asleep, at_push_store, at_push_signal, at_push_unlock,
  at_pop_lock, at_pop_test, at_pop_asleep, at_pop_load, at_pop_signal, at_pop_unlock,
}
use native.Mathlib.Decide.{dec_lt}
use my_linux.Base.{subst}
use my_linux.Base.Totals.{total_found, weight_le}
use my_linux.BlockQueue.Invariant.{bit, IsMonitor, Keeps, waits, goes_on}
use my_linux.BlockQueue.Invariant.Statements.{statement-Keeps}
use my_linux.BlockQueue.Invariant.Schedules.{run-IsMonitor}

abbrev is_waiting : Outcome → Bool
is_waiting waiting = true
is_waiting _ = false

not_waiting :
    (out : Outcome) → Keeps out → is_waiting out ≡ false → (s : BlockQueue) × (out ≡ ran s)
not_waiting _ waits e = absurd (true≢false e)
not_waiting _ (goes_on s i) e = (s, refl)

ran-injective : (q s : BlockQueue) → ran q ≡ ran s → q ≡ s
ran-injective q s e = ap (λ out. elim out [ waiting ↦ q | undefined_front ↦ q | ran t ↦ t ]) e

-- 1 while the thread holds the mutex, and 1 while it asks for it.
abbrev holding : Place → ℕ
holding p =
    at_push_test p
    + at_push_store p
    + at_push_signal p
    + at_push_unlock p
    + at_pop_test p
    + at_pop_load p
    + at_pop_signal p
    + at_pop_unlock p

abbrev asking : Place → ℕ
asking p = at_push_lock p + at_pop_lock p

total-holding :
    (ts : List Place)
    → total holding ts
      ≡ total at_push_test ts
        + total at_push_store ts
        + total at_push_signal ts
        + total at_push_unlock ts
        + total at_pop_test ts
        + total at_pop_load ts
        + total at_pop_signal ts
        + total at_pop_unlock ts
total-holding [] = refl
total-holding (p ∷ ts) = omega (arith, total-holding ts)

total-asking : (ts : List Place) → total asking ts ≡ total at_push_lock ts + total at_pop_lock ts
total-asking [] = refl
total-asking (p ∷ ts) = omega (arith, total-asking ts)

take_front_lem : (q : BlockQueue) (i : ℕ) → is_waiting (take_front q i) ≡ false
unfolding take_front
take_front_lem q i = go q.items
  where
    go :
        (xs : List ℕ)
        → is_waiting (elim xs as (λ _. Outcome) [
          | [] ↦ undefined_front
          | x ∷ rest ↦ ran (record q {
            threads = set q.threads i (pop_signal x);
            items = rest;
            loaded = q.loaded ++ (x ∷ []);
          })
        ])
          ≡ false
    go [] = refl
    go (x ∷ rest) = refl

module _ (q : BlockQueue) (h : IsMonitor q) where
  abbrev CanRun : Type 0
  CanRun = (i : ℕ) × (j : ℕ) × (s : BlockQueue) × (step q (runs i j) ≡ ran s)

  unblocked :
      (i : ℕ) (p : Place)
      → get_elem? q.threads i ≡ some p
      → is_waiting (statement q i 0 p) ≡ false
      → CanRun
  unfolding step
  unblocked i p e w =
      let (s, f) = not_waiting (statement q i 0 p) (statement-Keeps q h i 0 p e) w in
      (i, 0, s, rw (step, e) f)

  holding-CanRun : (i : ℕ) (p : Place) → get_elem? q.threads i ≡ some p → 0 < holding p → CanRun
  unfolding statement
  holding-CanRun i (push_test x) e l = unblocked i _ e refl
  holding-CanRun i (push_store x) e l = unblocked i _ e refl
  holding-CanRun i push_signal e l = unblocked i _ e refl
  holding-CanRun i push_unlock e l = unblocked i _ e refl
  holding-CanRun i pop_test e l = unblocked i _ e refl
  holding-CanRun i pop_load e l = unblocked i _ e (take_front_lem q i)
  holding-CanRun i (pop_signal x) e l = unblocked i _ e refl
  holding-CanRun i (pop_unlock x) e l = unblocked i _ e refl
  holding-CanRun i _ e l = elim l [ ]

  asking-CanRun :
      (i : ℕ) (p : Place) → get_elem? q.threads i ≡ some p → 0 < asking p → q.mutex ≡ false → CanRun
  unfolding statement
  asking-CanRun i (push_lock x) e l m = unblocked i _ e (rw m refl)
  asking-CanRun i pop_lock e l m = unblocked i _ e (rw m refl)
  asking-CanRun i _ e l m = elim l [ ]

  awake-CanRun : 0 < total holding q.threads + total asking q.threads → CanRun
  awake-CanRun l = elim (dec_lt 0 (total holding q.threads)) [
    | yes p ↦ let (i, x, e, g) = total_found holding q.threads p in holding-CanRun i x e g
    | no p ↦
        let (i, x, e, g) = total_found asking q.threads (omega arith) in
        elim (Bool-cases q.mutex) [
          | inl m ↦ absurd (omega (arith, h, total-holding q.threads, ap bit m))
          | inr m ↦ asking-CanRun i x e g m
        ]
  ]

  both_asleep-CanRun :
      0 < total at_push_asleep q.threads → 0 < total at_pop_asleep q.threads → CanRun
  both_asleep-CanRun a b =
      awake-CanRun (
        omega (arith, h, h.producers, h.consumers, total-holding q.threads, total-asking q.threads))

-- After every schedule from a queue of capacity above 0, if a producer sleeps for want of a
-- free place and a consumer for want of an item, then some thread can run its next statement,
-- without a spurious wake-up.
pub run_wakes :
    (cap k : ℕ) (es : List Event) (s : BlockQueue) (i j x : ℕ)
    → run (create_queue (suc cap) k) es ≡ ran s
    → get_elem? s.threads i ≡ some (push_asleep x)
    → get_elem? s.threads j ≡ some pop_asleep
    → (t : ℕ) × (u : ℕ) × (r : BlockQueue) × (step s (runs t u) ≡ ran r)
run_wakes cap k es s i j x e f g =
    let (t, h, q) = run-IsMonitor cap k es in
    both_asleep-CanRun s (subst IsMonitor (ran-injective t s (sym q ∙ e)) h)
      (weight_le at_push_asleep s.threads i _ f) (weight_le at_pop_asleep s.threads j _ g)
