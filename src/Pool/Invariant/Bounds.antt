-- ===== src/Pool/Invariant/Bounds.antt =====
-- Small facts that the statements of a thread pool (7.10/threadPool/thread_pool.hpp) share.
use mathlib.Core.Bool.{true≢false}
use my_linux.Base.{
  ℕ, ◌+◌, ◌≤◌, ◌<◌, ◌≡◌, Bool, true, false, List, [], ◌∷◌, length, arith, sym, refl, get_elem?,
  some, set,
}
use my_linux.Base.Totals.{total, total-set}
use my_linux.Pool.{ThreadPool, ThreadPlace}
use my_linux.Pool.Counts.{carries}
use my_linux.Pool.Invariant.{bit, IsPool}

pub bit_le : (b : Bool) → bit b ≤ 1
bit_le true = omega arith
bit_le false = omega arith

module _ {T : Type 0} where
  pub none_lem :
      (xs : List T) → (elim xs as (λ _. Bool) [ [] ↦ true | _ ∷ _ ↦ false ]) ≡ true → length xs ≡ 0
  none_lem [] e = refl
  none_lem (x ∷ xs) e = absurd (true≢false (sym e))

  pub some_lem :
      (xs : List T) → (elim xs as (λ _. Bool) [ [] ↦ true | _ ∷ _ ↦ false ]) ≡ false → 0 < length xs
  some_lem [] e = absurd (true≢false e)
  some_lem (x ∷ xs) e = omega arith

  pub front_cases : (xs : List T) → 0 < length xs → (x : T) × (rest : List T) × (xs ≡ x ∷ rest)
  front_cases [] l = elim l [ ]
  front_cases (x ∷ rest) l = (x, rest, refl)

-- The account of the tasks stays when the thread that moves carries what it did before.
pub still_accounted :
    {T : Type 0} (call : T → T) (p : ThreadPool T)
    → IsPool call p
    → (i : ℕ) (old new : ThreadPlace T) → get_elem? p.threads i ≡ some old
    → ((w : T → ℕ) → carries w new ≡ carries w old)
    → (w : T → ℕ)
    → total (λ t. w (call t)) p.popped
      ≡ total (carries (λ t. w (call t))) (set p.threads i new) + total w p.finished
still_accounted call p h i old new e s w = omega (
  arith,
  h.accounted w,
  s (λ t. w (call t)),
  total-set (carries (λ t. w (call t))) p.threads i old new e,
)
