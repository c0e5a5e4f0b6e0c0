-- ===== src/BlockQueue/Invariant/Bounds.antt =====
-- Facts of the tests and of the mutex of a block queue (7.3/blockingQueue/blockQueue.hpp).
use mathlib.Core.Bool.{true≢false}
use my_linux.Base.{
  ◌==◌, ◌≢◌, ℕ, ◌≤◌, ◌<◌, ◌≡◌, Bool, true, false, List, [], ◌∷◌, length, sym, arith, refl,
}
use my_linux.BlockQueue.Invariant.{bit}

pub bit_le : (b : Bool) → bit b ≤ 1
bit_le true = omega arith
bit_le false = omega arith

pub ne_of_test : (a b : ℕ) → (a == b) ≡ false → a ≢ b
ne_of_test a b e f = ground arith

pub empty_lem :
    (xs : List ℕ) → (elim xs as (λ _. Bool) [ [] ↦ true | _ ∷ _ ↦ false ]) ≡ true → length xs ≡ 0
empty_lem [] e = refl
empty_lem (x ∷ xs) e = absurd (true≢false (sym e))

pub some_lem :
    (xs : List ℕ) → (elim xs as (λ _. Bool) [ [] ↦ true | _ ∷ _ ↦ false ]) ≡ false → 0 < length xs
some_lem [] e = absurd (true≢false e)
some_lem (x ∷ xs) e = omega arith

pub front_cases : (xs : List ℕ) → 0 < length xs → (x : ℕ) × (rest : List ℕ) × (xs ≡ x ∷ rest)
front_cases [] l = elim l [ ]
front_cases (x ∷ rest) l = (x, rest, refl)
