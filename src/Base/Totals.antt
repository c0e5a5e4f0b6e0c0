-- ===== src/Base/Totals.antt =====
-- How many elements of a list have a weight: threads that stand before a statement.
use native.Mathlib.Decide.{dec_lt}
use Prim.Native.Nat.{ℕ, zero, suc, ◌+◌, ◌≤◌, ◌<◌}
use mathlib.Core.Path.{◌≡◌, refl, ap}
use mathlib.Core.Logic.{◌≢◌}
use mathlib.Core.List.{List, [], ◌∷◌, ◌++◌}
use mathlib.Core.Option.{some, none-ne-some, some-injective}
use native.Mathlib.Omega.{arith}
use my_linux.Base.Lists.{get_elem?, set, replicate}

module _ {A : Type 0} (w : A → ℕ) where
  abbrev pub total : List A → ℕ
  total [] = 0
  total (pc ∷ ts) = w pc + total ts

  pub total-set :
      (ts : List A) (i : ℕ) (old new : A)
      → get_elem? ts i ≡ some old
      → total (set ts i new) + w old ≡ total ts + w new
  total-set [] i old new e = absurd (none-ne-some old e)
  total-set (pc ∷ ts) zero old new e = omega (arith, ap w (some-injective pc old e))
  total-set (pc ∷ ts) (suc i) old new e = omega (arith, total-set ts i old new e)

  pub total-replicate : (n : ℕ) (a : A) → w a ≡ 0 → total (replicate n a) ≡ 0
  total-replicate zero a e = refl
  total-replicate (suc n) a e = omega (arith, e, total-replicate n a e)

  pub weight_le : (ts : List A) (i : ℕ) (a : A) → get_elem? ts i ≡ some a → w a ≤ total ts
  weight_le [] i a e = absurd (none-ne-some a e)
  weight_le (pc ∷ ts) zero a e = omega (arith, ap w (some-injective pc a e))
  weight_le (pc ∷ ts) (suc i) a e = omega (arith, weight_le ts i a e)

  -- Two elements count twice.
  pub weights_le :
      (ts : List A) (i j : ℕ) (a b : A)
      → i ≢ j
      → get_elem? ts i ≡ some a
      → get_elem? ts j ≡ some b
      → w a + w b ≤ total ts
  weights_le [] i j a b h e f = absurd (none-ne-some a e)
  weights_le (pc ∷ ts) zero zero a b h e f = absurd (h refl)
  weights_le (pc ∷ ts) zero (suc j) a b h e f =
      omega (arith, ap w (some-injective pc a e), weight_le ts j b f)
  weights_le (pc ∷ ts) (suc i) zero a b h e f =
      omega (arith, ap w (some-injective pc b f), weight_le ts i a e)
  weights_le (pc ∷ ts) (suc i) (suc j) a b h e f =
      omega (arith, weights_le ts i j a b (λ q. h (ap suc q)) e f)

  pub total_found :
      (ts : List A) → 0 < total ts → (i : ℕ) × (pc : A) × (get_elem? ts i ≡ some pc) × (0 < w pc)
  total_found [] h = elim h [ ]
  total_found (pc ∷ ts) h = elim (dec_lt 0 (w pc)) [
    | yes p ↦ (0, pc, refl, p)
    | no p ↦ let (i, q, e, g) = total_found ts (omega arith) in (suc i, q, e, g)
  ]

  pub total-append : (xs ys : List A) → total (xs ++ ys) ≡ total xs + total ys
  total-append [] ys = omega arith
  total-append (x ∷ xs) ys = omega (arith, total-append xs ys)
