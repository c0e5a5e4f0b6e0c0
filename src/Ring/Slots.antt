-- ===== src/Ring/Slots.antt =====
-- The items of a ring (7.9/sem/RingQueue.hpp): `n` slots from `start` on, going round at `cap`.
use native.Mathlib.Nat.{add-zero, mod-add-mod, mod-eq_of_lt, mod-eq-sub-mod, mod-lt}
use native.Mathlib.Decide.{dec_lt}
use my_linux.Base.{
  ℕ, zero, suc, ◌+◌, ◌-◌, ◌%◌, ◌≤◌, ◌<◌, ◌≡◌, refl, ap, ap₂, ◌≢◌, List, [], ◌∷◌, ◌++◌, arith,
  length, get_elem?, get_or, set, some, length-append,
}

-- The items are listed from the last one back.
abbrev pub slots : List ℕ → ℕ → ℕ → ℕ → List ℕ
slots buf cap start zero = []
slots buf cap start (suc n) = slots buf cap start n ++ (get_or buf ((start + n) % cap) 0 ∷ [])

get_or-set_other : (buf : List ℕ) (i j x : ℕ) → i ≢ j → get_or (set buf i x) j 0 ≡ get_or buf j 0
get_or-set_other [] i j x h = refl
get_or-set_other (y ∷ buf) zero zero x h = absurd (h refl)
get_or-set_other (y ∷ buf) zero (suc j) x h = refl
get_or-set_other (y ∷ buf) (suc i) zero x h = refl
get_or-set_other (y ∷ buf) (suc i) (suc j) x h = get_or-set_other buf i j x (λ e. h (ap suc e))

get_or-set_same : (buf : List ℕ) (i x : ℕ) → i < length buf → get_or (set buf i x) i 0 ≡ x
get_or-set_same [] i x h = elim h [ ]
get_or-set_same (y ∷ buf) zero x h = refl
get_or-set_same (y ∷ buf) (suc i) x h = get_or-set_same buf i x (omega arith)

pub get_elem?-some :
    (buf : List ℕ) (i : ℕ) → i < length buf → get_elem? buf i ≡ some (get_or buf i 0)
get_elem?-some [] i h = elim h [ ]
get_elem?-some (y ∷ buf) zero h = refl
get_elem?-some (y ∷ buf) (suc i) h = get_elem?-some buf i (omega arith)

-- Within one round the slots are all different.
mod-ne : (cap start k n : ℕ) → start < cap → k < n → n < cap → (start + n) % cap ≢ (start + k) % cap
mod-ne cap start k n s a b = elim (dec_lt (start + n) cap) [
  | yes p ↦ omega (arith, mod-eq_of_lt p, mod-eq_of_lt {n = start + k} {m = cap} (omega arith))
  | no p ↦ elim (dec_lt (start + k) cap) [
    | yes q ↦ omega (
      arith,
      mod-eq-sub-mod {n = start + n} {m = cap} (omega arith),
      mod-eq_of_lt {n = start + n - cap} {m = cap} (omega arith),
      mod-eq_of_lt q,
    )
    | no q ↦ omega (
      arith,
      mod-eq-sub-mod {n = start + n} {m = cap} (omega arith),
      mod-eq_of_lt {n = start + n - cap} {m = cap} (omega arith),
      mod-eq-sub-mod {n = start + k} {m = cap} (omega arith),
      mod-eq_of_lt {n = start + k - cap} {m = cap} (omega arith),
    )
  ]
]

slots-set :
    (buf : List ℕ) (cap start k n x : ℕ)
    → start < cap
    → k ≤ n
    → n < cap
    → slots (set buf ((start + n) % cap) x) cap start k ≡ slots buf cap start k
slots-set buf cap start zero n x s a b = refl
slots-set buf cap start (suc k) n x s a b =
    ap₂ ◌++◌ (slots-set buf cap start k n x s (omega arith) b)
      (ap (λ y. y ∷ []) (get_or-set_other buf _ _ x (mod-ne cap start k n s a b)))

-- A store behind the last item adds an item.
pub slots-store :
    (buf : List ℕ) (cap start n x : ℕ)
    → start < cap
    → n < cap
    → length buf ≡ cap
    → slots (set buf ((start + n) % cap) x) cap start (suc n) ≡ slots buf cap start n ++ (x ∷ [])
slots-store buf cap start n x s b e = ap₂ ◌++◌ (slots-set buf cap start n n x s (omega arith) b) (
    ap (λ y. y ∷ [])
      (get_or-set_same buf _ x (omega (arith, e, mod-lt (start + n) {m = cap} (omega arith)))))

-- The first item stands in the first slot.
pub slots-first :
    (buf : List ℕ) (cap start n : ℕ)
    → start < cap
    → slots buf cap start (suc n) ≡ get_or buf start 0 ∷ slots buf cap ((start + 1) % cap) n
slots-first buf cap start zero s = rw (add-zero start, mod-eq_of_lt s)
slots-first buf cap start (suc n) s =
    ap₂ ◌++◌ (slots-first buf cap start n s) (ap (λ i. get_or buf i 0 ∷ []) shift)
  where
    shift : (start + suc n) % cap ≡ ((start + 1) % cap + n) % cap
    shift = rw mod-add-mod (ap (λ i. i % cap) (omega arith))

pub length-slots : (buf : List ℕ) (cap start n : ℕ) → length (slots buf cap start n) ≡ n
length-slots buf cap start zero = refl
length-slots buf cap start (suc n) = omega (
  arith,
  length-append (slots buf cap start n) (get_or buf ((start + n) % cap) 0 ∷ []),
  length-slots buf cap start n,
)
