-- ===== src/Text/Find.antt =====
-- Where `find` finds a separator, and what `c_string` reads.
use mathlib.Core.Bool.{true≢false}
use my_linux.Base.{
  Bool, true, false, ◌==◌, Bool-cases, inl, inr, sym, ℕ, ◌≡◌, refl, ◌≢◌, none, some, [], ◌∷◌, ◌++◌,
  arith, length,
}
use my_linux.Text.{Bytes, find, c_string}

-- The byte does not occur.
abbrev pub Lacks : ℕ → Bytes → Type 0
Lacks c [] = Unit {0}
Lacks c (x ∷ s) = (x ≢ c) × Lacks c s

-- A test for it.
abbrev pub has_no : ℕ → Bytes → Bool
has_no c [] = true
has_no c (x ∷ s) = elim (x == c) [ true ↦ false | false ↦ has_no c s ]

pub has_no-Lacks : (c : ℕ) (s : Bytes) → has_no c s ≡ true → Lacks c s
has_no-Lacks c [] h = tt
has_no-Lacks c (x ∷ s) h = elim (Bool-cases (x == c)) [
  | inl e ↦ absurd (true≢false (sym (rw (e, has_no) at h)))
  | inr e ↦ (λ q. ground arith, has_no-Lacks c s (rw (e, has_no) at h))
]

pub Lacks-append : (c : ℕ) (s t : Bytes) → Lacks c s → Lacks c t → Lacks c (s ++ t)
Lacks-append c [] t h k = k
Lacks-append c (x ∷ s) t h k = (h.0, Lacks-append c s t h.1 k)

-- A separator of two bytes is found right behind a text that lacks its first byte.
pub find_behind :
    (a b : ℕ) (s r : Bytes) → Lacks a s → find (s ++ (a ∷ b ∷ r)) (a ∷ b ∷ []) ≡ some (length s)
unfolding find
find_behind a b [] r h = ground arith
find_behind a b (x ∷ s) r h = ground (arith, find_behind a b s r h.1)

-- A text that lacks a separator's first byte lacks the separator, also with that byte at its end.
pub find_lacking : (a b : ℕ) (s : Bytes) → Lacks a s → find s (a ∷ b ∷ []) ≡ none
unfolding find
find_lacking a b [] h = ground arith
find_lacking a b (x ∷ s) h = ground (arith, find_lacking a b s h.1)

pub find_cut : (a b : ℕ) (s : Bytes) → Lacks a s → find (s ++ (a ∷ [])) (a ∷ b ∷ []) ≡ none
unfolding find
find_cut a b [] h = ground arith
find_cut a b (x ∷ s) h = ground (arith, find_cut a b s h.1)

pub c_string_lem : (s r : Bytes) → Lacks 0 s → c_string (s ++ (0 ∷ r)) ≡ some s
unfolding c_string
c_string_lem [] r h = refl
c_string_lem (x ∷ s) r h = ground (arith, c_string_lem s r h.1)
