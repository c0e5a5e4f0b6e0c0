-- ===== src/Multiplex/Places.antt =====
-- The places of the arrays of 8.6/selectServer.2/SelectServer.hpp and 8.7/pollServer/PollServer.hpp,
-- their column of descriptors, and the buffer that a message is read into.
use mathlib.Core.Option.{none-ne-some, some-injective}
use my_linux.Base.{
  ◌∙◌, true, ℕ, zero, suc, ◌<◌, ◌≡◌, ◌≢◌, refl, ap, sym, inl, inr, false, Option, none, some, List,
  [], ◌∷◌, ◌==◌, map, get_elem?, set, drop, length, arith, Bool-cases,
}
use my_linux.Text.{Bytes, c_string}
use my_linux.Multiplex.{fd_at, FdSet, put, IsTable, insert-IsTable, find_free, find_free_lem}

pub fd_at-drop :
    (xs : List (Option ℕ)) (d : ℕ)
    → d < length (drop 1 xs)
    → (fd_at (drop 1 xs) d ≡ fd_at xs (suc d)) × (suc d < length xs)
fd_at-drop [] d h = elim h [ ]
fd_at-drop (x ∷ xs) d h = (refl, omega arith)

module _ {ℓ} {A : Type ℓ} where
  pub get_elem?-ne_none : (xs : List A) (i : ℕ) → i < length xs → get_elem? xs i ≢ none
  get_elem?-ne_none [] i l e = elim l [ ]
  get_elem?-ne_none (x ∷ xs) zero l e = none-ne-some x (sym e)
  get_elem?-ne_none (x ∷ xs) (suc i) l e = get_elem?-ne_none xs i (omega arith) e

  pub map-set :
      {B : Type 0} (f : A → B) (xs : List A) (i : ℕ) (v : A)
      → map f (set xs i v) ≡ set (map f xs) i (f v)
  map-set f [] i v = refl
  map-set f (x ∷ xs) zero v = refl
  map-set f (x ∷ xs) (suc i) v = ap (◌∷◌ (f x)) (map-set f xs i v)

  pub fd_at-map :
      (f : A → Option ℕ) (xs : List A) (i : ℕ) (x : A)
      → get_elem? xs i ≡ some x
      → fd_at (map f xs) i ≡ f x
  fd_at-map f [] i x e = absurd (none-ne-some x e)
  fd_at-map f (y ∷ xs) zero x e = ap f (some-injective y x e)
  fd_at-map f (y ∷ xs) (suc i) x e = fd_at-map f xs i x e

pub ne_of_test : (a b : ℕ) → (a == b) ≡ false → a ≢ b
ne_of_test a b e q = ground arith

-- The byte stored last ends the C string.
pub c_string-set_last :
    (b : ℕ) (bytes : Bytes)
    → (text : Bytes) × (c_string (set (b ∷ bytes) (length bytes) 0) ≡ some text)
unfolding c_string
c_string-set_last b [] = ([], refl)
c_string-set_last b (c ∷ bytes) =
    let (text, e) = c_string-set_last c bytes in
    elim (Bool-cases (b == 0)) [ inl q ↦ rw q ([], refl) | inr q ↦ rw (q, e) (b ∷ text, refl) ]

-- A buffer with a NUL in it holds a C string.
pub c_string-has_nul :
    (bytes : Bytes) (i : ℕ)
    → get_elem? bytes i ≡ some 0
    → (text : Bytes) × (c_string bytes ≡ some text)
unfolding c_string
c_string-has_nul [] i e = absurd (none-ne-some 0 e)
c_string-has_nul (b ∷ bytes) zero e = ([], rw (some-injective b 0 e) refl)
c_string-has_nul (b ∷ bytes) (suc i) e =
    let (text, q) = c_string-has_nul bytes i e in
    elim (Bool-cases (b == 0)) [ inl p ↦ rw p ([], refl) | inr p ↦ rw (p, q) (b ∷ text, refl) ]

-- A new descriptor goes to the place that the search from 1 on found.
pub placed-IsTable :
    (listen : ℕ) (fds : List (Option ℕ)) (opened : FdSet) (fd i : ℕ)
    → IsTable listen fds opened
    → opened fd ≡ false
    → find_free (drop 1 fds) 1 ≡ some i
    → IsTable listen (set fds i (some fd)) (put opened fd true)
placed-IsTable listen fds opened fd i t c e =
    let (d, p, b, z) = find_free_lem (drop 1 fds) 1 i e in
    let (g, m) = fd_at-drop fds d b in
    let at : i ≡ suc d = omega (arith, p) in
    insert-IsTable listen fds opened t i fd c (omega (arith, at, m)) (ap (fd_at fds) at ∙ sym g ∙ z)
