-- ===== src/Multiplex.antt =====
-- The column of descriptors in the array that the select and poll servers keep (_fd_array of
-- 8.6/selectServer.2 and 8.7/pollServer): none stands for default_fd.
pub mod Places
pub mod Select
pub mod Plain
pub mod Poll
pub mod Level
use mathlib.Core.Option.{none-ne-some, some-injective}
use mathlib.Core.Bool.{true≢false}
use mathlib.Core.Path.{fun_ext}
use my_linux.Text.{Bytes, c_string}
use my_linux.Base.{
  take, Bool-cases, inl, inr, ◌⊎◌, ℕ, zero, suc, ◌+◌, ◌<◌, ◌≤◌, ◌≡◌, ◌≢◌, refl, ap, sym, ◌∙◌, Bool,
  true, false, Option, none, some, List, [], ◌∷◌, length, set, get_elem?, ◌==◌, if◌then◌else◌,
  arith, map, drop, ltb, ◌-◌,
}

-- The descriptor at an index, if the index is in range and not free.
abbrev pub fd_at : List (Option ℕ) → ℕ → Option ℕ
fd_at [] i = none
fd_at (x ∷ xs) zero = x
fd_at (x ∷ xs) (suc i) = fd_at xs i

-- `for (; pos < size; ++pos) if (_fd_array[pos].fd == default_fd) break;`
abbrev pub find_free : List (Option ℕ) → ℕ → Option ℕ
find_free [] pos = none
find_free (none ∷ xs) pos = some pos
find_free (some fd ∷ xs) pos = find_free xs (pos + 1)

-- The descriptors that the process has open, and the sets of select.
abbrev pub FdSet : Type 0
FdSet = ℕ → Bool

abbrev pub put : FdSet → ℕ → Bool → FdSet
put s fd b f = if f == fd then b else s f

-- What `accept` and `recv` return, which the kernel chooses; no bytes are the end of the stream.
pub data Accepted : Type 0 where
  accepted : ℕ → Bytes → ℕ → Accepted
  accept_failed : Accepted

pub data Received : Type 0 where
  received : Bytes → Received
  recv_failed : Received

-- A `recv` into the buffer takes 1023 bytes at most.
unfoldable pub taken : Bytes → Bytes
taken all = take 1023 all

-- `buffer[n - back] = 0`, and the text that the buffer then holds; a store in front of the buffer is `none`,
-- which is undefined behaviour.
unfoldable pub terminated_back : ℕ → Bytes → Option Bytes
terminated_back back bytes =
    if ltb (length bytes) back then none else c_string (set bytes (length bytes - back) 0)

-- The listening socket stands first, no descriptor stands twice, and the open descriptors are the ones of
-- the array: none has leaked, and none of the array is closed.
pub record IsTable (listen : ℕ) (fds : List (Option ℕ)) (opened : FdSet) : Type 0 where
  pub first : fd_at fds 0 ≡ some listen
  pub unique : (i j f : ℕ) → fd_at fds i ≡ some f → fd_at fds j ≡ some f → i ≡ j
  pub is_open : (i f : ℕ) → fd_at fds i ≡ some f → opened f ≡ true
  pub found : (f : ℕ) → opened f ≡ true → (i : ℕ) × (fd_at fds i ≡ some f)

fd_at-set_self :
    (fds : List (Option ℕ)) (i : ℕ) (v : Option ℕ) → i < length fds → fd_at (set fds i v) i ≡ v
fd_at-set_self [] i v h = elim h [ ]
fd_at-set_self (x ∷ xs) zero v h = refl
fd_at-set_self (x ∷ xs) (suc i) v h = fd_at-set_self xs i v (omega arith)

fd_at-set_ne :
    (fds : List (Option ℕ)) (i j : ℕ) (v : Option ℕ) → i ≢ j → fd_at (set fds i v) j ≡ fd_at fds j
fd_at-set_ne [] i j v h = refl
fd_at-set_ne (x ∷ xs) zero zero v h = absurd (h refl)
fd_at-set_ne (x ∷ xs) zero (suc j) v h = refl
fd_at-set_ne (x ∷ xs) (suc i) zero v h = refl
fd_at-set_ne (x ∷ xs) (suc i) (suc j) v h = fd_at-set_ne xs i j v (λ e. h (ap suc e))

fd_at-length : (fds : List (Option ℕ)) (i f : ℕ) → fd_at fds i ≡ some f → i < length fds
fd_at-length [] i f e = absurd (none-ne-some f e)
fd_at-length (x ∷ xs) zero f e = omega arith
fd_at-length (x ∷ xs) (suc i) f e = omega (arith, fd_at-length xs i f e)

-- The search gives a free index, in range.
pub find_free_lem :
    (fds : List (Option ℕ)) (k pos : ℕ)
    → find_free fds k ≡ some pos
    → (d : ℕ) × (pos ≡ k + d) × (d < length fds) × (fd_at fds d ≡ none)
find_free_lem [] k pos e = absurd (none-ne-some pos e)
find_free_lem (none ∷ xs) k pos e = (0, omega (arith, some-injective k pos e), omega arith, refl)
find_free_lem (some fd ∷ xs) k pos e =
    let (d, p, l, q) = find_free_lem xs (k + 1) pos e in
    (suc d, omega (arith, p), omega (arith, l), q)

pub eq_or_ne : (a b : ℕ) → (a ≡ b) ⊎ (a ≢ b)
eq_or_ne a b = elim (Bool-cases (a == b)) [
  | inl e ↦ inl (ground arith)
  | inr e ↦ inr (λ q. ground arith)
]

pub ==_self : (a : ℕ) → (a == a) ≡ true
==_self a = ground arith

pub ==_ne : (a b : ℕ) → a ≢ b → (a == b) ≡ false
==_ne a b h = ground arith

pub put_self : (s : FdSet) (fd : ℕ) (b : Bool) → put s fd b fd ≡ b
put_self s fd b = rw (==_self fd) refl

pub put_ne : (s : FdSet) (fd f : ℕ) (b : Bool) → f ≢ fd → put s fd b f ≡ s f
put_ne s fd f b h = rw (==_ne f fd h) refl

-- A set of one descriptor.
pub put_same : (fd : ℕ) → put (λ f. false) fd true ≡ (λ f. f == fd)
put_same fd = fun_ext (λ f. elim (Bool-cases (f == fd)) [ inl e ↦ rw e refl | inr e ↦ rw e refl ])

-- What is opened and closed again was not open.
pub put_undo : (s : FdSet) (fd : ℕ) → s fd ≡ false → put (put s fd true) fd false ≡ s
put_undo s fd e = fun_ext (λ f. elim (eq_or_ne f fd) [
  | inl p ↦
      ap (put (put s fd true) fd false) p ∙ put_self (put s fd true) fd false ∙ sym e ∙ ap s (sym p)
  | inr p ↦ put_ne (put s fd true) fd f false p ∙ put_ne s fd f true p
])

module _ (listen : ℕ) (fds : List (Option ℕ)) (opened : FdSet) (t : IsTable listen fds opened) where
  -- A new descriptor goes to a free place.
  pub insert-IsTable :
      (i fd : ℕ)
      → opened fd ≡ false
      → i < length fds
      → fd_at fds i ≡ none
      → IsTable listen (set fds i (some fd)) (put opened fd true)
  insert-IsTable i fd c l e = record {
    first =
        fd_at-set_ne fds i 0 (some fd)
          (λ z. none-ne-some listen (sym e ∙ ap (fd_at fds) z ∙ t.first))
        ∙ t.first;
    unique = same;
    is_open = stays;
    found = back;
  }
    where
      there : fd_at (set fds i (some fd)) i ≡ some fd
      there = fd_at-set_self fds i (some fd) l

      elsewhere : (j f : ℕ) → i ≢ j → fd_at (set fds i (some fd)) j ≡ some f → fd_at fds j ≡ some f
      elsewhere j f h a = sym (fd_at-set_ne fds i j (some fd) h) ∙ a

      new : (j f : ℕ) → i ≡ j → fd_at (set fds i (some fd)) j ≡ some f → f ≡ fd
      new j f h a = some-injective f fd (sym a ∙ ap (fd_at (set fds i (some fd))) (sym h) ∙ there)

      old : (j f : ℕ) → i ≢ j → fd_at (set fds i (some fd)) j ≡ some f → f ≢ fd
      old j f h a z = true≢false (sym (t.is_open j f (elsewhere j f h a)) ∙ ap opened z ∙ c)

      same :
          (j k f : ℕ)
          → fd_at (set fds i (some fd)) j ≡ some f
          → fd_at (set fds i (some fd)) k ≡ some f
          → j ≡ k
      same j k f a b = elim (eq_or_ne i j) [
        | inl p ↦ elim (eq_or_ne i k) [
          | inl q ↦ sym p ∙ q
          | inr q ↦ absurd (old k f q b (new j f p a))
        ]
        | inr p ↦ elim (eq_or_ne i k) [
          | inl q ↦ absurd (old j f p a (new k f q b))
          | inr q ↦ t.unique j k f (elsewhere j f p a) (elsewhere k f q b)
        ]
      ]

      stays : (j f : ℕ) → fd_at (set fds i (some fd)) j ≡ some f → put opened fd true f ≡ true
      stays j f a = elim (eq_or_ne i j) [
        | inl p ↦ rw (new j f p a) (put_self opened fd true)
        | inr p ↦ put_ne opened fd f true (old j f p a) ∙ t.is_open j f (elsewhere j f p a)
      ]

      back :
          (f : ℕ) → put opened fd true f ≡ true → (j : ℕ) × (fd_at (set fds i (some fd)) j ≡ some f)
      back f a = elim (eq_or_ne f fd) [
        | inl p ↦ (i, there ∙ ap some (sym p))
        | inr p ↦
            let (j, g) = t.found f (sym (put_ne opened fd f true p) ∙ a) in
            (
              j,
              fd_at-set_ne fds i j (some fd) (λ z. none-ne-some f (sym e ∙ ap (fd_at fds) z ∙ g))
                  ∙ g,
            )
      ]

  -- The descriptor of one place is closed, and the place becomes free.
  pub remove-IsTable :
      (i fd : ℕ)
      → fd_at fds i ≡ some fd
      → fd ≢ listen
      → IsTable listen (set fds i none) (put opened fd false)
  remove-IsTable i fd e n = record {
    first =
        fd_at-set_ne fds i 0 none
          (λ z. n (some-injective fd listen (sym e ∙ ap (fd_at fds) z ∙ t.first)))
        ∙ t.first;
    unique = λ j k f a b. t.unique j k f (elsewhere j f a) (elsewhere k f b);
    is_open = λ j f a.
        put_ne opened fd f false
          (λ z. differs j f a (t.unique i j fd e (elsewhere j f a ∙ ap some z)))
        ∙ t.is_open j f (elsewhere j f a);
    found = back;
  }
    where
      differs : (j f : ℕ) → fd_at (set fds i none) j ≡ some f → i ≢ j
      differs j f a z = none-ne-some f (
          sym (fd_at-set_self fds i none (fd_at-length fds i fd e))
          ∙ ap (fd_at (set fds i none)) z
          ∙ a)

      elsewhere : (j f : ℕ) → fd_at (set fds i none) j ≡ some f → fd_at fds j ≡ some f
      elsewhere j f a = sym (fd_at-set_ne fds i j none (differs j f a)) ∙ a

      back : (f : ℕ) → put opened fd false f ≡ true → (j : ℕ) × (fd_at (set fds i none) j ≡ some f)
      back f a = elim (eq_or_ne f fd) [
        | inl p ↦
            absurd (true≢false (sym a ∙ ap (put opened fd false) p ∙ put_self opened fd false))
        | inr p ↦
            let (j, g) = t.found f (sym (put_ne opened fd f false p) ∙ a) in
            (
              j,
              fd_at-set_ne fds i j none
                    (λ z. p (some-injective f fd (sym g ∙ ap (fd_at fds) (sym z) ∙ e)))
                  ∙ g,
            )
      ]
