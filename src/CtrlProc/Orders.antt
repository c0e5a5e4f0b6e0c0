-- ===== src/CtrlProc/Orders.antt =====
-- What the numbers typed to `CtrlProcess` (5.26/CtrlProc/proc.cc) ask for.
use my_linux.Base.{
  Bool, true, false, replicate, ltb, ◌%◌, ◌^◌, ◌+◌, ◌∙◌, ℕ, zero, suc, ◌≤◌, ◌≡◌, inl, inr, refl, ap,
  List, [], ◌∷◌, ◌++◌, ◌==◌, if◌then◌else◌, length, arith, Bool-cases,
}
use my_linux.Base.Int.{ℤ, pos, negsuc}
use my_linux.Calc.{in_range}
use my_linux.CtrlProc.{extracted, choose, again, leave, task, next_child}

-- What `CtrlProcess` sends in `n` turns from the child before.
abbrev zeros : ℕ → ℕ → List (ℕ × ℕ)
zeros zero procs = []
zeros (suc n) procs = (next_child procs, 0) ∷ zeros n (next_child procs)

abbrev pub orders : List ℤ → ℕ → ℕ → List (ℕ × ℕ)
orders [] n procs = zeros n procs
orders (x ∷ rest) zero procs = []
orders (x ∷ rest) (suc n) procs =
    let passed = orders rest (suc n) procs in
    let taken = orders rest n (next_child procs) in
    elim (choose x) [ again ↦ passed | leave ↦ [] | task t ↦ (next_child procs, t) ∷ taken ]

-- The tasks for one child, in order.
abbrev pub commands : ℕ → List (ℕ × ℕ) → List ℕ
commands k [] = []
commands k ((j, x) ∷ sent) = let rest = commands k sent in if j == k then x ∷ rest else rest

pub commands-append :
    (k j x : ℕ) (sent : List (ℕ × ℕ))
    → commands k (sent ++ ((j, x) ∷ [])) ≡ commands k sent ++ (if j == k then x ∷ [] else [])
commands-append k j x [] = elim (Bool-cases (j == k)) [ inl e ↦ rw e refl | inr e ↦ rw e refl ]
commands-append k j x ((i, y) ∷ sent) = elim (Bool-cases (i == k)) [
  | inl e ↦ rw e (ap (λ (l : List ℕ). y ∷ l) (commands-append k j x sent))
  | inr e ↦ rw e (commands-append k j x sent)
]

pub length-commands : (k : ℕ) (sent : List (ℕ × ℕ)) → length (commands k sent) ≤ length sent
length-commands k [] = omega arith
length-commands k ((i, y) ∷ sent) = elim (Bool-cases (i == k)) [
  | inl e ↦ rw e (omega (arith, length-commands k sent))
  | inr e ↦ rw e (omega (arith, length-commands k sent))
]

-- Nothing is asked for after the last turn.
pub orders_none : (input : List ℤ) (procs : ℕ) → orders input 0 procs ≡ []
orders_none [] procs = refl
orders_none (x ∷ rest) procs = refl

-- The tasks that the numbers typed ask for in `n` turns: 0, 1 and 2 are tasks and 3 ends it; other numbers are passed over,
-- unless they are no `int`: from there on, as at the end of the input, each turn is for task 0.
abbrev pub tasks : List ℤ → ℕ → List ℕ
tasks [] n = replicate n 0
tasks (x ∷ rest) zero = []
tasks (pos zero ∷ rest) (suc n) = 0 ∷ tasks rest n
tasks (pos (suc zero) ∷ rest) (suc n) = 1 ∷ tasks rest n
tasks (pos (suc (suc zero)) ∷ rest) (suc n) = 2 ∷ tasks rest n
tasks (pos (suc (suc (suc zero))) ∷ rest) (suc n) = []
tasks (pos (suc (suc (suc (suc m)))) ∷ rest) (suc n) =
    let more = tasks rest (suc n) in
    if ltb (suc (suc (suc (suc m)))) (2 ^ 31) then more else replicate (suc n) 0
tasks (negsuc m ∷ rest) (suc n) =
    let more = tasks rest (suc n) in if ltb m (2 ^ 31) then more else replicate (suc n) 0

-- The j-th task is for the child behind the j-th, in a circle of five.
abbrev pub dealt : ℕ → List ℕ → List (ℕ × ℕ)
dealt j [] = []
dealt j (t ∷ ts) = ((j + 1) % 5, t) ∷ dealt (j + 1) ts

next_child-mod : (j : ℕ) → next_child (j % 5) ≡ (j + 1) % 5
next_child-mod j = omega arith

zeros-dealt : (n j : ℕ) → zeros n (j % 5) ≡ dealt j (replicate n 0)
zeros-dealt zero j = refl
zeros-dealt (suc n) j =
    ap (λ (k : ℕ). (k, 0) ∷ zeros n k) (next_child-mod j)
    ∙ ap (λ (l : List (ℕ × ℕ)). ((j + 1) % 5, 0) ∷ l) (zeros-dealt n (j + 1))

taken_lem :
    (t n j : ℕ) (rest : List ℤ) (ts : List ℕ)
    → orders rest n ((j + 1) % 5) ≡ dealt (j + 1) ts
    → (next_child (j % 5), t) ∷ orders rest n (next_child (j % 5)) ≡ dealt j (t ∷ ts)
taken_lem t n j rest ts e =
    ap (λ (k : ℕ). (k, t) ∷ orders rest n k) (next_child-mod j)
    ∙ ap (λ (l : List (ℕ × ℕ)). ((j + 1) % 5, t) ∷ l) e

orders_again :
    (x : ℤ) (rest : List ℤ) (n procs : ℕ)
    → choose x ≡ again
    → orders (x ∷ rest) (suc n) procs ≡ orders rest (suc n) procs
orders_again x rest n procs e = rw (orders, e) refl

-- A number off the menu, `x` if it is an `int` and `y` if not.
off_menu :
    (b : Bool) (x y : ℤ) (rest : List ℤ) (n j : ℕ) (more : List ℕ)
    → choose x ≡ again
    → choose y ≡ again
    → orders rest (suc n) (j % 5) ≡ dealt j more
    → orders (if b then x ∷ rest else y ∷ []) (suc n) (j % 5)
      ≡ dealt j (if b then more else replicate (suc n) 0)
off_menu true x y rest n j more e f g = orders_again x rest n (j % 5) e ∙ g
off_menu false x y rest n j more e f g = orders_again y [] n (j % 5) f ∙ zeros-dealt (suc n) j

above : (m : ℕ) → choose (pos (suc (suc (suc (suc m))))) ≡ again
unfolding choose
above m = rw (choose, large) refl
  where
    large : ltb 3 (suc (suc (suc (suc m)))) ≡ true
    large = ground arith

-- What is sent is what the numbers typed ask for.
pub orders-dealt :
    (input : List ℤ) (n j : ℕ) → orders (extracted input) n (j % 5) ≡ dealt j (tasks input n)
unfolding extracted choose
orders-dealt [] n j = zeros-dealt n j
orders-dealt (x ∷ rest) zero j = orders_none (extracted (x ∷ rest)) (j % 5)
orders-dealt (pos zero ∷ rest) (suc n) j =
    taken_lem 0 n j (extracted rest) _ (orders-dealt rest n (j + 1))
orders-dealt (pos (suc zero) ∷ rest) (suc n) j =
    taken_lem 1 n j (extracted rest) _ (orders-dealt rest n (j + 1))
orders-dealt (pos (suc (suc zero)) ∷ rest) (suc n) j =
    taken_lem 2 n j (extracted rest) _ (orders-dealt rest n (j + 1))
orders-dealt (pos (suc (suc (suc zero))) ∷ rest) (suc n) j = refl
orders-dealt (pos (suc (suc (suc (suc m)))) ∷ rest) (suc n) j =
    off_menu (ltb (suc (suc (suc (suc m)))) (2 ^ 31)) (pos (suc (suc (suc (suc m)))))
      (pos 2147483647) (extracted rest) n j _ (above m) refl (orders-dealt rest (suc n) j)
orders-dealt (negsuc m ∷ rest) (suc n) j =
    off_menu (ltb m (2 ^ 31)) (negsuc m) (negsuc 2147483647) (extracted rest) n j _ refl refl
      (orders-dealt rest (suc n) j)

pub length-extracted : (input : List ℤ) → length (extracted input) ≤ length input
unfolding extracted
length-extracted [] = omega arith
length-extracted (x ∷ rest) = elim (Bool-cases (in_range x)) [
  | inl e ↦ rw (extracted, e) (omega (arith, length-extracted rest))
  | inr e ↦ rw (extracted, e) (omega arith)
]
