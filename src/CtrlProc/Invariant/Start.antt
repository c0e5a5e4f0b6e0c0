-- ===== src/CtrlProc/Invariant/Start.antt =====
-- What `CreatProcesses` (5.26/CtrlProc/proc.cc) makes: children that hold no write end.
use mathlib.Core.Bool.{true≢false}
use mathlib.Core.Option.{some-injective, none-ne-some}
use my_linux.Base.{
  ℕ, zero, suc, ◌<◌, ◌≡◌, ◌≢◌, ◌⊎◌, inl, inr, refl, ap, sym, ◌∙◌, subst, Bool, true, false, some,
  List, [], ◌∷◌, ◌++◌, get_elem?, arith, Bool-cases,
}
use my_linux.Base.Int.{ℤ}
use my_linux.Multiplex.{FdSet, put, put_self, put_ne, eq_or_ne}
use my_linux.CtrlProc.{
  extracted, Child, controls, Processes, close_all, fork_child, creat_processes, start_processes,
}
use my_linux.CtrlProc.Orders.{orders}
use my_linux.CtrlProc.Invariant.{IsFed, all_ends, IsFamily}

abbrev In : ℕ → List ℕ → Type 0
In j [] = ⊥
In j (x ∷ xs) = (j ≡ x) ⊎ In j xs

-- Every write end that the parent holds is one of those that the next child will close.
abbrev Covers : FdSet → List ℕ → Type 0
Covers held fds = (j : ℕ) → held j ≡ true → In j fds

close_all-false : (w : FdSet) (fds : List ℕ) (j : ℕ) → w j ≡ false → close_all w fds j ≡ false
unfolding close_all
close_all-false w [] j e = e
close_all-false w (x ∷ fds) j e = close_all-false (put w x false) fds j (elim (eq_or_ne j x) [
  | inl q ↦ ap (put w x false) q ∙ put_self w x false
  | inr z ↦ put_ne w x j false z ∙ e
])

close_all-In : (w : FdSet) (fds : List ℕ) (j : ℕ) → In j fds → close_all w fds j ≡ false
unfolding close_all
close_all-In w [] j i = elim i [ ]
close_all-In w (x ∷ fds) j (inl q) =
    close_all-false (put w x false) fds j (ap (put w x false) q ∙ put_self w x false)
close_all-In w (x ∷ fds) j (inr i) = close_all-In (put w x false) fds j i

In-last : (fds : List ℕ) (i : ℕ) → In i (fds ++ (i ∷ []))
In-last [] i = inl refl
In-last (x ∷ fds) i = inr (In-last fds i)

In-append : (fds : List ℕ) (i j : ℕ) → In j fds → In j (fds ++ (i ∷ []))
In-append [] i j h = elim h [ ]
In-append (x ∷ fds) i j (inl q) = inl q
In-append (x ∷ fds) i j (inr h) = inr (In-append fds i j h)

Covers-put :
    (held : FdSet) (fds : List ℕ) (i : ℕ)
    → Covers held fds
    → Covers (put held i true) (fds ++ (i ∷ []))
Covers-put held fds i c j e = elim (eq_or_ne j i) [
  | inl q ↦ subst (λ (k : ℕ). In k (fds ++ (i ∷ []))) (sym q) (In-last fds i)
  | inr z ↦ In-append fds i j (c j (sym (put_ne held i j true z) ∙ e))
]

-- A child that is made this way holds no write end and has nothing to do yet.
fork_child-IsFed :
    (held h : FdSet) (fds : List ℕ) (i k : ℕ)
    → Covers held fds
    → IsFed h [] k (fork_child held i fds)
unfolding fork_child
fork_child-IsFed held h fds i k c = record {
  mute = λ j. elim (eq_or_ne j i) [
    | inl q ↦
        ap (put (close_all (put held i true) fds) i false) q
        ∙ put_self (close_all (put held i true) fds) i false
    | inr z ↦ put_ne (close_all (put held i true) fds) i j false z ∙ others j z
  ];
  fed = refl;
  counted = refl;
  small = tt;
  over = λ e. absurd (true≢false (sym e));
}
  where
    others : (j : ℕ) → j ≢ i → close_all (put held i true) fds j ≡ false
    others j z = elim (Bool-cases (held j)) [
      | inl e ↦ close_all-In (put held i true) fds j (c j e)
      | inr e ↦ close_all-false (put held i true) fds j (put_ne held i j true z ∙ e)
    ]

-- The write ends after the first children.
abbrev held_after : ℕ → FdSet
held_after zero = λ f. false
held_after (suc i) = put (held_after i) i true

abbrev fds_after : ℕ → List ℕ
fds_after zero = []
fds_after (suc i) = fds_after i ++ (i ∷ [])

Covers-after : (i : ℕ) → Covers (held_after i) (fds_after i)
Covers-after zero = λ j e. absurd (true≢false (sym e))
Covers-after (suc i) = Covers-put (held_after i) (fds_after i) i (Covers-after i)

abbrev nth_child : ℕ → Child
nth_child i = fork_child (held_after i) i (fds_after i)

abbrev pub started : List ℤ → Processes
started input = record {
  parent = controls input 0 0;
  held = held_after 5;
  end_points = all_ends;
  children = nth_child 0 ∷ nth_child 1 ∷ nth_child 2 ∷ nth_child 3 ∷ nth_child 4 ∷ [];
  sent = [];
}

pub start_processes_lem :
    (pipes : ℕ → Bool) (input : List ℤ)
    → ((i : ℕ) → i < 5 → pipes i ≡ true)
    → start_processes pipes input ≡ started (extracted input)
unfolding start_processes creat_processes
start_processes_lem pipes input ok =
    rw
      (
        start_processes,
        ok 0 (omega arith),
        ok 1 (omega arith),
        ok 2 (omega arith),
        ok 3 (omega arith),
        ok 4 (omega arith),
      )
      refl

pub started-IsFamily : (input : List ℤ) → IsFamily (orders input 10 0) (started input)
started-IsFamily input = record {
  ends = refl;
  family = refl;
  each = each;
  place = (held, refl, (10, refl, refl));
}
  where
    held : (k : ℕ) → k < 5 → held_after 5 k ≡ true
    held zero l = refl
    held (suc zero) l = refl
    held (suc (suc zero)) l = refl
    held (suc (suc (suc zero))) l = refl
    held (suc (suc (suc (suc zero)))) l = refl
    held (suc (suc (suc (suc (suc k))))) l = absurd (omega (arith, l))

    nth : (i k : ℕ) (c : Child) → some (nth_child i) ≡ some c → IsFed (held_after 5) [] k c
    nth i k c e =
        subst (IsFed (held_after 5) [] k) (some-injective (nth_child i) c e)
          (fork_child-IsFed (held_after i) (held_after 5) (fds_after i) i k (Covers-after i))

    each :
        (k : ℕ) (c : Child)
        → get_elem? (nth_child 0 ∷ nth_child 1 ∷ nth_child 2 ∷ nth_child 3 ∷ nth_child 4 ∷ []) k
          ≡ some c
        → IsFed (held_after 5) [] k c
    each zero c e = nth 0 0 c e
    each (suc zero) c e = nth 1 1 c e
    each (suc (suc zero)) c e = nth 2 2 c e
    each (suc (suc (suc zero))) c e = nth 3 3 c e
    each (suc (suc (suc (suc zero)))) c e = nth 4 4 c e
    each (suc (suc (suc (suc (suc k))))) c e = absurd (none-ne-some c e)
