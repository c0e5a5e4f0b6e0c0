-- ===== src/CtrlProc/Invariant/Facts.antt =====
-- Small facts for the steps of the parent (5.26/CtrlProc/proc.cc).
use native.Mathlib.Nat.{mod-lt}
use my_linux.Base.{
  ℕ, zero, suc, ◌+◌, ◌≤◌, ◌<◌, ◌≡◌, inl, inr, refl, ap, ◌∙◌, true, false, some, none, List, [], ◌∷◌,
  ◌++◌, ltb, ◌==◌, length, get_elem?, arith, Bool-cases, ltb→ge,
}
use my_linux.Base.Int.{ℤ, pos, negsuc}
use my_linux.Multiplex.{FdSet, put, put_self, put_ne, eq_or_ne}
use my_linux.CtrlProc.{Child, Choice, task, choose, next_child}
use my_linux.CtrlProc.Invariant.{Small, IsFed, Exited, end_point, all_ends}

pub ends_at : (k : ℕ) → k < 5 → get_elem? all_ends k ≡ some (end_point k)
ends_at zero l = refl
ends_at (suc zero) l = refl
ends_at (suc (suc zero)) l = refl
ends_at (suc (suc (suc zero))) l = refl
ends_at (suc (suc (suc (suc zero)))) l = refl
ends_at (suc (suc (suc (suc (suc k))))) l = absurd (omega (arith, l))

pub ends_over : (k : ℕ) → 5 ≤ k → get_elem? all_ends k ≡ none
ends_over (suc (suc (suc (suc (suc k))))) l = refl
ends_over _ l = absurd (omega (arith, l))

pub child_at : (cs : List Child) (k : ℕ) → k < length cs → (c : Child) × (get_elem? cs k ≡ some c)
child_at [] k l = elim l [ ]
child_at (c ∷ cs) zero l = (c, refl)
child_at (c ∷ cs) (suc k) l = child_at cs k (omega (arith, l))

pub Small-append : (xs : List ℕ) (x : ℕ) → Small xs → x < 3 → Small (xs ++ (x ∷ []))
Small-append [] x s l = (l, tt)
Small-append (y ∷ xs) x s l = (s.0, Small-append xs x s.1 l)

pub next_lt : (procs : ℕ) → next_child procs < 5
next_lt procs = mod-lt (procs + 1) {m = 5} (omega arith)

-- The menu lets three tasks through.
abbrev pub IsSmall : Choice → Type 0
IsSmall (task t) = t < 3
IsSmall _ = Unit {0}

pub choose-IsSmall : (x : ℤ) → IsSmall (choose x)
unfolding choose
choose-IsSmall (negsuc n) = tt
choose-IsSmall (pos n) = elim (Bool-cases (ltb 3 n)) [
  | inl b ↦ rw (choose, b) tt
  | inr b ↦ elim (Bool-cases (n == 3)) [
    | inl c ↦ rw (choose, b, c) tt
    | inr c ↦ rw (choose, b, c) (ground (arith, ltb→ge 3 n b))
  ]
]

-- What the parent has closed stays closed.
still_closed : (held : FdSet) (i k : ℕ) → held k ≡ false → put held i false k ≡ false
still_closed held i k r = elim (eq_or_ne k i) [
  | inl q ↦ ap (put held i false) q ∙ put_self held i false
  | inr z ↦ put_ne held i k false z ∙ r
]

pub closed-IsFed :
    (held : FdSet) (sent : List (ℕ × ℕ)) (i k : ℕ) (c : Child)
    → IsFed held sent k c
    → IsFed (put held i false) sent k c
closed-IsFed held sent i k c f = record {
  mute = f.mute;
  fed = f.fed;
  counted = f.counted;
  small = f.small;
  over = λ z.
      let (q, o) = f.over z in
      (q, elim o [ inl r ↦ inl (still_closed held i k r) | inr r ↦ inr r ]);
}

pub Exited-suc :
    (cs : List Child) (i : ℕ) (c : Child)
    → get_elem? cs i ≡ some c
    → c.exited ≡ true
    → Exited cs i
    → Exited cs (i + 1)
Exited-suc cs i c g a done j l = elim (eq_or_ne j i) [
  | inl q ↦ (c, ap (get_elem? cs) q ∙ g, a)
  | inr z ↦ done j (ground (arith, l, z))
]
