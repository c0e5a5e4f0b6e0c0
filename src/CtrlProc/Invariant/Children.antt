-- ===== src/CtrlProc/Invariant/Children.antt =====
-- The steps of the children (5.26/CtrlProc/proc.cc) keep the invariant.
use mathlib.Core.Bool.{true≢false}
use mathlib.Core.Option.{some-injective}
use my_linux.Base.{
  ℕ, ◌+◌, ◌≤◌, ◌<◌, ◌≡◌, ◌⊎◌, inl, inr, refl, ap, sym, ◌∙◌, subst, Bool, true, false, ◌||◌, some,
  List, [], ◌∷◌, ◌++◌, ltb, length, set, get_elem?, arith, Bool-cases, List-cases, append_assoc,
  length-append, length-set, get_elem?-set_ne, set_cases, lt→ltb, ltb→ge,
}
use my_linux.Base.Totals.{total-set}
use my_linux.Multiplex.{FdSet, eq_or_ne}
use my_linux.CtrlProc.{
  Child, Parent, controls, closes, waits_for, finished, Processes, went, any_writes, execute,
  exit_child, take_cmd, set_child, wait_cmd,
}
use my_linux.CtrlProc.Orders.{length-commands}
use my_linux.CtrlProc.Invariant.{
  Small, IsFed, Exited, AtPlace, IsFamily, still, child_cost, Spends, waits, spends,
}

module _ (cs : List Child) (k : ℕ) (c d : Child) (e : get_elem? cs k ≡ some c)
    (a : c.exited ≡ false) where
  -- A child that changes was not among those that have exited.
  Exited-set : (i : ℕ) → Exited cs i → Exited (set cs k d) i
  Exited-set i h j l = elim (eq_or_ne k j) [
    | inl q ↦
        let (b, f, g) = h j l in
        absurd (
          true≢false (
            sym g
            ∙ ap (λ x. x.exited) (some-injective b c (sym f ∙ ap (get_elem? cs) (sym q) ∙ e))
            ∙ a))
    | inr n ↦ let (b, f, g) = h j l in (b, get_elem?-set_ne cs d n ∙ f, g)
  ]

  AtPlace-set :
      (asked : List (ℕ × ℕ)) (held : FdSet) (sent : List (ℕ × ℕ)) (place : Parent)
      → AtPlace asked held sent cs place
      → AtPlace asked held sent (set cs k d) place
  AtPlace-set asked held sent (controls input cnt procs) h = h
  AtPlace-set asked held sent (closes i) (s, m, l, h) = (s, m, l, Exited-set i h)
  AtPlace-set asked held sent (waits_for i) (s, m, l, h, f) = (s, m, l, Exited-set i h, f)
  AtPlace-set asked held sent finished (s, m, h) = (s, m, Exited-set 5 h)

-- At most ten tasks are sent.
AtPlace-length :
    (asked : List (ℕ × ℕ)) (held : FdSet) (sent : List (ℕ × ℕ)) (cs : List Child) (place : Parent)
    → AtPlace asked held sent cs place
    → length sent ≤ 10
AtPlace-length asked held sent cs (controls input cnt procs) (f, l, (n, m, s)) = omega (arith, l, m)
AtPlace-length asked held sent cs (closes i) (s, m, l, h) = m
AtPlace-length asked held sent cs (waits_for i) (s, m, l, h, f) = m
AtPlace-length asked held sent cs finished (s, m, h) = m

execute_lem : (done : List ℕ) (x : ℕ) → x < 3 → execute done x ≡ done ++ (x ∷ [])
execute_lem done x l = rw (lt→ltb x 3 l) refl

module _ (asked : List (ℕ × ℕ)) (p : Processes) (h : IsFamily asked p) (k : ℕ) (c : Child)
    (e : get_elem? p.children k ≡ some c) where
  child-Spends :
      (d : Child)
      → c.exited ≡ false
      → IsFed p.held p.sent k d
      → child_cost d < child_cost c
      → Spends asked p (went (record p { children = set p.children k d }))
  child-Spends d a f l =
      spends _
        (record {
          ends = h.ends;
          family = length-set p.children k d ∙ h.family;
          each = λ j b g. elim (set_cases p.children k j d b g) [
            | inl (q, r) ↦
                subst (λ (i : ℕ). IsFed p.held p.sent i b) q
                  (subst (IsFed p.held p.sent k) (sym r) f)
            | inr q ↦ h.each j b q.1
          ];
          place = AtPlace-set p.children k c d e a asked p.held p.sent p.parent h.place;
        })
        (omega (arith, l, total-set child_cost p.children k c d e))

  f : IsFed p.held p.sent k c
  f = h.each k c e

  within : c.cnt + length c.inbox ≤ 10
  within = omega (
    arith,
    f.counted,
    ap length f.fed,
    length-append c.executed c.inbox,
    length-commands k p.sent,
    AtPlace-length asked p.held p.sent p.children p.parent h.place,
  )

  -- A task is taken from the pipe and executed.
  executes :
      (x : ℕ) (rest : List ℕ)
      → c.inbox ≡ x ∷ rest
      → c.exited ≡ false
      → Spends asked p (went (set_child p k (take_cmd c x rest)))
  unfolding take_cmd
  executes x rest q a =
      child-Spends (take_cmd c x rest) a
        (record {
          mute = f.mute;
          fed =
              ap (λ (l : List ℕ). l ++ rest) (execute_lem c.executed x s.0)
              ∙ append_assoc c.executed (x ∷ []) rest
              ∙ ap (λ (l : List ℕ). c.executed ++ l) (sym q)
              ∙ f.fed;
          counted = omega (
            arith,
            f.counted,
            ap length (execute_lem c.executed x s.0),
            length-append c.executed (x ∷ []),
          );
          small = s.1;
          over = λ z. absurd (true≢false (sym z ∙ a));
        })
        (omega (arith, ap length q))
    where
      s : Small (x ∷ rest)
      s = subst Small q f.small

  -- The child exits, when its pipe is empty and closed, or after its last turn.
  leaves :
      c.exited ≡ false
      → c.inbox ≡ []
      → (p.held k ≡ false) ⊎ (10 ≤ c.cnt)
      → Spends asked p (went (set_child p k (exit_child c)))
  unfolding exit_child
  leaves a q o =
      child-Spends (exit_child c) a
        (record {
          mute = f.mute;
          fed = f.fed;
          counted = f.counted;
          small = f.small;
          over = λ _. (q, o);
        })
        (omega (arith, ap still a))

  pub wait_cmd-Spends : Spends asked p (wait_cmd p k c)
  unfolding wait_cmd
  wait_cmd-Spends = elim (Bool-cases c.exited) [
    | inl a ↦ rw (wait_cmd, a) waits
    | inr a ↦ elim (Bool-cases (ltb c.cnt 10)) [
      | inl l ↦ elim (List-cases c.inbox) [
        | inl q ↦ elim (Bool-cases (p.held k || any_writes p.children k)) [
          | inl w ↦ rw (wait_cmd, a, l, q, w) waits
          | inr w ↦
              rw (wait_cmd, a, l, q, w)
                (leaves a q (inl (closed (p.held k) (any_writes p.children k) w)))
        ]
        | inr (x, rest, q) ↦ rw (wait_cmd, a, l, q) (executes x rest q a)
      ]
      | inr l ↦
          let m = ltb→ge c.cnt 10 l in
          rw (wait_cmd, a, l) (leaves a (none c.inbox (omega (arith, m, within))) (inr m))
    ]
  ]
    where
      none : (xs : List ℕ) → length xs ≡ 0 → xs ≡ []
      none [] z = refl
      none (x ∷ xs) z = absurd (omega (arith, z))

      closed : (a b : Bool) → (a || b) ≡ false → a ≡ false
      closed true b z = absurd (true≢false z)
      closed false b z = refl
