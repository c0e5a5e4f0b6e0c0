-- ===== src/CtrlProc/Invariant/Sending.antt =====
-- A task that the parent writes to a pipe (5.26/CtrlProc/proc.cc), and its other moves.
use mathlib.Core.Bool.{true≢false}
use my_linux.Base.{
  ℕ, ◌+◌, ◌≤◌, ◌<◌, ◌≡◌, ◌≢◌, inl, inr, ap, sym, ◌∙◌, subst, Bool, false, some, List, [], ◌∷◌, ◌++◌,
  if◌then◌else◌, length, set, get_elem?, arith, Bool-cases, append_assoc, append-nil, length-append,
  length-set, set_cases,
}
use my_linux.Base.Int.{ℤ}
use my_linux.Base.Totals.{total-set}
use my_linux.Multiplex.{==_self, ==_ne}
use my_linux.CtrlProc.{
  Child, EndPoint, Parent, controls, Processes, broken_pipe, went, give_task, write_task,
}
use my_linux.CtrlProc.Orders.{orders, commands, commands-append, length-commands}
use my_linux.CtrlProc.Invariant.{IsFed, AtPlace, IsFamily, child_cost, parent_cost, Spends, spends}
use my_linux.CtrlProc.Invariant.Facts.{ends_at, child_at, Small-append}

module _ (asked : List (ℕ × ℕ)) (p : Processes) (h : IsFamily asked p) where
  pub place_at : (place : Parent) → p.parent ≡ place → AtPlace asked p.held p.sent p.children place
  place_at place e = subst (AtPlace asked p.held p.sent p.children) e h.place

  pub cost_at : (place : Parent) → p.parent ≡ place → parent_cost p.parent ≡ parent_cost place
  cost_at place e = ap parent_cost e

  -- The parent goes to another place, and nothing else changes.
  pub moves-Spends :
      (old new : Parent)
      → p.parent ≡ old
      → AtPlace asked p.held p.sent p.children new
      → parent_cost new < parent_cost old
      → Spends asked p (went (record p { parent = new }))
  moves-Spends old new e a l =
      spends _ (record { ends = h.ends; family = h.family; each = h.each; place = a })
        (omega (arith, l, cost_at old e))

  -- A task goes to the pipe of a child, which still reads.
  module _ (input rest : List ℤ) (cnt procs next tasknum n : ℕ)
      (e : p.parent ≡ controls input cnt procs) (l : cnt < 10) (m : next < 5) (t : tasknum < 3)
      (s : length rest ≤ length input) (b : (cnt + 1) + n ≡ 10)
      (o : (p.sent ++ ((next, tasknum) ∷ [])) ++ orders rest n next ≡ asked) where
    at_controls : AtPlace asked p.held p.sent p.children (controls input cnt procs)
    at_controls = place_at (controls input cnt procs) e

    alive : (c : Child) → get_elem? p.children next ≡ some c → c.exited ≡ false
    alive c g = elim (Bool-cases c.exited) [
      | inr a ↦ a
      | inl a ↦ elim ((h.each next c g).over a).1 [
        | inl q ↦ absurd (true≢false (sym (at_controls.0 next m) ∙ q))
        | inr q ↦ absurd (
            omega (
              arith,
              q,
              at_controls.1,
              (h.each next c g).counted,
              ap length (h.each next c g).fed,
              length-append c.executed c.inbox,
              length-commands next p.sent,
            ))
      ]
    ]

    abbrev new_sent : List (ℕ × ℕ)
    new_sent = p.sent ++ ((next, tasknum) ∷ [])

    mine : commands next new_sent ≡ commands next p.sent ++ (tasknum ∷ [])
    mine =
        commands-append next next tasknum p.sent
        ∙ ap (λ (b : Bool). commands next p.sent ++ (if b then tasknum ∷ [] else [])) (==_self next)

    others : (k : ℕ) → next ≢ k → commands k new_sent ≡ commands k p.sent
    others k z =
        commands-append k next tasknum p.sent
        ∙ ap (λ (b : Bool). commands k p.sent ++ (if b then tasknum ∷ [] else [])) (==_ne next k z)
        ∙ append-nil (commands k p.sent)

    given :
        (c : Child)
        → get_elem? p.children next ≡ some c
        → c.exited ≡ false
        → Spends asked p (
            went (record p {
              parent = controls rest (cnt + 1) next;
              children = set p.children next (give_task c tasknum);
              sent = new_sent;
            }))
    unfolding give_task
    given c g a =
        let d = give_task c tasknum in
        let f = h.each next c g in
        spends _
          (record {
            ends = h.ends;
            family = length-set p.children next d ∙ h.family;
            each = λ k x y. elim (set_cases p.children next k d x y) [
              | inl (q, r) ↦
                  subst (λ (j : ℕ). IsFed p.held new_sent j x) q
                    (subst (IsFed p.held new_sent next) (sym r) (record {
                      mute = f.mute;
                      fed =
                          sym (append_assoc c.executed c.inbox (tasknum ∷ []))
                          ∙ ap (λ (xs : List ℕ). xs ++ (tasknum ∷ [])) f.fed
                          ∙ sym mine;
                      counted = f.counted;
                      small = Small-append c.inbox tasknum f.small t;
                      over = λ z. absurd (true≢false (sym z ∙ a));
                    }))
              | inr (z, y) ↦
                  let u = h.each k x y in
                  record {
                    mute = u.mute;
                    fed = u.fed ∙ sym (others k z);
                    counted = u.counted;
                    small = u.small;
                    over = u.over;
                  }
            ];
            place = (
              at_controls.0,
              omega (arith, at_controls.1, length-append p.sent ((next, tasknum) ∷ [])),
              (n, b, o),
            );
          })
          (omega (
            arith,
            cost_at (controls input cnt procs) e,
            s,
            l,
            length-append c.inbox (tasknum ∷ []),
            total-set child_cost p.children next c d g,
          ))

    pub write_task-Spends : Spends asked p (write_task p rest cnt next tasknum)
    unfolding write_task
    write_task-Spends =
        let (c, g) = child_at p.children next (omega (arith, m, h.family)) in writes c g (alive c g)
      where
        writes :
            (c : Child)
            → get_elem? p.children next ≡ some c
            → c.exited ≡ false
            → Spends asked p (write_task p rest cnt next tasknum)
        writes c g a =
            rw
              (
                write_task,
                ap (λ (es : List EndPoint). get_elem? es next) h.ends ∙ ends_at next m,
                g,
              )
              (subst
                (λ (b : Bool). Spends asked p (
                  if b
                  then broken_pipe
                  else went (record p {
                    parent = controls rest (cnt + 1) next;
                    children = set p.children next (give_task c tasknum);
                    sent = new_sent;
                  })))
                (sym a) (given c g a))
