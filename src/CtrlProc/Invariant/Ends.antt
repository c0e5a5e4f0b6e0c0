-- ===== src/CtrlProc/Invariant/Ends.antt =====
-- The program of 5.26/CtrlProc/proc.cc ends, with every task executed by the child that it was sent to.
use mathlib.Core.Bool.{true≢false}
use my_linux.Base.{
  ℕ, suc, ◌+◌, ◌≤◌, ◌<◌, ◌≡◌, ◌⊎◌, inl, inr, refl, ap, sym, ◌∙◌, subst, Bool, true, false, some,
  List, ◌++◌, ltb, length, get_elem?, arith, Bool-cases, List-cases, Option-cases, append-nil,
}
use my_linux.Base.Int.{ℤ}
use my_linux.CtrlProc.{
  extracted, Child, EndPoint, Parent, controls, closes, waits_for, finished, Processes, ProcOutcome,
  blocked, out_of_range, broken_pipe, went, fork_child, start_processes, Actor, the_parent, child,
  any_writes, wait_cmd, parent_step, proc_step, wait_process,
}
use my_linux.CtrlProc.Orders.{orders, commands, tasks, dealt, orders-dealt, length-extracted}
use my_linux.CtrlProc.Invariant.{Exited, AtPlace, IsFamily, proc_budget, Spends, waits, spends}
use my_linux.CtrlProc.Invariant.Children.{wait_cmd-Spends}
use my_linux.CtrlProc.Invariant.Parents.{parent_step-Spends}
use my_linux.CtrlProc.Invariant.Facts.{child_at, ends_at}
use my_linux.CtrlProc.Invariant.Start.{started, start_processes_lem, started-IsFamily}
use my_linux.CtrlProc.Invariant.Running.{
  is_blocked, any_writes-none, ctrl_process_runs, closes_runs,
}

-- Steps of the parent and the children, one after the other.
pub data Steps (r : Processes) : Processes → ℕ → Type 0 where
  at_end : Steps r r 0
  then_steps :
      (p q : Processes) (who : Actor) (k : ℕ)
      → proc_step p who ≡ went q
      → Steps r q k
      → Steps r p (suc k)

abbrev pub CanStep : Processes → Type 0
CanStep p = (who : Actor) × (q : Processes) × (proc_step p who ≡ went q)

-- Neither an access outside a vector nor a write that nobody reads.
abbrev pub IsRun : ProcOutcome → Type 0
IsRun out = (out ≡ blocked) ⊎ ((q : Processes) × (out ≡ went q))

-- The parent is at its end, and each child has exited, after the tasks that were asked of it.
abbrev pub IsServed : List (ℕ × ℕ) → Processes → Type 0
IsServed asked p =
    (p.parent ≡ finished)
    × ((k : ℕ)
        → k < 5
        → (c : Child) × (get_elem? p.children k ≡ some c)
          × (c.exited ≡ true)
          × (c.executed ≡ commands k asked))

module _ (asked : List (ℕ × ℕ)) (p : Processes) (h : IsFamily asked p) where
  proc_step-Spends : (who : Actor) → Spends asked p (proc_step p who)
  unfolding proc_step
  proc_step-Spends the_parent = parent_step-Spends asked p h
  proc_step-Spends (child k) = elim (Option-cases (get_elem? p.children k)) [
    | inl e ↦ rw (proc_step, e) waits
    | inr (c, e) ↦ rw (proc_step, e) (wait_cmd-Spends asked p h k c e)
  ]

  -- A child whose pipe is closed is never blocked.
  wait_cmd_runs :
      (k : ℕ) (c : Child)
      → p.held k ≡ false
      → c.exited ≡ false
      → is_blocked (wait_cmd p k c) ≡ false
  unfolding wait_cmd
  wait_cmd_runs k c w a = elim (Bool-cases (ltb c.cnt 10)) [
    | inr l ↦ rw (wait_cmd, a, l) refl
    | inl l ↦ elim (List-cases c.inbox) [
      | inl q ↦ rw (wait_cmd, a, l, q, w, nobody) refl
      | inr (x, rest, q) ↦ rw (wait_cmd, a, l, q) refl
    ]
  ]
    where
      nobody : any_writes p.children k ≡ false
      nobody = any_writes-none p.children k (λ i c e. (h.each i c e).mute k)

  child_runs :
      (k : ℕ) (c : Child)
      → get_elem? p.children k ≡ some c
      → p.held k ≡ false
      → c.exited ≡ false
      → is_blocked (proc_step p (child k)) ≡ false
  unfolding proc_step
  child_runs k c g w a = rw (proc_step, g) (wait_cmd_runs k c w a)

  -- `waitpid` returns when the child has exited.
  reaps :
      (i : ℕ)
      → i < 5
      → (c : Child) → get_elem? p.children i ≡ some c
      → c.exited ≡ true
      → is_blocked (wait_process p (waits_for i)) ≡ false
  unfolding wait_process
  reaps i l c g a =
      rw (wait_process, ap (λ (es : List EndPoint). get_elem? es i) h.ends ∙ ends_at i l, g, a) refl

  can : (who : Actor) → is_blocked (proc_step p who) ≡ false → CanStep p
  can who e = go (proc_step p who) (proc_step-Spends who) refl e
    where
      go :
          (out : ProcOutcome)
          → Spends asked p out
          → proc_step p who ≡ out
          → is_blocked out ≡ false
          → CanStep p
      go _ waits q e = absurd (true≢false e)
      go _ (spends t i l) q e = (who, t, q)

  served :
      (sent_all : p.sent ≡ asked)
      → length p.sent ≤ 10
      → Exited p.children 5
      → (k : ℕ) → k < 5
      → (c : Child) × (get_elem? p.children k ≡ some c)
        × (c.exited ≡ true)
        × (c.executed ≡ commands k asked)
  served s len x k l =
      let (c, g, a) = x k l in
      (
        c,
        g,
        a,
        sym (append-nil c.executed)
            ∙ ap (λ (r : List ℕ). c.executed ++ r) (sym ((h.each k c g).over a).0)
            ∙ (h.each k c g).fed
            ∙ ap (commands k) s,
      )

  at_place : (place : Parent) → p.parent ≡ place → CanStep p ⊎ IsServed asked p
  unfolding proc_step
  at_place (controls input cnt procs) e = inl (
      can the_parent
        (ap (λ (x : Parent). is_blocked (parent_step p x)) e ∙ ctrl_process_runs p input cnt procs))
  at_place (closes i) e =
      inl (can the_parent (ap (λ (x : Parent). is_blocked (parent_step p x)) e ∙ closes_runs p i))
  at_place (waits_for i) e =
      let (s, len, l, done, w) = subst (AtPlace asked p.held p.sent p.children) e h.place in
      let (c, g) = child_at p.children i (omega (arith, l, h.family)) in inl (waited i e l w c g)
    where
      waited :
          (i : ℕ)
          → p.parent ≡ waits_for i
          → i < 5
          → p.held i ≡ false
          → (c : Child) → get_elem? p.children i ≡ some c
          → CanStep p
      waited i e l w c g = elim (Bool-cases c.exited) [
        | inl a ↦
            can the_parent (ap (λ (x : Parent). is_blocked (parent_step p x)) e ∙ reaps i l c g a)
        | inr a ↦ can (child i) (child_runs i c g w a)
      ]
  at_place finished e =
      let (s, len, x) = subst (AtPlace asked p.held p.sent p.children) e h.place in
      inr (e, served s len x)

  can_or_IsServed : CanStep p ⊎ IsServed asked p
  can_or_IsServed = at_place p.parent refl

  runs_well : (who : Actor) → IsRun (proc_step p who)
  runs_well who = go (proc_step p who) (proc_step-Spends who)
    where
      go : (out : ProcOutcome) → Spends asked p out → IsRun out
      go _ waits = inl refl
      go _ (spends q i l) = inr (q, refl)

-- What one step did.
spent :
    (asked : List (ℕ × ℕ)) (p q : Processes) (out : ProcOutcome)
    → Spends asked p out
    → out ≡ went q
    → IsFamily asked q × (proc_budget q < proc_budget p)
spent asked p q _ waits e = absurd (true≢false (ap is_blocked e))
spent asked p q _ (spends r i l) e =
    subst (λ (t : Processes). IsFamily asked t × (proc_budget t < proc_budget p)) (same e) (i, l)
  where
    same : went r ≡ went q → r ≡ q
    same z =
        ap (λ out. elim out [ blocked ↦ r | out_of_range ↦ r | broken_pipe ↦ r | went t ↦ t ]) z

Steps_lem :
    (asked : List (ℕ × ℕ)) (r p : Processes) (k : ℕ)
    → IsFamily asked p
    → Steps r p k
    → (k ≤ proc_budget p)
      × ((who : Actor) → IsRun (proc_step r who))
      × (CanStep r ⊎ IsServed asked r)
Steps_lem asked _ p _ h at_end = (omega arith, runs_well asked p h, can_or_IsServed asked p h)
Steps_lem asked r p _ h (then_steps _ q who k e rest) =
    let (a, b) = spent asked p q _ (proc_step-Spends asked p h who) e in
    let (c, d, f) = Steps_lem asked r q k a rest in (omega (arith, b, c), d, f)

-- When `pipe` makes all five pipes, then whatever is typed, and however the parent and its children take
-- turns, no step goes outside a vector or writes to a pipe without a reader, at most 37 steps and one
-- for each number typed are run, and, until the parent is at its end, some step can be run; at the end every child has exited, and
-- has executed, in order, the tasks that the input asks of it: at most ten in all, the first for child 1 and
-- each further one for the next child in a circle of five. 0, 1 and 2 are tasks, 3 ends the input, other numbers are
-- passed over; from a number that is no `int` on, as at the end of the input, task 0 is asked for each time.
pub start_processes_ends :
    (pipes : ℕ → Bool) (input : List ℤ) (p : Processes) (k : ℕ)
    → ((i : ℕ) → i < 5 → pipes i ≡ true)
    → Steps p (start_processes pipes input) k
    → (k ≤ length input + 37)
      × ((who : Actor) → IsRun (proc_step p who))
      × (CanStep p ⊎ IsServed (dealt 0 (tasks input 10)) p)
unfolding fork_child
start_processes_ends pipes input p k ok steps =
    let (a, b, c) =
      Steps_lem (orders (extracted input) 10 0) p (started (extracted input)) k
        (started-IsFamily (extracted input))
        (subst (λ (q : Processes). Steps p q k) (start_processes_lem pipes input ok) steps) in
    (
      omega (arith, a, length-extracted input),
      b,
      subst (λ (asked : List (ℕ × ℕ)). CanStep p ⊎ IsServed asked p) (orders-dealt input 10 0) c,
    )
