-- ===== src/CtrlProc/Invariant/Parents.antt =====
-- The steps of the parent (5.26/CtrlProc/proc.cc) keep the invariant.
use my_linux.Base.{
  ℕ, zero, suc, ◌+◌, ◌<◌, ◌≡◌, inl, inr, refl, ap, sym, ◌∙◌, false, some, List, [], ◌∷◌, ◌++◌, ltb,
  if◌then◌else◌, length, get_elem?, arith, Bool-cases, append_assoc, append-nil, ltb→lt, ltb→ge,
}
use my_linux.Base.Int.{ℤ}
use my_linux.Multiplex.{put_self}
use my_linux.CtrlProc.{
  Child, EndPoint, Parent, controls, closes, waits_for, finished, Processes, blocked, went, Choice,
  again, leave, task, choose, write_task, ctrl_process, next_child, wait_process, parent_step,
}
use my_linux.CtrlProc.Orders.{orders, orders_none}
use my_linux.CtrlProc.Invariant.{IsFamily, Spends, waits, spends}
use my_linux.CtrlProc.Invariant.Facts.{
  ends_at, ends_over, child_at, next_lt, IsSmall, choose-IsSmall, closed-IsFed, Exited-suc,
}
use my_linux.CtrlProc.Invariant.Sending.{place_at, cost_at, moves-Spends, write_task-Spends}

module _ (asked : List (ℕ × ℕ)) (p : Processes) (h : IsFamily asked p) where
  ctrl_process-Spends :
      (input : List ℤ) (cnt procs : ℕ)
      → p.parent ≡ controls input cnt procs
      → Spends asked p (ctrl_process p input cnt procs)
  unfolding ctrl_process
  ctrl_process-Spends input cnt procs e =
      let (all_held, len, (n, b, o)) = place_at asked p h (controls input cnt procs) e in
      elim (Bool-cases (ltb cnt 10)) [
        | inl l ↦ rw (ctrl_process, l) (turn input n (ltb→lt cnt 10 l) e len b o)
        | inr l ↦
            rw (ctrl_process, l)
              (moves-Spends asked p h (controls input cnt procs) (closes 0) e
                (
                  all_sent n (omega (arith, b, ltb→ge cnt 10 l)) o,
                  omega (arith, len, b),
                  omega arith,
                  λ j m. elim m [ ],
                )
                (omega arith))
      ]
    where
      all_sent : (n : ℕ) → n ≡ 0 → p.sent ++ orders input n procs ≡ asked → p.sent ≡ asked
      all_sent n z o =
          sym (append-nil p.sent)
          ∙ ap (λ (l : List (ℕ × ℕ)). p.sent ++ l) (sym (orders_none input procs))
          ∙ ap (λ (m : ℕ). p.sent ++ orders input m procs) (sym z)
          ∙ o

      typed :
          (x : ℤ) (rest : List ℤ) (n : ℕ) (ch : Choice)
          → IsSmall ch
          → cnt < 10
          → p.parent ≡ controls (x ∷ rest) cnt procs
          → length p.sent ≡ cnt
          → cnt + suc n ≡ 10
          → p.sent ++ (elim ch as (λ _. List (ℕ × ℕ)) [
            | again ↦ orders rest (suc n) procs
            | leave ↦ []
            | task t ↦ (next_child procs, t) ∷ orders rest n (next_child procs)
          ])
            ≡ asked
          → Spends asked p (elim ch [
            | again ↦ went (record p { parent = controls rest cnt procs })
            | leave ↦ went (record p { parent = closes 0 })
            | task t ↦ write_task p rest cnt (next_child procs) t
          ])
      typed x rest n again m l e len b o =
          moves-Spends asked p h (controls (x ∷ rest) cnt procs) (controls rest cnt procs) e
            ((place_at asked p h (controls (x ∷ rest) cnt procs) e).0, len, (suc n, b, o))
            (omega arith)
      typed x rest n leave m l e len b o =
          moves-Spends asked p h (controls (x ∷ rest) cnt procs) (closes 0) e
            (sym (append-nil p.sent) ∙ o, omega (arith, len, b), omega arith, λ j q. elim q [ ])
            (omega arith)
      typed x rest n (task t) m l e len b o =
          write_task-Spends asked p h (x ∷ rest) rest cnt procs (next_child procs) t n e l
            (next_lt procs) m (omega arith) (omega (arith, b))
            (append_assoc p.sent ((next_child procs, t) ∷ []) (orders rest n (next_child procs))
              ∙ o)

      turn :
          (xs : List ℤ) (n : ℕ)
          → cnt < 10
          → p.parent ≡ controls xs cnt procs
          → length p.sent ≡ cnt
          → cnt + n ≡ 10
          → p.sent ++ orders xs n procs ≡ asked
          → Spends asked p (elim xs [
            | [] ↦ write_task p [] cnt (next_child procs) 0
            | x ∷ rest ↦ elim (choose x) [
              | again ↦ went (record p { parent = controls rest cnt procs })
              | leave ↦ went (record p { parent = closes 0 })
              | task n ↦ write_task p rest cnt (next_child procs) n
            ]
          ])
      turn xs zero l e len b o = absurd (omega (arith, l, b))
      turn [] (suc n) l e len b o =
          write_task-Spends asked p h [] [] cnt procs (next_child procs) 0 n e l (next_lt procs)
            (omega arith) (omega arith) (omega (arith, b))
            (append_assoc p.sent ((next_child procs, 0) ∷ []) (orders [] n (next_child procs)) ∙ o)
      turn (x ∷ rest) (suc n) l e len b o = typed x rest n (choose x) (choose-IsSmall x) l e len b o

  wait_process-Spends : (place : Parent) → p.parent ≡ place → Spends asked p (wait_process p place)
  unfolding wait_process
  wait_process-Spends (controls input cnt procs) e = waits
  wait_process-Spends finished e = waits
  wait_process-Spends (closes i) e =
      let (q, len, le, done) = place_at asked p h (closes i) e in
      elim (Bool-cases (ltb i 5)) [
        | inl b ↦
            rw
              (
                wait_process,
                ap (λ (es : List EndPoint). get_elem? es i) h.ends ∙ ends_at i (ltb→lt i 5 b),
              )
              (spends _
                (record {
                  ends = h.ends;
                  family = h.family;
                  each = λ k c g. closed-IsFed p.held p.sent i k c (h.each k c g);
                  place = (q, len, ltb→lt i 5 b, done, put_self p.held i false);
                })
                (omega (arith, cost_at asked p h (closes i) e, ltb→lt i 5 b)))
        | inr b ↦
            rw
              (
                wait_process,
                ap (λ (es : List EndPoint). get_elem? es i) h.ends ∙ ends_over i (ltb→ge i 5 b),
              )
              (moves-Spends asked p h (closes i) finished e
                (q, len, λ j l. done j (omega (arith, l, ltb→ge i 5 b))) (omega arith))
      ]
  wait_process-Spends (waits_for i) e =
      let (q, len, l, done, f) = place_at asked p h (waits_for i) e in
      let (c, g) = child_at p.children i (omega (arith, l, h.family)) in
      rw (wait_process, ap (λ (es : List EndPoint). get_elem? es i) h.ends ∙ ends_at i l, g)
        (after c g)
    where
      after :
          (c : Child)
          → get_elem? p.children i ≡ some c
          → Spends asked p
              (if c.exited then went (record p { parent = closes (i + 1) }) else blocked)
      after c g =
          let (q, len, l, done, f) = place_at asked p h (waits_for i) e in
          elim (Bool-cases c.exited) [
            | inl a ↦ rw a (
                moves-Spends asked p h (waits_for i) (closes (i + 1)) e
                  (q, len, omega (arith, l), Exited-suc p.children i c g a done) (omega (arith, l)))
            | inr a ↦ rw a waits
          ]

  pub parent_step-Spends : Spends asked p (parent_step p p.parent)
  parent_step-Spends = go p.parent refl
    where
      go : (place : Parent) → p.parent ≡ place → Spends asked p (parent_step p place)
      go (controls input cnt procs) e = ctrl_process-Spends input cnt procs e
      go finished e = wait_process-Spends finished e
      go (closes i) e = wait_process-Spends (closes i) e
      go (waits_for i) e = wait_process-Spends (waits_for i) e
