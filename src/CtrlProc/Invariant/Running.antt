-- ===== src/CtrlProc/Invariant/Running.antt =====
-- The steps of the parent that are never blocked (5.26/CtrlProc/proc.cc).
use my_linux.Base.{
  ℕ, suc, ◌≡◌, inl, inr, refl, Bool, true, false, ◌||◌, ◌&&◌, some, List, [], ◌∷◌, ltb, get_elem?,
  Bool-cases, Option-cases,
}
use my_linux.Base.Int.{ℤ}
use my_linux.CtrlProc.{
  Child, controls, closes, Processes, ProcOutcome, blocked, went, any_writes, write_task,
  ctrl_process, wait_process, next_child, choose, again, leave, task, Choice,
}

abbrev pub is_blocked : ProcOutcome → Bool
is_blocked blocked = true
is_blocked _ = false

pub any_writes-none :
    (cs : List Child) (k : ℕ)
    → ((i : ℕ) (c : Child) → get_elem? cs i ≡ some c → c.writes k ≡ false)
    → any_writes cs k ≡ false
unfolding any_writes
any_writes-none [] k f = refl
any_writes-none (c ∷ cs) k f =
    either _ (c.writes k) (any_writes cs k) (f 0 c refl)
      (any_writes-none cs k (λ i d e. f (suc i) d e))
  where
    either : (b w r : Bool) → w ≡ false → r ≡ false → ((b && w) || r) ≡ false
    either true w r e f = rw (e, f) refl
    either false w r e f = f

write_task_runs :
    (p : Processes) (rest : List ℤ) (cnt next t : ℕ)
    → is_blocked (write_task p rest cnt next t) ≡ false
unfolding write_task
write_task_runs p rest cnt next t = elim (Option-cases (get_elem? p.end_points next)) [
  | inl e ↦ rw (write_task, e) refl
  | inr (ep, e) ↦ elim (Option-cases (get_elem? p.children ep.write_id)) [
    | inl g ↦ rw (write_task, e, g) refl
    | inr (c, g) ↦ elim (Bool-cases c.exited) [
      | inl a ↦ rw (write_task, e, g, a) refl
      | inr a ↦ rw (write_task, e, g, a) refl
    ]
  ]
]

pub ctrl_process_runs :
    (p : Processes) (input : List ℤ) (cnt procs : ℕ)
    → is_blocked (ctrl_process p input cnt procs) ≡ false
unfolding ctrl_process
ctrl_process_runs p input cnt procs = elim (Bool-cases (ltb cnt 10)) [
  | inr l ↦ rw (ctrl_process, l) refl
  | inl l ↦ rw (ctrl_process, l) (turn input)
]
  where
    typed :
        (rest : List ℤ) (ch : Choice)
        → is_blocked (elim ch [
          | again ↦ went (record p { parent = controls rest cnt procs })
          | leave ↦ went (record p { parent = closes 0 })
          | task t ↦ write_task p rest cnt (next_child procs) t
        ])
          ≡ false
    typed rest again = refl
    typed rest leave = refl
    typed rest (task t) = write_task_runs p rest cnt (next_child procs) t

    turn :
        (xs : List ℤ)
        → is_blocked (elim xs [
          | [] ↦ write_task p [] cnt (next_child procs) 0
          | x ∷ rest ↦ elim (choose x) [
            | again ↦ went (record p { parent = controls rest cnt procs })
            | leave ↦ went (record p { parent = closes 0 })
            | task t ↦ write_task p rest cnt (next_child procs) t
          ]
        ])
          ≡ false
    turn [] = write_task_runs p [] cnt (next_child procs) 0
    turn (x ∷ rest) = typed rest (choose x)

pub closes_runs : (p : Processes) (i : ℕ) → is_blocked (wait_process p (closes i)) ≡ false
unfolding wait_process
closes_runs p i = elim (Option-cases (get_elem? p.end_points i)) [
  | inl e ↦ rw (wait_process, e) refl
  | inr (ep, e) ↦ rw (wait_process, e) refl
]
