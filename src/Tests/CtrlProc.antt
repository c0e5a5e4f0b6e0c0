-- ===== src/Tests/CtrlProc.antt =====
-- The process pool of 5.26/CtrlProc/proc.cc on a concrete input.
use my_linux.Base.{◌+◌, ◌≤◌, ◌≡◌, ◌⊎◌, refl, true, List, [], ◌∷◌, length}
use my_linux.Base.Int.{ℤ, pos}
use my_linux.CtrlProc.{
  Processes, Actor, the_parent, start_processes, proc_step, went, ctrl_process, choose, write_task,
}
use my_linux.CtrlProc.Orders.{tasks, dealt}
use my_linux.CtrlProc.Invariant.Ends.{
  at_end, then_steps, CanStep, IsRun, IsServed, start_processes_ends,
}

-- The second task, a number off the menu, and the end.
abbrev typed : List ℤ
typed = pos 1 ∷ pos 9 ∷ pos 3 ∷ []

dealt-typed : dealt 0 (tasks typed 10) ≡ (1, 1) ∷ []
dealt-typed = refl

abbrev begun : Processes
begun = start_processes (λ i. true) typed

sent_once : (q : Processes) × (proc_step begun the_parent ≡ went q)
unfolding proc_step start_processes ctrl_process choose write_task
sent_once = (_, refl)

start_processes_ends_example :
    (1 ≤ length typed + 37)
    × ((who : Actor) → IsRun (proc_step sent_once.0 who))
    × (CanStep sent_once.0 ⊎ IsServed (dealt 0 (tasks typed 10)) sent_once.0)
start_processes_ends_example =
    start_processes_ends (λ i. true) typed sent_once.0 1 (λ i l. refl)
      (then_steps begun sent_once.0 the_parent 0 sent_once.1 at_end)
