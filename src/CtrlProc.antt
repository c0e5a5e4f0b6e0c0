-- ===== src/CtrlProc.antt =====
-- 5.26/CtrlProc/proc.cc and Task.hpp: a parent that creates children, sends them tasks through pipes, and
-- waits for them. The parent and the children run one step at a time, in any order. `fork` succeeds.
pub mod Orders
pub mod Invariant
use my_linux.Base.{
  ℕ, zero, suc, ◌+◌, ◌-◌, ◌*◌, ◌%◌, Bool, true, false, ◌||◌, ◌&&◌, Option, none, some, List, [],
  ◌∷◌, ◌++◌, ltb, ◌==◌, if◌then◌else◌, get_elem?, set, length,
}
use my_linux.Base.Int.{ℤ, pos, negsuc}
use my_linux.Calc.{in_range}
use my_linux.Multiplex.{FdSet, put}

abbrev pub exe_num : ℕ
exe_num = 10

abbrev pub child_num : ℕ
child_num = 5

-- A child, with what is in the pipe that it reads, the pipes whose write ends it holds, `cnt` of `WaitCmd`,
-- and the tasks that it has executed.
pub record Child : Type 0 where
  pub inbox : List ℕ
  pub writes : FdSet
  pub cnt : ℕ
  pub executed : List ℕ
  pub exited : Bool

-- `class EndPoint`: a child and its pipe, by their positions.
pub record EndPoint : Type 0 where
  pub child_pid : ℕ
  pub write_id : ℕ

-- Where the parent stands: in `CtrlProcess`, with what is still to be read, `cnt` and `procs`, or in
-- `WaitProcess`, before `close` or `waitpid`, or at its end.
pub data Parent : Type 0 where
  controls : List ℤ → ℕ → ℕ → Parent
  closes waits_for : ℕ → Parent
  finished : Parent

-- The processes, with the write ends that the parent holds. The last field is for the proofs alone: the
-- tasks sent, each with its pipe.
pub record Processes : Type 0 where
  pub parent : Parent
  pub held : FdSet
  pub end_points : List EndPoint
  pub children : List Child
  pub sent : List (ℕ × ℕ)

-- `for (auto& fd : fds) close(fd);`
unfoldable pub close_all : FdSet → List ℕ → FdSet
close_all w [] = w
close_all w (fd ∷ fds) = close_all (put w fd false) fds

-- The i-th child: a copy of the parent's descriptors with the new pipe, less those that it closes.
unfoldable pub fork_child : FdSet → ℕ → List ℕ → Child
unfolding close_all
fork_child held i fds = record {
  inbox = [];
  writes = put (close_all (put held i true) fds) i false;
  cnt = 0;
  executed = [];
  exited = false;
}

-- The loop of `CreatProcesses` from `i` on, over what `pipe` returns.
unfoldable pub creat_processes : (ℕ → Bool) → ℕ → ℕ → List ℕ → Processes → Processes
unfolding fork_child
creat_processes pipes zero i fds p = p
creat_processes pipes (suc n) i fds p =
    let rest = creat_processes pipes n (i + 1) (fds ++ (i ∷ [])) (record p {
      held = put p.held i true;
      end_points = p.end_points ++ (record { child_pid = i; write_id = i } ∷ []);
      children = p.children ++ (fork_child p.held i fds ∷ []);
    }) in
    if pipes i then rest else p

-- What `cin >> tasknum` gives for the numbers typed: one that is no `int` gives the nearest, and fails, after which
-- nothing is read any more and `tasknum` stays 0, as at the end of the input.
unfoldable pub extracted : List ℤ → List ℤ
extracted [] = []
extracted (x ∷ rest) = let more = extracted rest in if in_range x then x ∷ more else nearest x ∷ []
  where
    nearest : ℤ → ℤ
    nearest (pos n) = pos 2147483647
    nearest (negsuc n) = negsuc 2147483647

-- The parent before `CtrlProcess`, with the numbers that will be typed.
unfoldable pub start_processes : (ℕ → Bool) → List ℤ → Processes
unfolding creat_processes extracted
start_processes pipes input = creat_processes pipes child_num 0 [] (record {
  parent = controls (extracted input) 0 0;
  held = λ f. false;
  end_points = [];
  children = [];
  sent = [];
})

-- A step that has to wait, an access outside a vector, a write to a pipe without a reader, and a step that
-- has run.
pub data ProcOutcome : Type 0 where
  blocked out_of_range broken_pipe : ProcOutcome
  went : Processes → ProcOutcome

-- What the number typed means.
pub data Choice : Type 0 where
  again leave : Choice
  task : ℕ → Choice

unfoldable pub choose : ℤ → Choice
choose (negsuc n) = again
choose (pos n) = if ltb 3 n then again else if n == 3 then leave else task n

-- A task stands at the end of the pipe of a child.
unfoldable pub give_task : Child → ℕ → Child
give_task c tasknum = record c { inbox = c.inbox ++ (tasknum ∷ []) }

-- `write(end_points[procs]._write_id, &tasknum, sizeof(tasknum)); ++cnt;`
unfoldable pub write_task : Processes → List ℤ → ℕ → ℕ → ℕ → ProcOutcome
write_task p input cnt procs tasknum = elim (get_elem? p.end_points procs) [
  | none ↦ out_of_range
  | some ep ↦ elim (get_elem? p.children ep.write_id) [
    | none ↦ out_of_range
    | some c ↦
        if c.exited
        then broken_pipe
        else went (record p {
          parent = controls input (cnt + 1) procs;
          children = set p.children ep.write_id (give_task c tasknum);
          sent = p.sent ++ ((ep.write_id, tasknum) ∷ []);
        })
  ]
]

abbrev pub next_child : ℕ → ℕ
next_child procs = (procs + 1) % child_num

-- One turn of `CtrlProcess`; at the end of the input `cin` gives 0.
unfoldable pub ctrl_process : Processes → List ℤ → ℕ → ℕ → ProcOutcome
unfolding choose write_task
ctrl_process p input cnt procs =
    if ltb cnt exe_num
    then elim input [
      | [] ↦ write_task p [] cnt (next_child procs) 0
      | x ∷ rest ↦ elim (choose x) [
        | again ↦ went (record p { parent = controls rest cnt procs })
        | leave ↦ went (record p { parent = closes 0 })
        | task n ↦ write_task p rest cnt (next_child procs) n
      ]
    ]
    else went (record p { parent = closes 0 })

-- `close(fd)` and `waitpid(pid, nullptr, 0)` of `WaitProcess`.
unfoldable pub wait_process : Processes → Parent → ProcOutcome
wait_process p (closes i) = elim (get_elem? p.end_points i) [
  | none ↦ went (record p { parent = finished })
  | some ep ↦ went (record p { parent = waits_for i; held = put p.held ep.write_id false })
]
wait_process p (waits_for i) = elim (get_elem? p.end_points i) [
  | none ↦ out_of_range
  | some ep ↦ elim (get_elem? p.children ep.child_pid) [
    | none ↦ blocked
    | some c ↦ if c.exited then went (record p { parent = closes (i + 1) }) else blocked
  ]
]
wait_process p _ = blocked

abbrev pub parent_step : Processes → Parent → ProcOutcome
parent_step p (controls input cnt procs) = ctrl_process p input cnt procs
parent_step p place = wait_process p place

-- Whether a child that runs holds the write end of pipe `k`.
unfoldable pub any_writes : List Child → ℕ → Bool
any_writes [] k = false
any_writes (c ∷ cs) k = (not_exited c && c.writes k) || any_writes cs k
  where
    not_exited : Child → Bool
    not_exited d = if d.exited then false else true

-- `Task::Execute`, over its table of three functions.
abbrev pub execute : List ℕ → ℕ → List ℕ
execute done cmd = if ltb cmd 3 then done ++ (cmd ∷ []) else done

-- `exit(0)`
unfoldable pub exit_child : Child → Child
exit_child c = record c { exited = true }

-- `t.Execute(cmd)` and `++cnt`, with what is left in the pipe.
unfoldable pub take_cmd : Child → ℕ → List ℕ → Child
take_cmd c cmd rest = record c { inbox = rest; cnt = c.cnt + 1; executed = execute c.executed cmd }

abbrev pub set_child : Processes → ℕ → Child → Processes
set_child p k c = record p { children = set p.children k c }

-- One turn of `WaitCmd` of child `k`: a pipe that is empty ends when nobody can write to it.
unfoldable pub wait_cmd : Processes → ℕ → Child → ProcOutcome
unfolding any_writes exit_child take_cmd
wait_cmd p k c =
    if c.exited
    then blocked
    else if ltb c.cnt exe_num
    then elim c.inbox [
      | [] ↦
          if p.held k || any_writes p.children k
          then blocked
          else went (set_child p k (exit_child c))
      | cmd ∷ rest ↦ went (set_child p k (take_cmd c cmd rest))
    ]
    else went (set_child p k (exit_child c))

pub data Actor : Type 0 where
  the_parent : Actor
  child : ℕ → Actor

unfoldable pub proc_step : Processes → Actor → ProcOutcome
unfolding ctrl_process wait_process wait_cmd
proc_step p the_parent = parent_step p p.parent
proc_step p (child k) = elim (get_elem? p.children k) [ none ↦ blocked | some c ↦ wait_cmd p k c ]
