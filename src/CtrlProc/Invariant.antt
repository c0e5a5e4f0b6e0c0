-- ===== src/CtrlProc/Invariant.antt =====
-- The invariant of the parent and its children (5.26/CtrlProc/proc.cc).
mod Children
mod Facts
mod Sending
mod Parents
mod Start
mod Running
pub mod Ends
use my_linux.Base.{
  ℕ, zero, suc, ◌+◌, ◌-◌, ◌*◌, ◌≤◌, ◌<◌, ◌≡◌, ◌⊎◌, Bool, true, false, some, List, [], ◌∷◌, ◌++◌,
  if◌then◌else◌, length, get_elem?,
}
use my_linux.Base.Totals.{total}
use my_linux.Base.Int.{ℤ}
use my_linux.Multiplex.{FdSet}
use my_linux.CtrlProc.{
  Child, EndPoint, Parent, controls, closes, waits_for, finished, Processes, ProcOutcome, blocked,
  went,
}
use my_linux.CtrlProc.Orders.{orders, commands}

abbrev pub Small : List ℕ → Type 0
Small [] = Unit {0}
Small (x ∷ xs) = (x < 3) × Small xs

-- A child holds no write end; what it has executed and what is in its pipe are the tasks sent to it; and it
-- has exited only with an empty pipe that the parent has closed, or after its last turn.
pub record IsFed (held : FdSet) (sent : List (ℕ × ℕ)) (k : ℕ) (c : Child) : Type 0 where
  pub mute : (j : ℕ) → c.writes j ≡ false
  pub fed : c.executed ++ c.inbox ≡ commands k sent
  pub counted : c.cnt ≡ length c.executed
  pub small : Small c.inbox
  pub over : c.exited ≡ true → (c.inbox ≡ []) × ((held k ≡ false) ⊎ (10 ≤ c.cnt))

abbrev pub Exited : List Child → ℕ → Type 0
Exited children i =
    (j : ℕ) → j < i → (c : Child) × (get_elem? children j ≡ some c) × (c.exited ≡ true)

-- What the parent relies on at its place; `asked` is what the input asks for.
abbrev pub AtPlace : List (ℕ × ℕ) → FdSet → List (ℕ × ℕ) → List Child → Parent → Type 0
AtPlace asked held sent children (controls input cnt procs) =
    ((k : ℕ) → k < 5 → held k ≡ true)
    × (length sent ≡ cnt)
    × ((n : ℕ) × (cnt + n ≡ 10) × (sent ++ orders input n procs ≡ asked))
AtPlace asked held sent children (closes i) =
    (sent ≡ asked) × (length sent ≤ 10) × (i ≤ 5) × Exited children i
AtPlace asked held sent children (waits_for i) =
    (sent ≡ asked) × (length sent ≤ 10) × (i < 5) × Exited children i × (held i ≡ false)
AtPlace asked held sent children finished = (sent ≡ asked) × (length sent ≤ 10) × Exited children 5

abbrev pub end_point : ℕ → EndPoint
end_point i = record { child_pid = i; write_id = i }

abbrev pub all_ends : List EndPoint
all_ends = end_point 0 ∷ end_point 1 ∷ end_point 2 ∷ end_point 3 ∷ end_point 4 ∷ []

pub record IsFamily (asked : List (ℕ × ℕ)) (p : Processes) : Type 0 where
  pub ends : p.end_points ≡ all_ends
  pub family : length p.children ≡ 5
  pub each : (k : ℕ) (c : Child) → get_elem? p.children k ≡ some c → IsFed p.held p.sent k c
  pub place : AtPlace asked p.held p.sent p.children p.parent

-- The steps that a child and the parent can still take.
abbrev pub still : Bool → ℕ
still exited = if exited then 0 else 1

abbrev pub child_cost : Child → ℕ
child_cost c = length c.inbox + still c.exited

abbrev pub parent_cost : Parent → ℕ
parent_cost (controls input cnt procs) = length input + (10 - cnt) * 2 + 12
parent_cost (closes i) = (5 - i) * 2 + 1
parent_cost (waits_for i) = (5 - i) * 2
parent_cost finished = 0

abbrev pub proc_budget : Processes → ℕ
proc_budget p = parent_cost p.parent + total child_cost p.children

-- A step that waits, or one that runs, keeps the invariant and takes from the budget.
pub data Spends (asked : List (ℕ × ℕ)) (p : Processes) : ProcOutcome → Type 0 where
  waits : Spends asked p blocked
  spends :
      (q : Processes) → IsFamily asked q → proc_budget q < proc_budget p → Spends asked p (went q)
