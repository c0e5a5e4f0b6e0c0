-- ===== src/Formula.antt =====
-- 7.20/netCalculator/client.cc: the line that a user types is split into two numbers and an operator.
pub mod Split
use my_linux.Base.{ℕ, zero, suc, Bool, Option, none, some, List, [], ◌∷◌, ◌++◌, if◌then◌else◌}
use my_linux.Base.Int.{ℤ}
use my_linux.Text.{Bytes, is_digit, atoi}

pub data Stat : Type 0 where
  in_left in_operator in_right : Stat

-- The local variables of `splitFormula`. `op` is not initialised, which `none` stands for.
pub record Parts : Type 0 where
  pub left : Bytes
  pub op : Option ℕ
  pub right : Bytes

-- The loop of `splitFormula` over what is left of the formula, at most as many rounds as the fuel says. `none`
-- is a loop that has not ended by then. A round may change the state and read nothing.
unfoldable pub split_loop : ℕ → Bytes → Stat → Parts → Option Parts
split_loop zero formula stat p = none
split_loop (suc k) [] stat p = some p
split_loop (suc k) (c ∷ rest) in_left p =
    let more = split_loop k rest in_left (record p { left = p.left ++ (c ∷ []) }) in
    let turn = split_loop k (c ∷ rest) in_operator p in if is_digit c then more else turn
split_loop (suc k) (c ∷ rest) in_operator p = split_loop k rest in_right (record p { op = some c })
split_loop (suc k) (c ∷ rest) in_right p =
    let more = split_loop k rest in_right (record p { right = p.right ++ (c ∷ []) }) in
    let same = split_loop k (c ∷ rest) in_right p in if is_digit c then more else same

-- The fields of the request that `splitFormula` returns.
pub record Formula : Type 0 where
  pub x : ℤ
  pub y : ℤ
  pub op : Option ℕ

unfoldable pub split_formula : ℕ → Bytes → Option Formula
unfolding split_loop
split_formula k formula =
    elim (split_loop k formula in_left (record { left = []; op = none; right = [] })) [
      | none ↦ none
      | some p ↦ some (record { x = atoi p.left; y = atoi p.right; op = p.op })
    ]
