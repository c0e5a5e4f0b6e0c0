-- ===== src/Tests/Formula.antt =====
-- The formulas of 7.20/netCalculator/client.cc.
use my_linux.Base.{◌+◌, ◌≡◌, refl, none, some, [], ◌∷◌, ◌++◌, length, arith}
use my_linux.Base.Int.{pos}
use my_linux.Text.{codes, to_string}
use my_linux.Formula.{split_formula}
use my_linux.Formula.Split.{split_formula-to_string, split_formula_sticks}

split_formula-to_string_example :
    split_formula
      (length (to_string 12) + (3 + (length (to_string 7) + 0)))
      (to_string 12 ++ (b'+' ∷ to_string 7))
    ≡ some (record { x = pos 12; y = pos 7; op = some b'+' })
split_formula-to_string_example =
    split_formula-to_string 12 7 b'+' 0 (omega arith) (omega arith) refl

split_formula_sticks_example : split_formula 1000 (codes "1+2+3") ≡ none
split_formula_sticks_example =
    split_formula_sticks (b'1' ∷ []) (b'2' ∷ []) (b'3' ∷ []) b'+' b'+' 1000 (refl, tt) (refl, tt)
      refl refl
