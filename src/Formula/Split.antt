-- ===== src/Formula/Split.antt =====
-- What `splitFormula` of 7.20/netCalculator/client.cc gives, and where it never ends.
use my_linux.Base.{
  ℕ, zero, suc, ◌+◌, ◌^◌, ◌<◌, ◌≡◌, refl, ap, ap₂, ◌∙◌, sym, false, Option, none, some, [], ◌∷◌,
  ◌++◌, length, append_assoc, append-nil, arith,
}
use my_linux.Base.Int.{pos}
use my_linux.Text.{Bytes, is_digit, atoi, to_string}
use my_linux.Text.Decimal.{AllDigits, atoi-to_string, to_string-AllDigits}
use my_linux.Formula.{in_left, in_right, Parts, split_loop, Formula, split_formula}

-- Digits on the right are read to the end.
right_digits :
    (ys : Bytes) (k : ℕ) (p : Parts)
    → AllDigits ys
    → length ys < k
    → split_loop k ys in_right p ≡ some (record p { right = p.right ++ ys })
unfolding split_loop
right_digits [] (suc k) p d l = ap (λ r. some (record p { right = r })) (sym (append-nil p.right))
right_digits (y ∷ ys) (suc k) p d l =
    rw (split_loop, d.0)
      (right_digits ys k (record p { right = p.right ++ (y ∷ []) }) d.1 (omega arith)
        ∙ ap (λ r. some (record p { right = r })) (append_assoc p.right (y ∷ []) ys))
right_digits ys zero p d l = elim l [ ]

-- Digits on the left are read, and what follows is left.
left_digits :
    (xs rest : Bytes) (f k : ℕ) (p : Parts)
    → AllDigits xs
    → f ≡ length xs + k
    → split_loop f (xs ++ rest) in_left p
      ≡ split_loop k rest in_left (record p { left = p.left ++ xs })
unfolding split_loop
left_digits [] rest f k p d e =
    ap₂ (λ n l. split_loop n rest in_left (record p { left = l })) (omega (arith, e))
      (sym (append-nil p.left))
left_digits (x ∷ xs) rest zero k p d e = absurd (omega (arith, e))
left_digits (x ∷ xs) rest (suc f) k p d e =
    rw (split_loop, d.0)
      (left_digits xs rest f k (record p { left = p.left ++ (x ∷ []) }) d.1 (omega (arith, e))
        ∙ ap (λ l. split_loop k rest in_left (record p { left = l }))
            (append_assoc p.left (x ∷ []) xs))

-- The character behind the left digits turns the state, and is the operator.
operator_turns :
    (c : ℕ) (rest : Bytes) (k : ℕ) (p : Parts)
    → is_digit c ≡ false
    → split_loop (suc (suc k)) (c ∷ rest) in_left p
      ≡ split_loop k rest in_right (record p { op = some c })
unfolding split_loop
operator_turns c rest k p n = rw (split_loop, n) refl

-- Digits, another character, digits, still another character: no fuel is enough.
right_sticks :
    (ys rest : Bytes) (d k : ℕ) (p : Parts)
    → AllDigits ys
    → is_digit d ≡ false
    → split_loop k (ys ++ (d ∷ rest)) in_right p ≡ none
unfolding split_loop
right_sticks ys rest d zero p a n = refl
right_sticks [] rest d (suc k) p a n = rw (split_loop, n) (right_sticks [] rest d k p a n)
right_sticks (y ∷ ys) rest d (suc k) p a n = rw (split_loop, a.0) (right_sticks ys rest d k _ a.1 n)

left_sticks :
    (xs rest : Bytes) (c k : ℕ) (p : Parts)
    → AllDigits xs
    → is_digit c ≡ false
    → ((j : ℕ) (q : Parts) → split_loop j rest in_right q ≡ none)
    → split_loop k (xs ++ (c ∷ rest)) in_left p ≡ none
unfolding split_loop
left_sticks xs rest c zero p a n h = refl
left_sticks [] rest c (suc zero) p a n h = rw (split_loop, n) refl
left_sticks [] rest c (suc (suc k)) p a n h = operator_turns c rest k p n ∙ h k _
left_sticks (x ∷ xs) rest c (suc k) p a n h =
    rw (split_loop, a.0) (left_sticks xs rest c k _ a.1 n h)

-- From two numbers below 2 ^ 31 in decimal, with one character between them that is not a digit, the loop
-- ends within a round for each character and three more, and the request has the two numbers and
-- that character.
pub split_formula-to_string :
    (a b c k : ℕ)
    → a < 2 ^ 31
    → b < 2 ^ 31
    → is_digit c ≡ false
    → split_formula
        (length (to_string a) + (3 + (length (to_string b) + k)))
        (to_string a ++ (c ∷ to_string b))
      ≡ some (record { x = pos a; y = pos b; op = some c })
unfolding split_formula
split_formula-to_string a b c k l m n =
    ap result (
      left_digits (to_string a) (c ∷ to_string b) _ _ start (to_string-AllDigits a) refl
      ∙ ap (λ f. split_loop f (c ∷ to_string b) in_left (record start { left = to_string a })) fuel
      ∙ operator_turns c (to_string b) (length (to_string b) + k + 1)
          (record start { left = to_string a }) n
      ∙ right_digits (to_string b) _ (record start { left = to_string a; op = some c })
          (to_string-AllDigits b) (omega arith))
    ∙ ap₂ (λ x y. some (record { x = x; y = y; op = some c })) (atoi-to_string a l)
        (atoi-to_string b m)
  where
    start : Parts
    start = record { left = []; op = none; right = [] }

    result : Option Parts → Option Formula
    result o = elim o [
      | none ↦ none
      | some p ↦ some (record { x = atoi p.left; y = atoi p.right; op = p.op })
    ]

    fuel : 3 + (length (to_string b) + k) ≡ suc (suc (length (to_string b) + k + 1))
    fuel = omega arith

-- When the right number is followed by anything, such as a second operator, the loop does not end, however
-- many rounds it is given: for digits, another character, digits, and a character that is no digit.
pub split_formula_sticks :
    (xs ys rest : Bytes) (c d k : ℕ)
    → AllDigits xs
    → AllDigits ys
    → is_digit c ≡ false
    → is_digit d ≡ false
    → split_formula k (xs ++ (c ∷ (ys ++ (d ∷ rest)))) ≡ none
unfolding split_formula
split_formula_sticks xs ys rest c d k a b n o =
    rw
      (
        split_formula,
        left_sticks xs (ys ++ (d ∷ rest)) c k _ a n (λ j q. right_sticks ys rest d j q b o),
      )
      refl
