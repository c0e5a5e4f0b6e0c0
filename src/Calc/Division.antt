-- ===== src/Calc/Division.antt =====
-- Division and remainder of `calculateHandler` fit together (8.11/epollServer.2/main.cc).
use native.Mathlib.Nat.{div-add-mod, mod-lt}
use my_linux.Base.{ℕ, zero, suc, ◌+◌, ◌*◌, ◌/◌, ◌%◌, ◌<◌, ◌≡◌, refl, some, arith, true, false}
use my_linux.Base.Int.{ℤ, pos, negsuc, ◌+ℤ◌, ◌*ℤ◌, pos_part, neg_part, eq_of_parts, sub_ℕ, +ℤ_parts}
use my_linux.Calc.{neg, quot, rem, is_zero, in_range, answer, calculate_handler}

*ℤ_parts :
    (a b : ℤ)
    → pos_part (a *ℤ b) + (pos_part a * neg_part b + neg_part a * pos_part b)
      ≡ neg_part (a *ℤ b) + (pos_part a * pos_part b + neg_part a * neg_part b)
unfolding ◌*ℤ◌
*ℤ_parts a b =
    sub_parts (pos_part a * pos_part b + neg_part a * neg_part b)
      (pos_part a * neg_part b + neg_part a * pos_part b)
  where
    sub_parts : (m n : ℕ) → pos_part (sub_ℕ m n) + n ≡ neg_part (sub_ℕ m n) + m
    sub_parts m n = ground arith

neg_parts : (n : ℕ) → (pos_part (neg n) ≡ 0) × (neg_part (neg n) ≡ n)
neg_parts zero = (refl, refl)
neg_parts (suc n) = (refl, refl)

sum_of_parts :
    (q y r x : ℤ)
    → pos_part q * pos_part y + neg_part q * neg_part y + pos_part r + neg_part x
      ≡ pos_part q * neg_part y + neg_part q * pos_part y + neg_part r + pos_part x
    → (q *ℤ y) +ℤ r ≡ x
sum_of_parts q y r x h = eq_of_parts _ _ (omega (arith, *ℤ_parts q y, +ℤ_parts (q *ℤ y) r))

quot-rem : (x y : ℤ) → (quot x y *ℤ y) +ℤ rem x y ≡ x
unfolding quot rem
quot-rem (pos a) (pos b) = sum_of_parts _ _ _ _ (omega (arith, div-add-mod a b))
quot-rem (pos a) (negsuc b) = sum_of_parts _ _ _ _ (
    rw ((neg_parts (a / suc b)).0, (neg_parts (a / suc b)).1)
      (omega (arith, div-add-mod a (suc b))))
quot-rem (negsuc a) (pos b) = sum_of_parts _ _ _ _ (
    rw
      (
        (neg_parts (suc a / b)).0,
        (neg_parts (suc a / b)).1,
        (neg_parts (suc a % b)).0,
        (neg_parts (suc a % b)).1,
      )
      (omega (arith, div-add-mod (suc a) b)))
quot-rem (negsuc a) (negsuc b) = sum_of_parts _ _ _ _ (
    rw ((neg_parts (suc a % suc b)).0, (neg_parts (suc a % suc b)).1)
      (omega (arith, div-add-mod (suc a) (suc b))))

abbrev pub magnitude : ℤ → ℕ
magnitude z = pos_part z + neg_part z

rem-lt : (x y : ℤ) → is_zero y ≡ false → magnitude (rem x y) < magnitude y
unfolding rem
rem-lt (pos a) (pos b) h = ground (arith, mod-lt a {m = b})
rem-lt (pos a) (negsuc b) h = ground (arith, mod-lt a {m = suc b})
rem-lt (negsuc a) (pos b) h = ground (arith, neg_parts (suc a % b), mod-lt (suc a) {m = b})
rem-lt (negsuc a) (negsuc b) h =
    ground (arith, neg_parts (suc a % suc b), mod-lt (suc a) {m = suc b})

-- Where the two quotients by one divisor other than 0 are defined, the answer to '/' times the
-- divisor plus the answer to '%' is the dividend, and the latter is smaller than the divisor in
-- magnitude. Both are answered with code 0.
pub calculate_handler_division :
    (x y : ℤ)
    → is_zero y ≡ false
    → in_range (quot x y) ≡ true
    → (q r : ℤ) × (calculate_handler (record { x = x; y = y; op = b'/' }) ≡ some (answer q))
      × (calculate_handler (record { x = x; y = y; op = b'%' }) ≡ some (answer r))
      × ((q *ℤ y) +ℤ r ≡ x)
      × (magnitude r < magnitude y)
unfolding calculate_handler
calculate_handler_division x y nonzero fits =
    (quot x y, rem x y, rw (nonzero, fits), rw (nonzero, fits), quot-rem x y, rem-lt x y nonzero)
