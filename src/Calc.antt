-- ===== src/Calc.antt =====
-- `calculateHandler` of 8.11/epollServer.2/main.cc, on `int` values that C++ computes with exactly
-- or, past their range, not at all: `none` is undefined behaviour (overflow, INT_MIN / -1).
pub mod Division
pub mod Codes
use my_linux.Base.{
  ℕ, zero, suc, ◌-◌, ◌/◌, ◌%◌, ◌^◌, Bool, true, false, Option, none, some, ltb, ◌==◌, if◌then◌else◌,
}
use my_linux.Base.Int.{ℤ, pos, negsuc, ◌+ℤ◌, ◌-ℤ◌, ◌*ℤ◌}
use my_linux.Protocol.Message.{Request, Response}
use mathlib.Core.Option

-- -n
abbrev pub neg : ℕ → ℤ
neg zero = pos 0
neg (suc n) = negsuc n

-- Division and remainder towards zero, by a divisor other than 0 (see `divided`).
unfoldable pub quot : ℤ → ℤ → ℤ
quot (pos a) (pos b) = pos (a / b)
quot (pos a) (negsuc b) = neg (a / suc b)
quot (negsuc a) (pos b) = neg (suc a / b)
quot (negsuc a) (negsuc b) = pos (suc a / suc b)

unfoldable pub rem : ℤ → ℤ → ℤ
rem (pos a) (pos b) = pos (a % b)
rem (pos a) (negsuc b) = pos (a % suc b)
rem (negsuc a) (pos b) = neg (suc a % b)
rem (negsuc a) (negsuc b) = neg (suc a % suc b)

abbrev pub is_zero : ℤ → Bool
is_zero (pos n) = n == 0
is_zero (negsuc n) = false

-- The value is one of `int`.
abbrev pub in_range : ℤ → Bool
in_range (pos n) = ltb n (2 ^ 31)
in_range (negsuc n) = ltb n (2 ^ 31)

unfoldable pub checked : ℤ → Option ℤ
checked z = if in_range z then some z else none

abbrev pub answer : ℤ → Response
answer n = record { result = n; code = pos 0 }

abbrev pub refusal : ℕ → Response
refusal n = record { result = pos 0; code = pos n }

-- `req._x / req._y` and `req._x % req._y` are undefined together: for a divisor 0, and where the quotient is
-- no `int`.
unfoldable pub divided : ℤ → ℤ → ℤ → Option Response
unfolding checked quot
divided x y z = if is_zero y then none else Option.map (λ _. answer z) (checked (quot x y))

unfoldable pub calculate_handler : Request → Option Response
unfolding checked divided quot rem
calculate_handler req =
    if op == b'+'
    then Option.map answer (checked (x +ℤ y))
    else if op == b'-'
    then Option.map answer (checked (x -ℤ y))
    else if op == b'*'
    then Option.map answer (checked (x *ℤ y))
    else if op == b'/'
    then (if is_zero y then some (refusal 1) else divided x y (quot x y))
    else if op == b'%'
    then (if is_zero y then some (refusal 2) else divided x y (rem x y))
    else some (refusal 3)
  where
    open req use {x, y, op}
