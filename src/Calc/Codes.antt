-- ===== src/Calc/Codes.antt =====
-- The codes of `calculateHandler` (8.11/epollServer.2/main.cc), and where it is defined.
use native.Mathlib.Nat.{div-le_self}
use my_linux.Base.{
  ℕ, suc, ◌+◌, ◌*◌, ◌/◌, ◌^◌, ◌<◌, ◌≡◌, ◌≢◌, ◌⊎◌, inl, inr, none, some, arith, true, false,
  Option-cases,
}
use my_linux.Base.Int.{ℤ, pos, negsuc, ◌+ℤ◌, ◌-ℤ◌, ◌*ℤ◌, pos_part, neg_part, sub_ℕ}
use my_linux.Protocol.Message.{Request, Response}
use my_linux.Calc.{neg, quot, is_zero, in_range, refusal, calculate_handler}

-- The reasons for which a request is refused, one for each code.
abbrev pub Unknown : ℕ → Type 0
Unknown op = (op ≢ b'+') × (op ≢ b'-') × (op ≢ b'*') × (op ≢ b'/') × (op ≢ b'%')

-- An operator that is known, with a divisor other than 0 if it divides.
abbrev pub IsSound : Request → Type 0
IsSound req =
    (req.op ≡ b'+')
    ⊎ (req.op ≡ b'-')
    ⊎ (req.op ≡ b'*')
    ⊎ (((req.op ≡ b'/') ⊎ (req.op ≡ b'%')) × (is_zero req.y ≡ false))

abbrev pub Explains : Request → Response → Type 0
Explains req resp =
    ((req.op ≡ b'/') × (is_zero req.y ≡ true) × (resp ≡ refusal 1))
    ⊎ ((req.op ≡ b'%') × (is_zero req.y ≡ true) × (resp ≡ refusal 2))
    ⊎ (Unknown req.op × (resp ≡ refusal 3))
    ⊎ (IsSound req × (resp.code ≡ pos 0))

-- A request that is answered is a division by 0, answered with code 1, a remainder by 0, answered with
-- code 2, an operator that is unknown, answered with code 3, each with result 0, or else an operator
-- that is known, with a divisor other than 0 if it divides, answered with code 0.
pub calculate_handler_codes :
    (req : Request) (resp : Response) → calculate_handler req ≡ some resp → Explains req resp
unfolding calculate_handler
calculate_handler_codes req resp e = ground arith

-- Half of the bits of an `int`, where no product overflows.
abbrev pub IsHalf : ℤ → Type 0
IsHalf z = pos_part z + neg_part z < 2 ^ 15

in_range_of : (z : ℤ) → pos_part z + neg_part z < 2 ^ 31 → in_range z ≡ true
in_range_of (pos n) h = ground arith
in_range_of (negsuc n) h = ground arith

product-lt : (a b : ℕ) → a < 2 ^ 15 → b < 2 ^ 15 → a * b < 2 ^ 30
product-lt a b h k = grind arith

sub-magnitude : (m n : ℕ) → m + n < 2 ^ 31 → in_range (sub_ℕ m n) ≡ true
sub-magnitude m n h = in_range_of (sub_ℕ m n) (ground arith)

module _ (x y : ℤ) (h : IsHalf x) (k : IsHalf y) where
  +ℤ-in_range : in_range (x +ℤ y) ≡ true
  unfolding ◌+ℤ◌
  +ℤ-in_range = sub-magnitude (pos_part x + pos_part y) (neg_part x + neg_part y) (omega arith)

  -ℤ-in_range : in_range (x -ℤ y) ≡ true
  unfolding ◌-ℤ◌
  -ℤ-in_range = sub-magnitude (pos_part x + neg_part y) (neg_part x + pos_part y) (omega arith)

  *ℤ-in_range : in_range (x *ℤ y) ≡ true
  unfolding ◌*ℤ◌
  *ℤ-in_range = sub-magnitude _ _ (products (pos_part x) (neg_part x) (pos_part y) (neg_part y) h k)
    where
      products :
          (a b c d : ℕ)
          → a + b < 2 ^ 15
          → c + d < 2 ^ 15
          → (a * c + b * d) + (a * d + b * c) < 2 ^ 31
      products a b c d p q = omega (arith, product-lt (a + b) (c + d) p q)

quot-in_range : (x y : ℤ) → IsHalf x → in_range (quot x y) ≡ true
unfolding quot
quot-in_range (pos a) (pos b) h = in_range_of (pos (a / b)) (omega (arith, div-le_self a b))
quot-in_range (pos a) (negsuc b) h =
    in_range_of (neg (a / suc b)) (ground (arith, div-le_self a (suc b)))
quot-in_range (negsuc a) (pos b) h =
    in_range_of (neg (suc a / b)) (ground (arith, div-le_self (suc a) b))
quot-in_range (negsuc a) (negsuc b) h =
    in_range_of (pos (suc a / suc b)) (omega (arith, div-le_self (suc a) (suc b)))

-- With operands below 2^15 in magnitude no request runs into undefined behaviour: no result is past
-- the range of `int`, and nothing is divided by 0.
pub calculate_handler_defined :
    (req : Request)
    → IsHalf req.x
    → IsHalf req.y
    → (resp : Response) × (calculate_handler req ≡ some resp)
calculate_handler_defined req h k = elim (Option-cases (calculate_handler req)) [
  | inr found ↦ found
  | inl e ↦ absurd (never e)
]
  where
    never : calculate_handler req ≡ none → ⊥
    never e =
        unfold calculate_handler in
        ground (
          arith,
          +ℤ-in_range req.x req.y h k,
          -ℤ-in_range req.x req.y h k,
          *ℤ-in_range req.x req.y h k,
          quot-in_range req.x req.y h,
        )
