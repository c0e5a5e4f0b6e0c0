-- ===== src/Text.antt =====
-- The operations of `std::string` and of <cstdlib> that the servers use, over lists of bytes, and
-- the conversions between `int` and `size_t`. A position that `std::string` refuses by an
-- exception (`std::out_of_range`) is `none`.
pub mod Find
pub mod Decimal
pub mod Words
use my_linux.Base.{
  ℕ, zero, suc, ◌+◌, ◌-◌, ◌*◌, ◌/◌, ◌%◌, ◌^◌, min, Bool, true, false, ◌&&◌, ◌||◌, Option, none,
  some, List, [], ◌∷◌, ◌++◌, String, ltb, leb, ◌==◌, if◌then◌else◌, length, take, drop,
}
use my_linux.Base.Int.{ℤ, pos, negsuc}
use Prim.Native.Char.{code}
use mathlib.Core.Option

abbrev pub Bytes : Type 0
Bytes = List ℕ

-- An ASCII literal.
abbrev pub codes : String → Bytes
codes String.[] = []
codes (String.◌∷◌ c s) = code c ∷ codes s

unfoldable pub starts_with : Bytes → Bytes → Bool
starts_with [] s = true
starts_with (x ∷ p) [] = false
starts_with (x ∷ p) (y ∷ s) = (x == y) && starts_with p s

-- `==` of two strings.
unfoldable pub same_text : Bytes → Bytes → Bool
same_text [] [] = true
same_text (x ∷ s) (y ∷ t) = (x == y) && same_text s t
same_text _ _ = false

-- `s.find(sep)`; `none` is `string::npos`.
unfoldable pub find : Bytes → Bytes → Option ℕ
unfolding starts_with
find [] sep = if starts_with sep [] then some 0 else none
find (c ∷ s) sep = if starts_with sep (c ∷ s) then some 0 else Option.map suc (find s sep)

-- `s.substr(pos, n)`
unfoldable pub substr : Bytes → ℕ → ℕ → Option Bytes
substr s p n = if ltb (length s) p then none else some (take n (drop p s))

-- What `std::string` reads from a `char *`: the bytes up to the first NUL. `none` if there is none.
unfoldable pub c_string : Bytes → Option Bytes
c_string [] = none
c_string (c ∷ s) = if c == 0 then some [] else Option.map (◌∷◌ c) (c_string s)

-- `isdigit` and `isspace` of the C locale.
abbrev pub is_digit : ℕ → Bool
is_digit c = leb b'0' c && leb c b'9'

abbrev pub is_space : ℕ → Bool
is_space c = (c == 32) || (leb 9 c && leb c 13)

-- An integer as the bits of a `size_t`, and the low 32 bits of a word as an `int`.
unfoldable pub to_size : ℤ → ℕ
to_size (pos n) = n % 2 ^ 64
to_size (negsuc n) = 2 ^ 64 - 1 - n % 2 ^ 64

unfoldable pub to_int : ℕ → ℤ
to_int w = let m = w % 2 ^ 32 in if ltb m (2 ^ 31) then pos m else negsuc (2 ^ 32 - 1 - m)

-- `atoi`, which is `(int)strtol(s, NULL, 10)`: white space, a sign, digits up to the first other
-- byte, clamped to a `long`.
unfoldable pub skip_space : Bytes → Bytes
skip_space [] = []
skip_space (c ∷ s) = if is_space c then skip_space s else c ∷ s

unfoldable pub digit_run : ℕ → Bytes → ℕ
digit_run acc [] = acc
digit_run acc (c ∷ s) = if is_digit c then digit_run (acc * 10 + (c - b'0')) s else acc

clamp_neg : ℕ → ℤ
clamp_neg zero = pos 0
clamp_neg (suc n) = negsuc (min n (2 ^ 63 - 1))

unfoldable pub strtol : Bytes → ℤ
unfolding digit_run clamp_neg
strtol [] = pos 0
strtol (c ∷ s) =
    if c == b'-'
    then clamp_neg (digit_run 0 s)
    else pos (min (digit_run 0 (if c == b'+' then s else c ∷ s)) (2 ^ 63 - 1))

unfoldable pub atoi : Bytes → ℤ
atoi s = to_int (to_size (strtol (skip_space s)))

-- `to_string` of a `size_t`, which has at most 20 digits.
unfoldable pub digits : ℕ → ℕ → Bytes
digits zero n = []
digits (suc f) n =
    let rest = digits f (n / 10) ++ ((b'0' + n % 10) ∷ []) in
    if ltb n 10 then (b'0' + n) ∷ [] else rest

unfoldable pub to_string : ℕ → Bytes
to_string n = digits 20 n

-- `to_string` of an `int`.
unfoldable pub int_to_string : ℤ → Bytes
int_to_string (pos n) = to_string n
int_to_string (negsuc n) = b'-' ∷ to_string (suc n)
