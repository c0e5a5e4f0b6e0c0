-- ===== src/Text/Words.antt =====
-- The conversions between `int` and `size_t` on the values where they lose nothing.
use my_linux.Base.{ℕ, ◌^◌, ◌<◌, ◌≡◌, arith}
use my_linux.Base.Int.{pos, negsuc}
use my_linux.Text.{to_size, to_int}

pub to_size-pos : (n : ℕ) → n < 2 ^ 64 → to_size (pos n) ≡ n
unfolding to_size
to_size-pos n h = omega arith

pub to_int_small : (n : ℕ) → n < 2 ^ 31 → to_int n ≡ pos n
unfolding to_int
to_int_small n h = ground arith

-- An `int` comes back from a `size_t` whatever its sign.
pub to_int-to_size_neg : (n : ℕ) → n < 2 ^ 31 → to_int (to_size (negsuc n)) ≡ negsuc n
unfolding to_int to_size
to_int-to_size_neg n h = ground arith
