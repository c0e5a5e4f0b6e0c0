-- ===== src/Protocol/Frame.antt =====
-- `readPackage` and `removeHeader` against `addHeader` (8.11/epollServer.2/protocol.hpp).
use my_linux.Base.{
  ℕ, ◌+◌, ◌-◌, ◌%◌, ◌^◌, ◌≤◌, ◌<◌, ◌≡◌, refl, sym, some, ◌++◌, arith, append_assoc, length,
  length-append, take, take-append, drop-append,
}
use my_linux.Base.Int.{pos, ◌-ℤ◌}
use my_linux.Text.{Bytes, find, substr, to_size, to_int, to_string}
use my_linux.Text.Find.{find_behind}
use my_linux.Text.Words.{to_size-pos, to_int_small}
use my_linux.Text.Decimal.{AllDigits-Lacks, to_string-AllDigits, length-to_string, atoi-to_string}
use my_linux.Protocol.{head_sep, target_len, take_package, read_package, remove_header, add_header}

-- The largest payload whose packet is counted by an `int`, with room for 20 digits.
abbrev pub IsShort : Bytes → Type 0
IsShort s = length s + 24 < 2 ^ 31

pub length-add_header :
    (s : Bytes) → length (add_header s) ≡ length s + length (to_string (length s)) + 4
unfolding add_header
length-add_header s = omega (
  arith,
  length-append (to_string (length s)) (head_sep ++ (s ++ head_sep)),
  length-append s head_sep,
)

-- The size that `readPackage` computes from the header is that of the packet.
pub target_len-add_header :
    (s : Bytes)
    → IsShort s
    → target_len (pos (length s)) (to_string (length s)) ≡ length (add_header s)
unfolding target_len
target_len-add_header s h =
    rw (to_size-pos (length s) (omega arith), length-add_header s)
      (go (length s + length (to_string (length s)) + 4)
        (omega (arith, length-to_string (length s))))
  where
    go : (n : ℕ) → n < 2 ^ 31 → to_size (to_int (n % 2 ^ 64)) ≡ n
    go n b =
        let e : n % 2 ^ 64 ≡ n = omega arith in
        rw (e, to_int_small n b) (to_size-pos n (omega arith))

take_package-add_header :
    (s rest packet : Bytes)
    → IsShort s
    → take_package (add_header s ++ rest) packet (to_string (length s))
      ≡ record { len = pos (length s); packet = add_header s; inbuffer = rest }
unfolding take_package
take_package-add_header s rest packet h =
    rw (atoi-to_string (length s) (omega arith), target_len-add_header s h)
      (ground (
        arith,
        length-append (add_header s) rest,
        take-append (add_header s) rest {n = length (add_header s)} refl,
        drop-append (add_header s) rest {n = length (add_header s)} refl,
      ))

find-add_header :
    (s rest : Bytes) → find (add_header s ++ rest) head_sep ≡ some (length (to_string (length s)))
unfolding add_header
find-add_header s rest = rw append_assoc (
    find_behind b'\r' b'\n' (to_string (length s)) ((s ++ head_sep) ++ rest)
      (AllDigits-Lacks b'\r' (to_string (length s)) (omega arith) (to_string-AllDigits (length s))))

take-add_header :
    (s rest : Bytes)
    → take (length (to_string (length s))) (add_header s ++ rest) ≡ to_string (length s)
unfolding add_header
take-add_header s rest = rw append_assoc (take-append (to_string (length s)) _ refl)

-- A whole package at the front of the buffer is taken off, whatever follows it, if its payload, with 24 bytes
-- more, is shorter than 2^31.
pub read_package-add_header :
    (s rest packet : Bytes)
    → IsShort s
    → read_package (add_header s ++ rest) packet
      ≡ record { len = pos (length s); packet = add_header s; inbuffer = rest }
unfolding read_package
read_package-add_header s rest packet h =
    rw (find-add_header s rest, read_package)
      (rw (take-add_header s rest) (take_package-add_header s rest packet h))

-- `substr` of the middle one of three pieces.
substr-middle :
    (a b c : Bytes) {n m : ℕ} → n ≡ length a → m ≡ length b → substr (a ++ (b ++ c)) n m ≡ some b
unfolding substr
substr-middle a b c {n} {m} e f =
    ground (arith, length-append a (b ++ c), drop-append a (b ++ c) e, take-append b c f)

header_end :
    (n k : ℕ)
    → n + 24 < 2 ^ 31
    → k ≤ 20
    → (to_size (pos (n + k + 4) -ℤ pos n) + 2 ^ 64 - 2) % 2 ^ 64 ≡ k + 2
unfolding to_size ◌-ℤ◌
header_end n k h b = ground arith

-- The payload comes back from its package.
pub remove_header-add_header :
    (s : Bytes) → IsShort s → remove_header (add_header s) (pos (length s)) ≡ some s
unfolding remove_header
remove_header-add_header s h =
    rw
      (
        to_int_small (length (add_header s)) (omega (arith, size, digits)),
        to_size-pos (length s) (omega arith),
        size,
        header_end (length s) (length (to_string (length s))) (omega arith) digits,
      )
      (rw regroup (
        substr-middle (to_string (length s) ++ head_sep) s head_sep
          (omega (arith, length-append (to_string (length s)) head_sep)) refl))
  where
    size : length (add_header s) ≡ length s + length (to_string (length s)) + 4
    size = length-add_header s

    digits : length (to_string (length s)) ≤ 20
    digits = length-to_string (length s)

    regroup : add_header s ≡ (to_string (length s) ++ head_sep) ++ (s ++ head_sep)
    regroup =
        unfold add_header in sym (append_assoc (to_string (length s)) head_sep (s ++ head_sep))
