-- ===== src/Protocol.antt =====
-- The framing of 8.11/epollServer.2/protocol.hpp: a package (`packet` here, the word is reserved) is the length of the payload in
-- decimal, "\r\n", the payload, "\r\n".
pub mod Frame
pub mod Partial
pub mod Json
pub mod Message
use my_linux.Base.{
  ℕ, ◌+◌, ◌-◌, ◌%◌, ◌^◌, Bool, Option, none, some, List, [], ◌∷◌, ◌++◌, ltb, if◌then◌else◌, length,
  take, drop,
}
use my_linux.Base.Int.{ℤ, pos, ◌-ℤ◌}
use my_linux.Text.{Bytes, find, substr, atoi, to_size, to_int, to_string}

-- `HEAD_SEP`, of `HEAD_LEN` 2.
abbrev pub head_sep : Bytes
head_sep = b'\r' ∷ b'\n' ∷ []

-- What `readPackage` returns, and leaves in its two reference parameters.
pub record Read : Type 0 where
  pub len : ℤ
  pub packet : Bytes
  pub inbuffer : Bytes

-- `int len_targetPackage = len_payload + len_str.size() + HEAD_LEN * 2`: a sum of `size_t`, cut to
-- an `int`, and widened to a `size_t` again where it is used.
unfoldable pub target_len : ℤ → Bytes → ℕ
target_len len_payload len_str =
    to_size (to_int ((to_size len_payload + length len_str + 4) % 2 ^ 64))

-- The rest of `readPackage`, behind the search for the separator.
unfoldable pub take_package : Bytes → Bytes → Bytes → Read
take_package inbuffer packet len_str =
    let len_payload = atoi len_str in
    let size = target_len len_payload len_str in
    if ltb (length inbuffer) size
    then record { len = pos 0; packet = packet; inbuffer = inbuffer }
    else record { len = len_payload; packet = take size inbuffer; inbuffer = drop size inbuffer }

unfoldable pub read_package : Bytes → Bytes → Read
unfolding take_package
read_package inbuffer packet = elim (find inbuffer head_sep) [
  | none ↦ record { len = pos 0; packet = packet; inbuffer = inbuffer }
  | some p ↦ take_package inbuffer packet (take p inbuffer)
]

-- `none` is the exception of `substr`.
unfoldable pub remove_header : Bytes → ℤ → Option Bytes
remove_header packet len =
    substr packet ((to_size (to_int (length packet) -ℤ len) + 2 ^ 64 - 2) % 2 ^ 64) (to_size len)

unfoldable pub add_header : Bytes → Bytes
add_header s = to_string (length s) ++ (head_sep ++ (s ++ head_sep))
