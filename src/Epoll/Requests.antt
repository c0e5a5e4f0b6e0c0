-- ===== src/Epoll/Requests.antt =====
-- `HandleRequest` of 8.11/epollServer.2/epollServer.hpp on the two buffers of a connection.
pub mod Ends
pub mod Stream
pub mod Pieces
use my_linux.Base.{
  ℕ, zero, suc, ◌++◌, Option, none, some, [], Bool, true, false, ltb, if◌then◌else◌, length, drop,
}
use my_linux.Base.Int.{ℤ, pos, negsuc}
use my_linux.Text.{Bytes, c_string}
use my_linux.Protocol.Json.{Json}
use my_linux.Protocol.Message.{Request, Response, deserialize_request, serialize_response, ◌>>=◌}
use my_linux.Protocol.{Read, read_package, remove_header, add_header}

-- The text that `buffer` holds after `recv`: nothing is stored behind the bytes, so that it ends at the first NUL of
-- what was received or, behind it, of what the array held; `none` if there is none.
abbrev pub received_text : Bytes → Bytes → Option Bytes
received_text bytes stale = c_string (bytes ++ drop (length bytes) stale)

-- How a run of the loop ends: with the two buffers, or thrown out of the server (an exception of
-- `substr` or `asInt`, or undefined behaviour of the handler).
pub data Handled : Type 0 where
  handled : Bytes → Bytes → Handled
  thrown : Handled
  out_of_fuel : Handled

abbrev pub is_pos : ℤ → Bool
is_pos (pos n) = ltb 0 n
is_pos (negsuc n) = false

module _ (json : Json) (func : Request → Option Response) where
  -- Steps 3 to 6: from the payload of a request to the package of its response.
  unfoldable pub respond : Bytes → Option Bytes
  respond payload = do
    req ← deserialize_request json payload
    resp ← func req
    some (add_header (serialize_response json resp))

  -- Steps 2 to 6 on a package with a payload of `len` bytes.
  unfoldable pub answer_package : Bytes → ℤ → Option Bytes
  answer_package packet len = do payload ← remove_header packet len; respond payload

  -- `while (!flag)`; each round takes at least a byte off the buffer.
  unfoldable pub handle_request : ℕ → Bytes → Bytes → Handled
  handle_request zero inbuffer outbuffer = out_of_fuel
  handle_request (suc f) inbuffer outbuffer =
      let r = read_package inbuffer [] in
      elim (is_pos r.len) [
        | true ↦ elim (answer_package r.packet r.len) [
          | none ↦ thrown
          | some out ↦ handle_request f r.inbuffer (outbuffer ++ out)
        ]
        | false ↦ handled r.inbuffer outbuffer
      ]
