-- ===== src/NetCalculator.antt =====
-- 7.20/netCalculator: the calculator server with a thread for each client, which reads from its socket
-- in `readPackage` (protocol.hpp) and answers in `serviceIO` (cal_server.hpp).
pub mod Stream
use my_linux.Base.{
  ℕ, zero, suc, ◌++◌, Option, none, some, List, [], ◌∷◌, ltb, if◌then◌else◌, length, take,
}
use my_linux.Base.Int.{ℤ, pos, negsuc}
use my_linux.Text.{Bytes, c_string}
use my_linux.Protocol.{Read, read_package}
use my_linux.Protocol.Json.{Json}
use my_linux.Protocol.Message.{Request, Response}
use my_linux.Multiplex.{Received, received, recv_failed}
use my_linux.Epoll.Requests.{answer_package}

-- What `recv` gives into `buffer`.
unfoldable pub taken_2048 : Bytes → Bytes
taken_2048 all = take 2048 all

-- `buffer[n] = 0; inbuffer += buffer;`, where a full buffer has no place for the terminator: `none` is
-- undefined behaviour.
unfoldable pub append_buffer : Bytes → Bytes → Option Bytes
append_buffer inbuffer bytes =
    if ltb (length bytes) 2048
    then elim (c_string (bytes ++ (0 ∷ []))) [ none ↦ none | some text ↦ some (inbuffer ++ text) ]
    else none

-- What `readPackage` comes to: -1, undefined behaviour, or what the search in the buffer gives.
pub data Message : Type 0 where
  read_error overrun : Message
  message : Read → Message

-- `readPackage`, whose part behind `recv` is that of 8.11/epollServer.2/protocol.hpp.
unfoldable pub read_message : Received → Bytes → Message
read_message recv_failed inbuffer = read_error
read_message (received all) inbuffer = elim (taken_2048 all) [
  | [] ↦ read_error
  | b ∷ bytes ↦ elim (append_buffer inbuffer (b ∷ bytes)) [
    | none ↦ overrun
    | some buffer ↦ message (read_package buffer [])
  ]
]

-- How `serviceIO` ends: with its buffer and what it has sent, or thrown out of the server, or in undefined
-- behaviour.
pub data Serviced : Type 0 where
  ended : Bytes → Bytes → Serviced
  thrown undefined : Serviced

module _ (json : Json) (func : Request → Option Response) where
  -- What `serviceIO` does with `n` and the package, and goes on with.
  unfoldable pub serve_message : (Bytes → Bytes → Serviced) → Bytes → Read → Serviced
  serve_message next sent m =
      let answer : Serviced = elim (answer_package json func m.packet m.len) [
        | none ↦ thrown
        | some out ↦ next m.inbuffer (sent ++ out)
      ] in
      elim m.len [
        | pos zero ↦ next m.inbuffer sent
        | pos (suc n) ↦ answer
        | negsuc zero ↦ ended m.inbuffer sent
        | negsuc (suc n) ↦ answer
      ]

  -- `serviceIO` on what `recv` returns, which fails after the end of the list.
  unfoldable pub service_io : List Received → Bytes → Bytes → Serviced
  service_io [] inbuffer sent = ended inbuffer sent
  service_io (r ∷ rs) inbuffer sent =
      let next : Bytes → Bytes → Serviced = service_io rs in
      elim (read_message r inbuffer) [
        | read_error ↦ ended inbuffer sent
        | overrun ↦ undefined
        | message m ↦ serve_message next sent m
      ]
