-- ===== src/TcpServer.antt =====
-- 7.19/tcp_socket/tcp_server.hpp: what the server does for one client.
pub mod Answers
use my_linux.Base.{ℕ, Option, none, some, List, [], ◌∷◌, ◌++◌, ltb, if◌then◌else◌, length, take}
use my_linux.Text.{Bytes, c_string}
use my_linux.Multiplex.{Received, received, recv_failed}

-- How `service` ends: the socket closed, after it has written the bytes, or undefined behaviour.
pub data ServiceEnd : Type 0 where
  closed : Bytes → ServiceEnd
  overwrites : ServiceEnd

-- What `read` stores into `buffer`.
unfoldable pub read_2048 : Bytes → Bytes
read_2048 all = take 2048 all

-- `buffer[n] = 0; std::string res = _func(buffer);`, where a full buffer has no place for the terminator.
unfoldable pub respond_to : (Bytes → Bytes) → Bytes → Option Bytes
respond_to func bytes =
    if ltb (length bytes) 2048
    then elim (c_string (bytes ++ (0 ∷ []))) [ none ↦ none | some text ↦ some (func text) ]
    else none

-- `service` on what `read` returns, which fails after the end of the list; `write` writes all of `res`.
unfoldable pub service : (Bytes → Bytes) → List Received → Bytes → ServiceEnd
service func [] written = closed written
service func (recv_failed ∷ rs) written = closed written
service func (received all ∷ rs) written =
    let next : Bytes → ServiceEnd = service func rs in
    elim (read_2048 all) [
      | [] ↦ closed written
      | b ∷ bytes ↦ elim (respond_to func (b ∷ bytes)) [
        | none ↦ overwrites
        | some res ↦ next (written ++ res)
      ]
    ]
