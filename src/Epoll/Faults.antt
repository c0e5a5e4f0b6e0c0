-- ===== src/Epoll/Faults.antt =====
-- Where the reactor of 8.11/epollServer.2/epollServer.hpp does other than it means to.
use my_linux.Base.{
  ℕ, ◌≡◌, sym, true, Option, some, [], ◌∷◌, ◌++◌, arith, drop, drop-append, length, append_assoc,
  ◌||◌,
}
use my_linux.Text.{Bytes, c_string}
use my_linux.Text.Find.{Lacks, Lacks-append, c_string_lem}
use my_linux.Protocol.Json.{Json}
use my_linux.Protocol.Message.{Request, Response}
use my_linux.Epoll.{Role, listener, Server, bad_function_call, done, crash, store}
use my_linux.Epoll.Connections.{accepter, accept_loop, set_accepts}
use my_linux.Epoll.Io.{append_received, call_sender}
use my_linux.Epoll.Loop.{Ready, call_reciver, handle_event}
use my_linux.Epoll.Invariant.{Live}
use my_linux.Epoll.Invariant.Steps.{load_lem}

-- A text that ends behind the bytes received, by a NUL or by the end of `stale` text before one.
c_string_stale :
    (bytes before junk behind : Bytes)
    → Lacks 0 bytes
    → Lacks 0 junk
    → length before ≡ length bytes
    → c_string (bytes ++ drop (length bytes) (before ++ (junk ++ (0 ∷ behind))))
      ≡ some (bytes ++ junk)
c_string_stale bytes before junk behind h k e =
    rw
      (
        drop-append before (junk ++ (0 ∷ behind)) {n = length bytes} (sym e),
        ← append_assoc bytes junk (0 ∷ behind),
      )
      (c_string_lem (bytes ++ junk) behind (Lacks-append 0 bytes junk h k))

-- The statement `buffer[n] == 0;` terminates nothing: what the array held behind the bytes received,
-- up to its first NUL, is appended to the connection's buffer as if the peer had sent it.
pub append_received_stale :
    (role : Role) (p : ℕ) (s : Server) (l : Live role p s) (bytes before junk behind : Bytes)
    → Lacks 0 bytes
    → Lacks 0 junk
    → length before ≡ length bytes
    → append_received p bytes (before ++ (junk ++ (0 ∷ behind))) s
      ≡ store p (record (l.conn) { inbuffer = l.conn.inbuffer ++ (bytes ++ junk) }) s
unfolding append_received
append_received_stale role p s l bytes before junk behind h k e =
    rw (load_lem p s l, c_string_stale bytes before junk behind h k e)

module _ (json : Json) (func : Request → Option Response) where
  -- An error or a hang-up on the listening socket, with no connection waiting, ends the server: its event
  -- is widened to a writable one, and the listening connection has no callback for that.
  pub handle_event_listener :
      (r : Ready) (p : ℕ) (s : Server) (l : Live listener p s)
      → s.connections r.fd ≡ some p
      → s.accepts ≡ []
      → (r.event.err || r.event.hup) ≡ true
      → handle_event json func r s ≡ crash bad_function_call
  unfolding handle_event
  handle_event_listener r p s l e none_waits bad = ground (arith, accepting, sending)
    where
      accepting : call_reciver json func p s ≡ done tt (record s { accepts = [] })
      accepting =
          unfold call_reciver accepter in
          rw (load_lem p s l, l.kind, none_waits, accept_loop, set_accepts)

      sending : call_sender p (record s { accepts = [] }) ≡ crash bad_function_call
      sending =
          unfold call_sender in
          rw (
            load_lem p (record s { accepts = [] })
                (record { conn = l.conn; at = l.at; kind = l.kind }),
            l.kind,
          )
