-- ===== src/Epoll/Loop.antt =====
-- `LoopOnce`, `Init_Server` and `Dispatcher` of 8.11/epollServer.2/epollServer.hpp.
use my_linux.Base.{ℕ, Bool, true, ◌||◌, Option, none, some, List, [], ◌∷◌, if◌then◌else◌, take}
use my_linux.Text.{codes}
use my_linux.Protocol.Json.{Json}
use my_linux.Protocol.Message.{Request, Response}
use my_linux.Epoll.Connections.{add_connection, accepter}
use my_linux.Epoll.Io.{call_sender, reciver}
use my_linux.Epoll.{
  Mask, in_edge, listener, client, Accepted, Received, Sent, Server, done, M, ◌>>=◌, ◌>>◌, pure,
  load,
}

-- An entry of the array that `epoll_wait` fills.
pub record Ready : Type 0 where
  pub fd : ℕ
  pub event : Mask

-- `if (event & EPOLLERR || event & EPOLLHUP) event |= EPOLLIN | EPOLLOUT`
unfoldable pub widened : Mask → Mask
widened event =
    if event.err || event.hup then record event { readable = true; writable = true } else event

-- A server with no connection yet, on its listening socket.
abbrev pub fresh_server : ℕ → Server
fresh_server listensock = record {
  listensock = listensock;
  connections = λ _. none;
  heap = λ _. none;
  next = 0;
  interest = λ _. none;
  closed = [];
  output = [];
  accepts = [];
  recvs = [];
  sends = [];
}

unfoldable pub init_server : M (Unit {0})
init_server s = add_connection s.listensock in_edge (codes "127.0.0.1") 8888 s

-- `if (flag && ConnectionIsExists(fd)) _connections[fd]->…(_connections[fd])`
unfoldable pub if_exists : Bool → ℕ → (ℕ → M (Unit {0})) → M (Unit {0})
if_exists flag fd call s =
    if flag then elim (s.connections fd) [ none ↦ done tt s | some p ↦ call p s ] else done tt s

-- What the kernel gives in one round.
pub record Round : Type 0 where
  pub ready : List Ready
  pub accepts : List Accepted
  pub recvs : List Received
  pub sends : List Sent

module _ (json : Json) (func : Request → Option Response) where
  -- `conn->_reciver(conn)`
  unfoldable pub call_reciver : ℕ → M (Unit {0})
  unfolding load accepter reciver
  call_reciver p = do
    conn ← load p
    elim conn.role [ listener ↦ accepter p | client ↦ reciver json func p ]

  unfoldable pub handle_event : Ready → M (Unit {0})
  unfolding widened if_exists call_reciver call_sender
  handle_event r = do
    let event = widened r.event
    if_exists event.readable r.fd call_reciver
    if_exists event.writable r.fd call_sender

  unfoldable pub handle_events : List Ready → M (Unit {0})
  handle_events [] = pure tt
  handle_events (r ∷ rs) = handle_event r >> handle_events rs

  -- `epoll_wait` fills in 64 entries at most.
  unfoldable pub loop_once : List Ready → M (Unit {0})
  loop_once rs = handle_events (take 64 rs)

  unfoldable pub dispatcher : List Round → M (Unit {0})
  dispatcher [] s = done tt s
  dispatcher (r ∷ rs) s =
      let start = record s { accepts = r.accepts; recvs = r.recvs; sends = r.sends } in
      let on = dispatcher rs in (loop_once r.ready >> on) start
