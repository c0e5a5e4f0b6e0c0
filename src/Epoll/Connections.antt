-- ===== src/Epoll/Connections.antt =====
-- How connections come and go: `AddConnection`, `Accepter` and `Excepter` of
-- 8.11/epollServer.2/epollServer.hpp, with the calls of 8.11/epollServer.2/epoll.hpp.
use my_linux.Base.{ℕ, suc, Bool, true, false, none, some, List, [], ◌∷◌, ltb, ◌==◌, if◌then◌else◌}
use my_linux.Text.{Bytes}
use my_linux.Epoll.{
  Mask, in_edge, listener, client, Connection, again, intr, other, Accepted, accepted,
  accept_failed, done, assertion_failed, M, ◌>>=◌, ◌>>◌, pure, fail, update, load,
}

-- `Epoll::AddEvent`, `ModEvent` and `DelEvent`: the kernel refuses to add a descriptor that it has,
-- and to change or remove one that it has not.
unfoldable pub add_event : ℕ → Mask → M Bool
add_event fd event s = elim (s.interest fd) [
  | none ↦ done true (record s { interest = update s.interest fd (some event) })
  | some _ ↦ done false s
]

unfoldable pub mod_event : ℕ → Mask → M Bool
mod_event fd event s = elim (s.interest fd) [
  | none ↦ done false s
  | some _ ↦ done true (record s { interest = update s.interest fd (some event) })
]

unfoldable pub del_event : ℕ → M Bool
del_event fd s = elim (s.interest fd) [
  | none ↦ done false s
  | some _ ↦ done true (record s { interest = update s.interest fd none })
]

-- `new connection(…)` with `Register` and the assignment of `_events`.
unfoldable pub new_connection : ℕ → Mask → Bytes → ℕ → M ℕ
new_connection fd event ip port s =
    done s.next (record s { heap = update s.heap s.next (some fresh); next = suc s.next })
  where
    fresh : Connection
    fresh = record {
      fd = fd;
      role = if fd == s.listensock then listener else client;
      inbuffer = [];
      outbuffer = [];
      client_ip = ip;
      client_port = port;
      events = event;
    }

-- `_connections.emplace(fd, conn)` leaves an entry that is there.
unfoldable pub emplace : ℕ → ℕ → M (Unit {0})
emplace fd p s = elim (s.connections fd) [
  | none ↦ done tt (record s { connections = update s.connections fd (some p) })
  | some _ ↦ done tt s
]

-- The event set that goes to the kernel is EPOLLIN | EPOLLET, whatever `event` is.
unfoldable pub add_connection : ℕ → Mask → Bytes → ℕ → M (Unit {0})
unfolding new_connection emplace add_event
add_connection fd event ip port = do
  p ← new_connection fd event ip port
  emplace fd p
  ret ← add_event fd in_edge
  if ret then pure tt else fail assertion_failed

unfoldable pub set_accepts : List Accepted → M (Unit {0})
set_accepts rest s = done tt (record s { accepts = rest })

-- The loop of `Accepter` over the results of `accept`. Its condition, `conn->_events | EPOLLET`,
-- reads the connection and is never 0. A descriptor that is not above 0 counts as an error.
unfoldable pub accept_loop : ℕ → List Accepted → M (Unit {0})
unfolding set_accepts load
accept_loop p [] = set_accepts []
accept_loop p (accepted fd ip port ∷ rest) =
    let on = accept_loop p rest in
    do
      set_accepts rest
      if ltb 0 fd then add_connection fd in_edge ip port else pure tt
      _ ← load p
      on
accept_loop p (accept_failed again ∷ rest) = set_accepts rest
accept_loop p (accept_failed intr ∷ rest) =
    let on = accept_loop p rest in do set_accepts rest; _ ← load p; on
accept_loop p (accept_failed other ∷ rest) =
    let on = accept_loop p rest in do set_accepts rest; _ ← load p; on

unfoldable pub accepter : ℕ → M (Unit {0})
unfolding accept_loop
accepter p s = accept_loop p s.accepts s

-- `_connections.erase(fd)`, `close(fd)` and `delete conn`.
unfoldable pub release : ℕ → ℕ → M (Unit {0})
release fd p s = done tt (record s {
  connections = update s.connections fd none;
  closed = fd ∷ s.closed;
  heap = update s.heap p none;
})

unfoldable pub excepter : ℕ → M (Unit {0})
unfolding load del_event release
excepter p = do conn ← load p; _ ← del_event conn.fd; release conn.fd p
