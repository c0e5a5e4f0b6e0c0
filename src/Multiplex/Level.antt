-- ===== src/Multiplex/Level.antt =====
-- 8.7/epollServer.1/epollServer.hpp, epoll.hpp: a level-triggered epoll server that answers each message by
-- a function.
pub mod Watched
use my_linux.Base.{
  ℕ, zero, suc, ◌+◌, ◌-◌, ◌%◌, Bool, true, false, Option, none, some, List, [], ◌∷◌, ◌++◌, ltb,
  ◌==◌, if◌then◌else◌, set, length,
}
use my_linux.Text.{Bytes, c_string}
use my_linux.Multiplex.{
  Accepted, accepted, accept_failed, Received, received, recv_failed, taken, FdSet, put,
}

-- `class epollServer`, with the descriptors that its epoll watches and those that the process has open, what
-- its system calls will return in order, and what it has sent.
pub record LevelServer : Type 0 where
  pub listensock : ℕ
  pub watched : FdSet
  pub opened : FdSet
  pub accepts : List Accepted
  pub recvs : List Received
  pub outputs : List (ℕ × Bytes)

-- `exit` after a failed AddEvent, undefined behaviour, or a server that goes on.
pub data Served : Type 0 where
  exited undefined : Served
  goes : LevelServer → Served

-- `init_server`, with the listening socket that it made.
unfoldable pub init_level : ℕ → List Accepted → List Received → LevelServer
init_level listen accepts recvs = record {
  listensock = listen;
  watched = λ f. false;
  opened = λ f. f == listen;
  accepts = accepts;
  recvs = recvs;
  outputs = [];
}

-- `AddEvent`, which fails on a descriptor that is watched already.
unfoldable pub watch : LevelServer → ℕ → Served
watch s fd = if s.watched fd then exited else goes (record s { watched = put s.watched fd true })

-- `DelEvent` and `close`
unfoldable pub unwatch : LevelServer → ℕ → LevelServer
unwatch s fd = record s { watched = put s.watched fd false; opened = put s.opened fd false }

-- `Accepter`. `accept` never gives a descriptor that is open already.
unfoldable pub take_client : LevelServer → Served
unfolding watch
take_client s = elim s.accepts [
  | [] ↦ goes s
  | a ∷ rest ↦ elim a [
    | accept_failed ↦ goes (record s { accepts = rest })
    | accepted fd ip port ↦
        if s.opened fd
        then goes (record s { accepts = rest })
        else watch (record s { accepts = rest; opened = put s.opened fd true }) fd
  ]
]

-- `request[n - 1] = 0; request[n - 2] = 0;` and the text of the request, where the second store is outside
-- the buffer when `n` is 1.
unfoldable pub request_text : Bytes → Option Bytes
request_text bytes =
    if ltb (length bytes) 2
    then none
    else c_string (set (set bytes (length bytes - 1) 0) (length bytes - 2) 0)

module _ (func : Bytes → Bytes) where
  -- `IOService`
  unfoldable pub serve_client : LevelServer → ℕ → Served
  unfolding unwatch request_text
  serve_client s fd = elim s.recvs [
    | [] ↦ goes (unwatch s fd)
    | r ∷ rest ↦
        let t = record s { recvs = rest } in
        elim r [
          | recv_failed ↦ goes (unwatch t fd)
          | received all ↦ elim (taken all) [
            | [] ↦ goes (unwatch t fd)
            | b ∷ bytes ↦ elim (request_text (b ∷ bytes)) [
              | none ↦ undefined
              | some text ↦ goes (record t { outputs = t.outputs ++ ((fd, func text) ∷ []) })
            ]
          ]
        ]
  ]

  -- One turn of `HandlerEvents`; EPOLLIN is bit 0.
  unfoldable pub serve_event : LevelServer → ℕ → ℕ → Served
  unfolding serve_client take_client
  serve_event s fd event =
      if event % 2 == 1
      then (if fd == s.listensock then take_client s else serve_client s fd)
      else goes s

  unfoldable pub serve_events : LevelServer → List (ℕ × ℕ) → Served
  unfolding serve_event
  serve_events s [] = goes s
  serve_events s (e ∷ es) = elim (serve_event s e.0 e.1) [
    | exited ↦ exited
    | undefined ↦ undefined
    | goes t ↦ serve_events t es
  ]

  -- The loop of `start_server`: each `epoll_wait` returns the events that are ready, none in time or on an
  -- error.
  unfoldable pub serve_waits : LevelServer → List (List (ℕ × ℕ)) → Served
  unfolding serve_events
  serve_waits s [] = goes s
  serve_waits s (w ∷ ws) = elim (serve_events s w) [
    | exited ↦ exited
    | undefined ↦ undefined
    | goes t ↦ serve_waits t ws
  ]

  unfoldable pub start_level : LevelServer → List (List (ℕ × ℕ)) → Served
  unfolding watch serve_waits
  start_level s ws = elim (watch s s.listensock) [
    | exited ↦ exited
    | undefined ↦ undefined
    | goes t ↦ serve_waits t ws
  ]
