-- ===== src/Multiplex/Poll.antt =====
-- 8.7/pollServer/PollServer.hpp: a server that waits by `poll` on an array of descriptors, and echoes
-- what its clients send.
pub mod Table
pub mod Rounds
pub mod Faults
use my_linux.Base.{
  ℕ, zero, suc, ◌+◌, ◌-◌, ◌%◌, Bool, true, false, ◌&&◌, Option, none, some, List, [], ◌∷◌, ◌++◌,
  ltb, ◌==◌, if◌then◌else◌, map, get_elem?, set, replicate, drop, length,
}
use my_linux.Text.{Bytes, codes, c_string}
use my_linux.Multiplex.{
  Accepted, accepted, accept_failed, Received, received, recv_failed, taken, find_free, FdSet, put,
}

-- `pollfd`; no descriptor is default_fd, and the events are masks of bits.
pub record PollFd : Type 0 where
  pub fd : Option ℕ
  pub events : ℕ
  pub revents : ℕ

-- `class PollServer`, with the descriptors the process has open, what its system calls will return
-- in order, and what it has sent.
pub record PollServer : Type 0 where
  pub listensock : ℕ
  pub fd_array : List PollFd
  pub opened : FdSet
  pub accepts : List Accepted
  pub recvs : List Received
  pub outputs : List (ℕ × Bytes)

abbrev pub free_fd : PollFd
free_fd = record { fd = none; events = 0; revents = 0 }

-- `N`
abbrev pub array_size : ℕ
array_size = 4096

-- POLLIN is bit 0.
abbrev pub pollin : ℕ → Bool
pollin mask = mask % 2 == 1

abbrev pub poll_fds : PollServer → List (Option ℕ)
poll_fds s = map (λ x. x.fd) s.fd_array

-- `init_server`, with the listening socket that it made.
unfoldable pub init_poll : ℕ → List Accepted → List Received → PollServer
init_poll listen accepts recvs = record {
  listensock = listen;
  fd_array = replicate array_size free_fd;
  opened = λ f. f == listen;
  accepts = accepts;
  recvs = recvs;
  outputs = [];
}

unfoldable pub watch_listensock : PollServer → PollServer
watch_listensock s = record s {
  fd_array = set s.fd_array 0 (record free_fd { fd = some s.listensock; events = 1 });
}

abbrev pub close_fd : PollServer → ℕ → PollServer
close_fd s fd = record s { opened = put s.opened fd false }

-- The new client goes to a free place, or is closed when there is none. `accept` never gives a descriptor
-- that is open already.
unfoldable pub watch_client : PollServer → ℕ → PollServer
watch_client s fd =
    if s.opened fd
    then s
    else let t = record s { opened = put s.opened fd true } in
      elim (find_free (drop 1 (poll_fds s)) 1) [
        | none ↦ close_fd t fd
        | some i ↦ record t {
          fd_array = set t.fd_array i (record { fd = some fd; events = 1; revents = 0 });
        }
      ]

unfoldable pub accept_client : PollServer → PollServer
unfolding watch_client
accept_client s = elim s.accepts [
  | [] ↦ s
  | a ∷ rest ↦ elim a [
    | accept_failed ↦ record s { accepts = rest }
    | accepted fd ip port ↦ watch_client (record s { accepts = rest }) fd
  ]
]

-- `close(fd)`, and the place becomes free.
unfoldable pub forget_client : PollServer → ℕ → ℕ → PollServer
forget_client s i fd = record (close_fd s fd) { fd_array = set s.fd_array i free_fd }

-- `buffer[n - 1] = 0; buffer[n - 2] = 0;` and the answer, where the second store is outside the buffer
-- when `n` is 1.
unfoldable pub poll_answer : Bytes → Option Bytes
poll_answer bytes =
    if ltb (length bytes) 2
    then none
    else elim (c_string (set (set bytes (length bytes - 1) 0) (length bytes - 2) 0)) [
      | none ↦ none
      | some text ↦ some (text ++ codes " server echo: ")
    ]

-- `none` is undefined behaviour.
unfoldable pub poll_io_service : PollServer → ℕ → ℕ → Option PollServer
unfolding forget_client poll_answer
poll_io_service s i fd = elim s.recvs [
  | [] ↦ some (forget_client s i fd)
  | r ∷ rest ↦
      let t = record s { recvs = rest } in
      elim r [
        | recv_failed ↦ some (forget_client t i fd)
        | received all ↦ elim (taken all) [
          | [] ↦ some (forget_client t i fd)
          | b ∷ bytes ↦ elim (poll_answer (b ∷ bytes)) [
            | none ↦ none
            | some resp ↦ some (record t { outputs = t.outputs ++ ((fd, resp) ∷ []) })
          ]
        ]
      ]
]

-- One turn of `HandlerEvent`.
unfoldable pub handle_place : PollServer → ℕ → Option PollServer
unfolding poll_io_service accept_client
handle_place s i = elim (get_elem? s.fd_array i) [
  | none ↦ none
  | some x ↦ elim x.fd [
    | none ↦ some s
    | some fd ↦
        if (fd == s.listensock) && pollin x.revents
        then some (accept_client s)
        else if pollin x.revents
        then poll_io_service s i fd
        else some s
  ]
]

unfoldable pub handle_places : ℕ → ℕ → PollServer → Option PollServer
unfolding handle_place
handle_places zero i s = some s
handle_places (suc n) i s = elim (handle_place s i) [
  | none ↦ none
  | some t ↦ handle_places n (i + 1) t
]

-- What `poll` returns: nothing in time, an error, or the events of each descriptor.
pub data Polled : Type 0 where
  poll_timeout poll_failed : Polled
  poll_ready : (ℕ → ℕ) → Polled

-- `poll` writes the `revents` of every place, 0 for a negative descriptor.
abbrev pub with_events : (ℕ → ℕ) → PollFd → PollFd
with_events r x = record x { revents = elim x.fd [ none ↦ 0 | some fd ↦ r fd ] }

-- One turn of the loop of `start_server`.
unfoldable pub poll_round : PollServer → Polled → Option PollServer
unfolding handle_places
poll_round s poll_timeout = some (record s { fd_array = map (with_events (λ f. 0)) s.fd_array })
poll_round s poll_failed = some s
poll_round s (poll_ready r) =
    handle_places array_size 0 (record s { fd_array = map (with_events r) s.fd_array })

unfoldable pub poll_rounds : PollServer → List Polled → Option PollServer
unfolding poll_round
poll_rounds s [] = some s
poll_rounds s (result ∷ results) = elim (poll_round s result) [
  | none ↦ none
  | some t ↦ poll_rounds t results
]

-- `start_server`, for as long as `poll` returns.
unfoldable pub start_poll : PollServer → List Polled → Option PollServer
unfolding watch_listensock poll_rounds
start_poll s results = poll_rounds (watch_listensock s) results
