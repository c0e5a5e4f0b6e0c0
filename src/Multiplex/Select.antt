-- ===== src/Multiplex/Select.antt =====
-- 8.6/selectServer.2/SelectServer.hpp: a server that waits by `select` on the descriptors of an array, and
-- echoes what its clients send.
pub mod Slots
pub mod Services
pub mod Rounds
pub mod Answers
use my_linux.Base.{
  ℕ, zero, suc, ◌+◌, ◌-◌, ◌/◌, ◌%◌, Bool, true, false, ◌&&◌, Option, none, some, List, [], ◌∷◌,
  ◌++◌, ltb, ◌==◌, if◌then◌else◌, map, get_elem?, set, replicate, take, drop, length,
}
use my_linux.Text.{Bytes, codes, c_string}
use my_linux.Multiplex.{
  terminated_back, Accepted, accepted, accept_failed, Received, received, recv_failed, taken,
  find_free, FdSet, put,
}

-- `type_t`; no descriptor is default_fd.
pub record Slot : Type 0 where
  pub fd : Option ℕ
  pub event : ℕ
  pub client_ip : Bytes
  pub client_port : ℕ

-- `class SelectServer`, with the descriptors the process has open, what its system calls will return
-- in order, and what it has sent.
pub record Server : Type 0 where
  pub listensock : ℕ
  pub fd_array : List Slot
  pub opened : FdSet
  pub accepts : List Accepted
  pub recvs : List Received
  pub outputs : List (ℕ × Bytes)

abbrev pub free_slot : Slot
free_slot = record { fd = none; event = 0; client_ip = []; client_port = 0 }

-- `sizeof(fd_set) * 8`, which is also FD_SETSIZE.
abbrev pub fd_size : ℕ
fd_size = 1024

-- READ_EVENT and WRITE_EVENT
abbrev pub reads : ℕ → Bool
reads event = event % 2 == 1

abbrev pub writes : ℕ → Bool
writes event = event / 2 % 2 == 1

abbrev pub fds : Server → List (Option ℕ)
fds s = map (λ x. x.fd) s.fd_array

-- `init_server`, with the listening socket that it made.
unfoldable pub init_server : ℕ → List Accepted → List Received → Server
init_server listen accepts recvs = record {
  listensock = listen;
  fd_array = replicate fd_size free_slot;
  opened = λ f. f == listen;
  accepts = accepts;
  recvs = recvs;
  outputs = [];
}

-- The listening socket goes to the first place.
unfoldable pub add_listensock : Server → Server
add_listensock s = record s {
  fd_array = set s.fd_array 0 (record free_slot { fd = some s.listensock; event = 1 });
}

-- FD_SET outside the set is undefined.
abbrev pub add_to : ℕ → FdSet → Option FdSet
add_to fd set_of = if ltb fd fd_size then some (put set_of fd true) else none

abbrev pub add_if : Bool → ℕ → FdSet → Option FdSet
add_if b fd set_of = if b then add_to fd set_of else some set_of

-- What `select` waits on: the descriptors to read, those to write, and the greatest one.
unfoldable pub fill_sets : List Slot → FdSet → FdSet → ℕ → Option (FdSet × FdSet × ℕ)
fill_sets [] rdfds wtfds maxfd = some (rdfds, wtfds, maxfd)
fill_sets (x ∷ xs) rdfds wtfds maxfd = elim x.fd [
  | none ↦ fill_sets xs rdfds wtfds maxfd
  | some fd ↦ elim (add_if (reads x.event) fd rdfds) [
    | none ↦ none
    | some r ↦ elim (add_if (writes x.event) fd wtfds) [
      | none ↦ none
      | some w ↦ fill_sets xs r w (if ltb maxfd fd then fd else maxfd)
    ]
  ]
]

-- `close`
abbrev pub close : Server → ℕ → Server
close s fd = record s { opened = put s.opened fd false }

-- The new client goes to a free place, or is closed when there is none. `accept` never gives a descriptor
-- that is open already.
unfoldable pub add_client : Server → ℕ → Bytes → ℕ → Server
add_client s fd ip port =
    if s.opened fd
    then s
    else let t = record s { opened = put s.opened fd true } in
      elim (find_free (drop 1 (fds s)) 1) [
        | none ↦ close t fd
        | some i ↦ record t {
          fd_array =
              set t.fd_array i
                (record { fd = some fd; event = 1; client_ip = ip; client_port = port });
        }
      ]

unfoldable pub accepter : Server → Server
unfolding add_client
accepter s = elim s.accepts [
  | [] ↦ s
  | a ∷ rest ↦ elim a [
    | accept_failed ↦ record s { accepts = rest }
    | accepted fd ip port ↦ add_client (record s { accepts = rest }) fd ip port
  ]
]

-- `close(fd)`, and the place becomes free.
unfoldable pub drop_client : Server → ℕ → ℕ → Server
drop_client s i fd = record (close s fd) { fd_array = set s.fd_array i free_slot }

-- `buffer[n - 1] = 0`, and the answer: what is left up to the first NUL, and a suffix; `none` is a store
-- outside the buffer.
unfoldable pub answer : Bytes → Option Bytes
answer bytes = elim (terminated_back 1 bytes) [
  | none ↦ none
  | some text ↦ some (text ++ codes " server echo: ")
]

-- `none` is undefined behaviour.
unfoldable pub io_service : Server → ℕ → ℕ → Option Server
unfolding drop_client answer
io_service s i fd = elim s.recvs [
  | [] ↦ some (drop_client s i fd)
  | r ∷ rest ↦
      let t = record s { recvs = rest } in
      elim r [
        | recv_failed ↦ some (drop_client t i fd)
        | received all ↦ elim (taken all) [
          | [] ↦ some (drop_client t i fd)
          | b ∷ bytes ↦ elim (answer (b ∷ bytes)) [
            | none ↦ none
            | some resp ↦ some (record t { outputs = t.outputs ++ ((fd, resp) ∷ []) })
          ]
        ]
      ]
]

-- One turn of `HandlerEvent`; an event to write is ready and nothing is done.
unfoldable pub handle_slot : Server → FdSet → FdSet → ℕ → Option Server
unfolding io_service accepter
handle_slot s rdfds wtfds i = elim (get_elem? s.fd_array i) [
  | none ↦ none
  | some x ↦ elim x.fd [
    | none ↦ some s
    | some fd ↦
        if reads x.event && rdfds fd
        then (if fd == s.listensock then some (accepter s) else io_service s i fd)
        else if writes x.event && wtfds fd
        then some s
        else some s
  ]
]

unfoldable pub handler_event : ℕ → ℕ → Server → FdSet → FdSet → Option Server
unfolding handle_slot
handler_event zero i s rdfds wtfds = some s
handler_event (suc n) i s rdfds wtfds = elim (handle_slot s rdfds wtfds i) [
  | none ↦ none
  | some t ↦ handler_event n (i + 1) t rdfds wtfds
]

-- What `select` returns: nothing in time, an error, or the descriptors of the two sets that are ready.
pub data Selected : Type 0 where
  timeout failed : Selected
  ready : FdSet → FdSet → Selected

-- One turn of the loop of `start_server`; only what was waited on is ready.
unfoldable pub round : Server → Selected → Option Server
unfolding fill_sets handler_event
round s result = elim (fill_sets s.fd_array (λ f. false) (λ f. false) s.listensock) [
  | none ↦ none
  | some (rdfds, wtfds, maxfd) ↦ elim result [
    | timeout ↦ some s
    | failed ↦ some s
    | ready r w ↦ handler_event fd_size 0 s (λ f. rdfds f && r f) (λ f. wtfds f && w f)
  ]
]

unfoldable pub rounds : Server → List Selected → Option Server
unfolding round
rounds s [] = some s
rounds s (result ∷ results) = elim (round s result) [ none ↦ none | some t ↦ rounds t results ]

-- `start_server`, for as long as `select` returns.
unfoldable pub start_server : Server → List Selected → Option Server
unfolding add_listensock rounds
start_server s results = rounds (add_listensock s) results
