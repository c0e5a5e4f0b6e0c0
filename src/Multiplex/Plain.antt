-- ===== src/Multiplex/Plain.antt =====
-- 8.6/selectServer.1/SelectServer.hpp: the first select server, over an array of plain descriptors.
pub mod Agreement
pub mod Rounds
use my_linux.Base.{
  ℕ, zero, suc, ◌+◌, Bool, true, false, ◌&&◌, Option, none, some, List, [], ◌∷◌, ◌++◌, ltb, ◌==◌,
  if◌then◌else◌, get_elem?, set, replicate, drop, length, ◌-◌,
}
use my_linux.Text.{Bytes, codes, c_string}
use my_linux.Multiplex.{
  terminated_back, Accepted, accepted, accept_failed, Received, received, recv_failed, taken,
  find_free, FdSet, put,
}

-- `class SelectServer`, where none is default_fd, with the descriptors the process has open, what its
-- system calls will return in order, and what it has sent.
pub record PlainServer : Type 0 where
  pub listensock : ℕ
  pub fd_array : List (Option ℕ)
  pub opened : FdSet
  pub accepts : List Accepted
  pub recvs : List Received
  pub outputs : List (ℕ × Bytes)

-- `sizeof(fd_set) * 8`
abbrev pub plain_size : ℕ
plain_size = 1024

-- `init_server`, with the listening socket that it made.
unfoldable pub init_plain : ℕ → List Accepted → List Received → PlainServer
init_plain listen accepts recvs = record {
  listensock = listen;
  fd_array = replicate plain_size none;
  opened = λ f. f == listen;
  accepts = accepts;
  recvs = recvs;
  outputs = [];
}

-- The set to read and its greatest descriptor; FD_SET outside the set is undefined.
unfoldable pub fill_set : List (Option ℕ) → FdSet → ℕ → Option (FdSet × ℕ)
fill_set [] rdfds maxfd = some (rdfds, maxfd)
fill_set (none ∷ xs) rdfds maxfd = fill_set xs rdfds maxfd
fill_set (some fd ∷ xs) rdfds maxfd =
    let rest = fill_set xs (put rdfds fd true) (if ltb maxfd fd then fd else maxfd) in
    if ltb fd plain_size then rest else none

-- `Accepter`
unfoldable pub plain_accepter : PlainServer → PlainServer
plain_accepter s = elim s.accepts [
  | [] ↦ s
  | a ∷ rest ↦ elim a [
    | accept_failed ↦ record s { accepts = rest }
    | accepted fd ip port ↦
        if s.opened fd
        then record s { accepts = rest }
        else elim (find_free (drop 1 s.fd_array) 1) [
          | none ↦ record s { accepts = rest; opened = put (put s.opened fd true) fd false }
          | some i ↦ record s {
            accepts = rest;
            opened = put s.opened fd true;
            fd_array = set s.fd_array i (some fd);
          }
        ]
  ]
]

-- `close(fd); _fd_array[i] = default_fd;`
abbrev pub close_place : PlainServer → List Received → ℕ → ℕ → PlainServer
close_place s rest i fd = record s {
  recvs = rest;
  opened = put s.opened fd false;
  fd_array = set s.fd_array i none;
}

-- `buffer[n - 1] = 0`, and the answer.
unfoldable pub plain_answer : Bytes → Option Bytes
plain_answer bytes = elim (terminated_back 1 bytes) [
  | none ↦ none
  | some text ↦ some (text ++ codes " server echo: ")
]

-- `IOService`; `none` is undefined behaviour.
unfoldable pub plain_io_service : PlainServer → ℕ → ℕ → Option PlainServer
unfolding plain_answer
plain_io_service s i fd = elim s.recvs [
  | [] ↦ some (close_place s [] i fd)
  | r ∷ rest ↦ elim r [
    | recv_failed ↦ some (close_place s rest i fd)
    | received all ↦ elim (taken all) [
      | [] ↦ some (close_place s rest i fd)
      | b ∷ bytes ↦ elim (plain_answer (b ∷ bytes)) [
        | none ↦ none
        | some resp ↦ some (record s { recvs = rest; outputs = s.outputs ++ ((fd, resp) ∷ []) })
      ]
    ]
  ]
]

-- One turn of `HandlerEvent`.
unfoldable pub plain_place : PlainServer → FdSet → ℕ → Option PlainServer
unfolding plain_io_service plain_accepter
plain_place s rdfds i = elim (get_elem? s.fd_array i) [
  | none ↦ none
  | some x ↦ elim x [
    | none ↦ some s
    | some fd ↦
        if (fd == s.listensock) && rdfds fd
        then some (plain_accepter s)
        else if rdfds fd
        then plain_io_service s i fd
        else some s
  ]
]

unfoldable pub plain_handler_event : ℕ → ℕ → PlainServer → FdSet → Option PlainServer
unfolding plain_place
plain_handler_event zero i s rdfds = some s
plain_handler_event (suc n) i s rdfds = elim (plain_place s rdfds i) [
  | none ↦ none
  | some t ↦ plain_handler_event n (i + 1) t rdfds
]

-- What `select` returns: nothing in time, an error, or the descriptors that are ready to read.
pub data PlainSelected : Type 0 where
  no_event select_failed : PlainSelected
  readable : FdSet → PlainSelected

-- One turn of the loop of `start_server`; only what was waited on is ready.
unfoldable pub plain_round : PlainServer → PlainSelected → Option PlainServer
unfolding fill_set plain_handler_event
plain_round s result = elim (fill_set s.fd_array (λ f. false) s.listensock) [
  | none ↦ none
  | some (rdfds, maxfd) ↦ elim result [
    | no_event ↦ some s
    | select_failed ↦ some s
    | readable r ↦ plain_handler_event plain_size 0 s (λ f. rdfds f && r f)
  ]
]

unfoldable pub plain_rounds : PlainServer → List PlainSelected → Option PlainServer
unfolding plain_round
plain_rounds s [] = some s
plain_rounds s (result ∷ results) = elim (plain_round s result) [
  | none ↦ none
  | some t ↦ plain_rounds t results
]

-- `start_server`, for as long as `select` returns.
unfoldable pub start_plain : PlainServer → List PlainSelected → Option PlainServer
unfolding plain_rounds
start_plain s results =
    plain_rounds (record s { fd_array = set s.fd_array 0 (some s.listensock) }) results
