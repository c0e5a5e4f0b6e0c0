-- ===== src/Epoll.antt =====
-- 8.11/epollServer.2/epollServer.hpp: an edge-triggered reactor that serves the calculator. This file
-- holds the server's state, the monad of its functions and what they ask of the kernel; the handlers
-- stand in the modules below.
pub mod Requests
pub mod Connections
pub mod Io
pub mod Loop
pub mod Invariant
pub mod Sends
pub mod Deliveries
pub mod Faults
use my_linux.Base.{
  ℕ, suc, ◌≡◌, Bool, true, false, Option, none, some, List, [], ◌∷◌, ◌++◌, ◌==◌, if◌then◌else◌,
}
use my_linux.Text.{Bytes}

-- The bits of an event set that the server looks at: EPOLLIN, EPOLLOUT, EPOLLET, EPOLLERR, EPOLLHUP.
pub record Mask : Type 0 where
  pub readable : Bool
  pub writable : Bool
  pub edge : Bool
  pub err : Bool
  pub hup : Bool

abbrev pub in_edge : Mask
in_edge = record { readable = true; writable = false; edge = true; err = false; hup = false }

-- Which callbacks `Register` was given: `Accepter` and two null ones, or `Reciver`, `Sender` and
-- `Excepter`.
pub data Role : Type 0 where
  listener client : Role

-- `class connection`
pub record Connection : Type 0 where
  pub fd : ℕ
  pub role : Role
  pub inbuffer : Bytes
  pub outbuffer : Bytes
  pub client_ip : Bytes
  pub client_port : ℕ
  pub events : Mask

-- `EAGAIN` and `EWOULDBLOCK`, `EINTR`, any other.
pub data Errno : Type 0 where
  again intr other : Errno

-- The results of the system calls that the server makes, which the kernel chooses. `received` holds the bytes
-- of one `recv` (none at the end of the stream) and what the local array held before it. `sent` holds
-- the most bytes that the kernel takes (0 for a failure) and the value of `errno`.
pub data Accepted : Type 0 where
  accepted : ℕ → Bytes → ℕ → Accepted
  accept_failed : Errno → Accepted

pub data Received : Type 0 where
  received : Bytes → Bytes → Received
  recv_failed : Errno → Received

pub data Sent : Type 0 where
  sent : ℕ → Errno → Sent

-- `class epollServer`: `connections` maps a descriptor to the address of its connection, and `heap`
-- an address to the connection there while it is allocated. `interest` is the kernel's epoll set,
-- `closed` and `output` are what was closed and sent, latest first. The last three are the results
-- of the system calls to come; where they run out the kernel says `EAGAIN`.
pub record Server : Type 0 where
  pub listensock : ℕ
  pub connections : ℕ → Option ℕ
  pub heap : ℕ → Option Connection
  pub next : ℕ
  pub interest : ℕ → Option Mask
  pub closed : List ℕ
  pub output : List (ℕ × Bytes)
  pub accepts : List Accepted
  pub recvs : List Received
  pub sends : List Sent

-- What ends the process.
pub data Crash : Type 0 where
  use_after_free bad_function_call assertion_failed uncaught over_read diverged : Crash

pub data Outcome (A : Type 0) : Type 0 where
  done : A → Server → Outcome A
  crash : Crash → Outcome A

abbrev pub M : Type 0 → Type 0
M A = Server → Outcome A

abbrev pub after : {A B : Type 0} → Outcome A → (A → M B) → Outcome B
after (done a s) f = f a s
after (crash k) f = crash k

infixl 5 ◌>>=◌ ◌>>◌
abbrev pub ◌>>=◌ : {A B : Type 0} → M A → (A → M B) → M B
◌>>=◌ m f s = after (m s) f

abbrev pub ◌>>◌ : {B : Type 0} → M (Unit {0}) → M B → M B
m >> k = m >>= λ _. k

abbrev pub pure : {A : Type 0} → A → M A
pure a s = done a s

abbrev pub fail : {A : Type 0} → Crash → M A
fail k s = crash k

abbrev pub update {ℓ} : {V : Type ℓ} → (ℕ → Option V) → ℕ → Option V → ℕ → Option V
update f k v q = if k == q then v else f q

-- A read or a write through a pointer to a connection.
unfoldable pub load : ℕ → M Connection
load p s = elim (s.heap p) [ none ↦ crash use_after_free | some c ↦ done c s ]

unfoldable pub store : ℕ → Connection → M (Unit {0})
store p c s = elim (s.heap p) [
  | none ↦ crash use_after_free
  | some _ ↦ done tt (record s { heap = update s.heap p (some c) })
]
