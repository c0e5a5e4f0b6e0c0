-- ===== src/Epoll/Sends.antt =====
-- What `Sender` of 8.11/epollServer.2/epollServer.hpp does to the output of a connection.
use my_linux.Base.{
  ℕ, ◌≡◌, Bool, true, false, none, some, List, [], ◌∷◌, ◌++◌, ◌==◌, ltb, min, if◌then◌else◌, arith,
  ◌-◌,
}
use my_linux.Text.{Bytes}
use my_linux.Epoll.{Mask, Connection, again, intr, other, Sent, sent, Server, ◌>>=◌, ◌>>◌, update}
use my_linux.Epoll.Invariant.{is_some}

-- The bytes sent to a descriptor, in the order in which they went out.
abbrev pub flow : ℕ → List (ℕ × Bytes) → Bytes
flow fd [] = []
flow fd ((g, bytes) ∷ out) = flow fd out ++ (if g == fd then bytes else [])

-- Edge-triggered, the connection is there with `left` as its output; the bytes that were sent and these make up
-- `all`.
pub record Keeps (p : ℕ) (fd : ℕ) (all left : Bytes) (s : Server) : Type 0 where
  pub conn : Connection
  pub at : s.heap p ≡ some conn
  pub out : conn.outbuffer ≡ left
  pub edge : conn.events.edge ≡ true
  pub same_fd : conn.fd ≡ fd
  pub watched : is_some (s.interest fd) ≡ true
  pub bytes : flow fd s.output ++ left ≡ all

-- Whether `send` fails, by these results of its calls, while some of `n` bytes wait: a result of 0 bytes is a failure, but
-- EAGAIN ends the calls and EINTR repeats them.
abbrev pub meets_failure : List Sent → ℕ → Bool
meets_failure [] n = false
meets_failure (sent count errno ∷ rest) n =
    let same = meets_failure rest n in
    let less = meets_failure rest (n - count) in
    if ltb 0 (min count n)
    then (if ltb count n then less else false)
    else elim errno [ again ↦ false | intr ↦ same | other ↦ true ]

-- After the loop: the connection is there by the flag, or it was closed after a failure, which `bad` says.
pub data Flushed (p : ℕ) (fd : ℕ) (all : Bytes) (bad : Bool) (flag : Bool) (s : Server)
    : Type 0 where
  kept :
      flag ≡ true
      → bad ≡ false
      → (left : Bytes) → Keeps p fd all left s
      → Flushed p fd all bad flag s
  closed :
      flag ≡ false
      → bad ≡ true
      → s.heap p ≡ none
      → s.connections fd ≡ none
      → (lost : Bytes) → flow fd s.output ++ lost ≡ all
      → Flushed p fd all bad flag s

abbrev pub waits : Bytes → Bool
waits [] = false
waits (_ ∷ _) = true

-- How `Sender` leaves a connection: closed after a failure, with the front of the output sent, or else
-- watched for writing just if output waits.
pub data Settled (p : ℕ) (fd : ℕ) (all : Bytes) (bad : Bool) (s : Server) : Type 0 where
  shut :
      bad ≡ true
      → s.heap p ≡ none
      → s.connections fd ≡ none
      → (lost : Bytes) → flow fd s.output ++ lost ≡ all
      → Settled p fd all bad s
  stays :
      bad ≡ false
      → (left : Bytes) (k : Keeps p fd all left s) (m : Mask) → s.interest fd ≡ some m
      → m.readable ≡ true
      → m.writable ≡ waits left
      → Settled p fd all bad s

module _ (p fd : ℕ) (all : Bytes) where
  abbrev enabled : Server → Connection → Mask → Server
  enabled s c m = record s {
    heap = update s.heap p (some (record c { events = m }));
    interest = update s.interest fd (some m);
  }

  enabled-Keeps :
      (s : Server) (left : Bytes) (k : Keeps p fd all left s) (m : Mask)
      → m.edge ≡ true
      → Keeps p fd all left (enabled s k.conn m)
  enabled-Keeps s left k m edge = record {
    conn = record (k.conn) { events = m };
    at = ground arith;
    out = k.out;
    edge = edge;
    same_fd = k.same_fd;
    watched = ground arith;
    bytes = k.bytes;
  }
