-- ===== src/Epoll/Invariant.antt =====
-- The invariant of the connection table (8.11/epollServer.2/epollServer.hpp), and the rules by which
-- it goes through the server's functions.
pub mod Steps
pub mod Receiving
pub mod Sending
pub mod Rounds
use my_linux.Base.{
  ℕ, ◌<◌, ◌≡◌, refl, ◌≢◌, Bool, true, false, Option, none, some, List, ◌==◌, if◌then◌else◌, arith,
  ◌⊎◌, inl, inr, Option-cases,
}
use my_linux.Epoll.{
  Role, listener, client, Connection, Server, Crash, use_after_free, diverged, Outcome, done, crash,
  after, M, load, store, update,
}

abbrev pub is_some {ℓ} : {A : Type ℓ} → Option A → Bool
is_some none = false
is_some (some a) = true

abbrev pub role_of : Server → ℕ → Role
role_of s fd = if fd == s.listensock then listener else client

-- The table and the heap hold the same connections, each under its own descriptor, with the
-- callbacks that go with it; the kernel watches just the descriptors of the table.
pub record IsSound (s : Server) : Type 0 where
  pub mapped :
      (fd p : ℕ) → s.connections fd ≡ some p → (c : Connection) × (s.heap p ≡ some c) × (c.fd ≡ fd)
  pub owned : (p : ℕ) (c : Connection) → s.heap p ≡ some c → s.connections c.fd ≡ some p
  pub below : (p : ℕ) (c : Connection) → s.heap p ≡ some c → p < s.next
  pub watched : (fd : ℕ) → is_some (s.interest fd) ≡ is_some (s.connections fd)
  pub registered : (p : ℕ) (c : Connection) → s.heap p ≡ some c → c.role ≡ role_of s c.fd

-- No use of freed memory, and no loop that does not end.
abbrev pub IsOrderly : Crash → Type 0
IsOrderly use_after_free = ⊥
IsOrderly diverged = ⊥
IsOrderly _ = Unit

-- The outcome is a state with the property, or an orderly crash.
pub data Ensures {A : Type 0} (Q : A → Server → Type 0) : Outcome A → Type 0 where
  returns : {a : A} {s : Server} → Q a s → Ensures Q (done a s)
  fails : {k : Crash} → IsOrderly k → Ensures Q (crash k)

pub bind_rule :
    {A B : Type 0} {Q : A → Server → Type 0} {R : B → Server → Type 0} (r : Outcome A) (f : A → M B)
    → Ensures Q r
    → ((a : A) (s : Server) → Q a s → Ensures R (f a s))
    → Ensures R (after r f)
bind_rule (done a s) f (returns q) k = k a s q
bind_rule (crash e) f (fails n) k = fails n

pub weaken :
    {A : Type 0} {Q R : A → Server → Type 0} (r : Outcome A)
    → Ensures Q r
    → ((a : A) (s : Server) → Q a s → R a s)
    → Ensures R r
weaken (done a s) (returns q) k = returns (k a s q)
weaken (crash e) (fails n) k = fails n

-- A connection at an address, with callbacks of this kind.
pub record Live (role : Role) (p : ℕ) (s : Server) : Type 0 where
  pub conn : Connection
  pub at : s.heap p ≡ some conn
  pub kind : conn.role ≡ role
