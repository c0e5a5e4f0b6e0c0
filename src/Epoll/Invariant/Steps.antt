-- ===== src/Epoll/Invariant/Steps.antt =====
-- The invariant through the single steps: `new`, `delete`, the table, the epoll set
-- (8.11/epollServer.2/epollServer.hpp).
use my_linux.Base.{
  ℕ, suc, ◌≡◌, ◌∙◌, inl, inr, none, some, [], ◌∷◌, ◌==◌, arith, Bool-cases, Option-cases,
}
use my_linux.Text.{Bytes}
use my_linux.Epoll.{
  Mask, in_edge, Role, Connection, Server, assertion_failed, done, crash, load, store, update,
}
use my_linux.Epoll.Connections.{add_connection, excepter}
use my_linux.Epoll.Invariant.{role_of, IsSound, Ensures, returns, fails, Live}

pub load_lem : {role : Role} (p : ℕ) (s : Server) (l : Live role p s) → load p s ≡ done l.conn s
unfolding load
load_lem p s l = rw (l.at, load)

-- A write that keeps the descriptor and the callbacks.
module _ (p : ℕ) (c c' : Connection) (s : Server) (v : IsSound s) (e : s.heap p ≡ some c)
    (f : c'.fd ≡ c.fd) (r : c'.role ≡ c.role) where
  store_mapped :
      (fd q : ℕ)
      → s.connections fd ≡ some q
      → (d : Connection) × (update s.heap p (some c') q ≡ some d) × (d.fd ≡ fd)
  store_mapped fd q k =
      let (d, at, same) = v.mapped fd q k in
      elim (Bool-cases (p == q)) [
        | inl hit ↦ (c', rw hit, ground arith)
        | inr miss ↦ (d, rw miss at, same)
      ]

  pub store-IsSound : IsSound (record s { heap = update s.heap p (some c') })
  store-IsSound = record {
    mapped = store_mapped;
    owned = λ q d k. ground (arith, v.owned q d, v.owned p c);
    below = λ q d k. ground (arith, v.below q d, v.below p c);
    watched = v.watched;
    registered = λ q d k. ground (arith, v.registered q d, v.registered p c);
  }

-- The server without a connection, as `Excepter` leaves it.
abbrev pub without : ℕ → Connection → Server → Server
without p c s = record s {
  connections = update s.connections c.fd none;
  heap = update s.heap p none;
  interest = update s.interest c.fd none;
  closed = c.fd ∷ s.closed;
}

module _ (p : ℕ) (c : Connection) (s : Server) (v : IsSound s) (e : s.heap p ≡ some c) where
  pub is_watched : (m : Mask) × (s.interest c.fd ≡ some m)
  is_watched = elim (Option-cases (s.interest c.fd)) [
    | inr found ↦ found
    | inl missing ↦ absurd (ground (arith, v.watched c.fd, v.owned p c e))
  ]

  pub excepter_lem : excepter p s ≡ done tt (without p c s)
  unfolding excepter
  excepter_lem = ground (arith, is_watched.1)

  without_mapped :
      (fd q : ℕ)
      → update s.connections c.fd none fd ≡ some q
      → (d : Connection) × (update s.heap p none q ≡ some d) × (d.fd ≡ fd)
  without_mapped fd q k =
      let (d, at, same) = v.mapped fd q (ground arith) in (d, ground (arith, at, same, e, k), same)

  pub without-IsSound : IsSound (without p c s)
  without-IsSound = record {
    mapped = without_mapped;
    owned = λ q d k. ground (arith, v.owned q d, v.owned p c e);
    below = λ q d k. ground (arith, v.below q d);
    watched = λ fd. ground (arith, v.watched fd);
    registered = λ q d k. ground (arith, v.registered q d);
  }

  pub excepter_rule : Ensures (λ _ t. IsSound t) (excepter p s)
  excepter_rule = rw excepter_lem (returns without-IsSound)

-- The server with a new connection, as `AddConnection` leaves it.
abbrev pub opened : ℕ → Mask → Bytes → ℕ → Server → Connection
opened fd event ip port s = record {
  fd = fd;
  role = role_of s fd;
  inbuffer = [];
  outbuffer = [];
  client_ip = ip;
  client_port = port;
  events = event;
}

abbrev pub added : ℕ → Mask → Bytes → ℕ → Server → Server
added fd event ip port s = record s {
  connections = update s.connections fd (some s.next);
  heap = update s.heap s.next (some (opened fd event ip port s));
  next = suc s.next;
  interest = update s.interest fd (some in_edge);
}

module _ (fd : ℕ) (event : Mask) (ip : Bytes) (port : ℕ) (s : Server) (v : IsSound s) where
  pub add_connection_new :
      s.connections fd ≡ none
      → add_connection fd event ip port s ≡ done tt (added fd event ip port s)
  unfolding add_connection
  add_connection_new e = ground (arith, v.watched fd)

  pub add_connection_twice :
      {p : ℕ}
      → s.connections fd ≡ some p
      → add_connection fd event ip port s ≡ crash assertion_failed
  unfolding add_connection
  add_connection_twice e = ground (arith, v.watched fd)

  added_mapped :
      s.connections fd ≡ none
      → (g q : ℕ) → update s.connections fd (some s.next) g ≡ some q
      → (d : Connection) × (update s.heap s.next (some (opened fd event ip port s)) q ≡ some d)
        × (d.fd ≡ g)
  added_mapped e g q k = elim (Bool-cases (fd == g)) [
    | inl hit ↦ (opened fd event ip port s, ground arith, ground arith)
    | inr miss ↦
        let (d, at, same) = v.mapped g q (rw miss at k) in
        (d, ground (arith, at, v.below q d at), same)
  ]

  pub added-IsSound : s.connections fd ≡ none → IsSound (added fd event ip port s)
  added-IsSound e = record {
    mapped = added_mapped e;
    owned = λ q d k. ground (arith, v.owned q d);
    below = λ q d k. ground (arith, v.below q d);
    watched = λ g. ground (arith, v.watched g);
    registered = λ q d k. ground (arith, v.registered q d);
  }

-- Sound, and with a connection of this kind at `p`.
pub record Holds (role : Role) (p : ℕ) (s : Server) : Type 0 where
  pub sound : IsSound s
  pub live : Live role p s

-- The invariant does not look at what the kernel has in store, nor at what was sent.
pub Holds-kernel :
    (role : Role) (p : ℕ) (s : Server) {t : Server}
    → Holds role p s
    → t ≡ record s { output = t.output; accepts = t.accepts; recvs = t.recvs; sends = t.sends }
    → Holds role p t
Holds-kernel role p s {t} h e = rw e same
  where
    same :
        Holds role p
          (record s { output = t.output; accepts = t.accepts; recvs = t.recvs; sends = t.sends })
    same = record {
      sound = record {
        mapped = h.sound.mapped;
        owned = h.sound.owned;
        below = h.sound.below;
        watched = h.sound.watched;
        registered = h.sound.registered;
      };
      live = record { conn = h.live.conn; at = h.live.at; kind = h.live.kind };
    }

-- A write through a live pointer that keeps the descriptor and the callbacks.
pub store_rule :
    (role : Role) (p : ℕ) (c' : Connection) (s : Server) (h : Holds role p s)
    → c'.fd ≡ h.live.conn.fd
    → c'.role ≡ h.live.conn.role
    → Ensures (λ _ t. Holds role p t) (store p c' s)
store_rule role p c' s h f r = rw stored (
    returns (record {
      sound = store-IsSound p h.live.conn c' s h.sound h.live.at f r;
      live = record { conn = c'; at = ground arith; kind = r ∙ h.live.kind };
    }))
  where
    stored : store p c' s ≡ done tt (record s { heap = update s.heap p (some c') })
    stored = unfold store in ground (arith, h.live.at)

pub add_connection_rule :
    (role : Role) (p fd : ℕ) (event : Mask) (ip : Bytes) (port : ℕ) (s : Server)
    → Holds role p s
    → Ensures (λ _ t. Holds role p t) (add_connection fd event ip port s)
add_connection_rule role p fd event ip port s h = elim (Option-cases (s.connections fd)) [
  | inr (q, e) ↦ rw (add_connection_twice fd event ip port s h.sound e) (fails tt)
  | inl e ↦ rw (add_connection_new fd event ip port s h.sound e) (
      returns (record {
        sound = added-IsSound fd event ip port s h.sound e;
        live = record {
          conn = h.live.conn;
          at = ground (arith, h.live.at, h.sound.below p h.live.conn);
          kind = h.live.kind;
        };
      }))
]
