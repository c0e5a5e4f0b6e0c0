-- ===== src/Epoll/Invariant/Receiving.antt =====
-- The invariant through `Accepter` and `HandleRecive` (8.11/epollServer.2/epollServer.hpp).
use my_linux.Base.{
  ℕ, ◌≡◌, refl, inl, inr, Bool, true, false, List, [], ◌∷◌, ◌++◌, ltb, if◌then◌else◌, Bool-cases,
  Option-cases, drop, length, take,
}
use mathlib.Core.Bool.{false≢true}
use my_linux.Text.{Bytes, c_string}
use my_linux.Epoll.{
  in_edge, Role, listener, client, Connection, again, intr, other, Accepted, accepted,
  accept_failed, Received, received, recv_failed, Server, after, M, pure, load,
}
use my_linux.Epoll.Connections.{accept_loop, accepter, add_connection, excepter}
use my_linux.Epoll.Io.{append_received, while_edge, recive_loop, handle_recive}
use my_linux.Epoll.Invariant.{IsSound, Ensures, returns, fails, bind_rule, weaken, Live}
use my_linux.Epoll.Invariant.Steps.{
  load_lem, excepter_rule, Holds, Holds-kernel, store_rule, add_connection_rule,
}

pub load_rule :
    {A : Type 0} {Q : A → Server → Type 0} (role : Role) (p : ℕ) (s : Server) (f : Connection → M A)
    → (h : Holds role p s) → Ensures Q (f h.live.conn s)
    → Ensures Q (after (load p s) f)
load_rule role p s f h q = rw (load_lem p s h.live) q

-- `if (client_sock > 0) AddConnection(…)`
accept_one :
    (p fd : ℕ) (ip : Bytes) (port : ℕ) (s : Server)
    → Holds listener p s
    → Ensures
        (λ _ t. Holds listener p t)
        ((if ltb 0 fd then add_connection fd in_edge ip port else pure tt) s)
accept_one p fd ip port s h = elim (Bool-cases (ltb 0 fd)) [
  | inl e ↦ rw e (add_connection_rule listener p fd in_edge ip port s h)
  | inr e ↦ rw e (returns h)
]

accept_loop_rule :
    (p : ℕ) (results : List Accepted) (s : Server)
    → Holds listener p s
    → Ensures (λ _ t. Holds listener p t) (accept_loop p results s)
unfolding accept_loop
accept_loop_rule p [] s h = returns (Holds-kernel listener p s h refl)
accept_loop_rule p (accepted fd ip port ∷ rest) s h =
    bind_rule
      ((if ltb 0 fd then add_connection fd in_edge ip port else pure tt)
        (record s { accepts = rest }))
      _ (accept_one p fd ip port _ (Holds-kernel listener p s h refl))
      (λ _ t k. load_rule listener p t _ k (accept_loop_rule p rest t k))
accept_loop_rule p (accept_failed again ∷ rest) s h = returns (Holds-kernel listener p s h refl)
accept_loop_rule p (accept_failed intr ∷ rest) s h =
    let k = Holds-kernel listener p s {t = record s { accepts = rest }} h refl in
    load_rule listener p (record s { accepts = rest }) (λ _. accept_loop p rest) k
      (accept_loop_rule p rest (record s { accepts = rest }) k)
accept_loop_rule p (accept_failed other ∷ rest) s h =
    let k = Holds-kernel listener p s {t = record s { accepts = rest }} h refl in
    load_rule listener p (record s { accepts = rest }) (λ _. accept_loop p rest) k
      (accept_loop_rule p rest (record s { accepts = rest }) k)

pub accepter_rule :
    (p : ℕ) (s : Server) → Holds listener p s → Ensures (λ _ t. IsSound t) (accepter p s)
unfolding accepter
accepter_rule p s h =
    weaken (accept_loop p s.accepts s) (accept_loop_rule p s.accepts s h) (λ _ t k. k.sound)

-- What a step leaves that says by its result whether the connection is still there.
pub record Result (p : ℕ) (ok : Bool) (s : Server) : Type 0 where
  pub sound : IsSound s
  pub kept : ok ≡ true → Live client p s

pub kept-Result : (p : ℕ) (s : Server) → Holds client p s → Result p true s
kept-Result p s h = record { sound = h.sound; kept = λ _. h.live }

pub excepter-Result :
    (p : ℕ) (s : Server)
    → Holds client p s
    → Ensures (Result p) (after (excepter p s) (λ _. pure false))
excepter-Result p s h =
    bind_rule (excepter p s) (λ _. pure false) (excepter_rule p h.live.conn s h.sound h.live.at)
      (λ _ t k. returns (record { sound = k; kept = λ e. absurd (false≢true e) }))

pub while_edge_rule :
    (p : ℕ) (on : M Bool) (s : Server)
    → Holds client p s
    → Ensures (Result p) (on s)
    → Ensures (Result p) (while_edge p on s)
unfolding while_edge
while_edge_rule p on s h k =
    load_rule client p s (λ conn. if conn.events.edge then on else pure true) h
      (elim (Bool-cases h.live.conn.events.edge) [
        | inl e ↦ rw e k
        | inr e ↦ rw e (returns (kept-Result p s h))
      ])

append_received_rule :
    (p : ℕ) (bytes stale : Bytes) (s : Server)
    → Holds client p s
    → Ensures (λ _ t. Holds client p t) (append_received p bytes stale s)
unfolding append_received
append_received_rule p bytes stale s h =
    elim (Option-cases (c_string (bytes ++ drop (length bytes) stale))) [
      | inl e ↦ rw (e, load_lem p s h.live) (fails tt)
      | inr (text, e) ↦ rw (e, load_lem p s h.live) (store_rule client p _ s h refl refl)
    ]

recive_loop_rule :
    (p : ℕ) (results : List Received) (s : Server)
    → Holds client p s
    → Ensures (Result p) (recive_loop p results s)
unfolding recive_loop
recive_loop_rule p [] s h = returns (kept-Result p _ (Holds-kernel client p s h refl))
recive_loop_rule p (received [] stale ∷ rest) s h =
    excepter-Result p (record s { recvs = rest }) (Holds-kernel client p s h refl)
recive_loop_rule p (received (c ∷ cs) stale ∷ rest) s h =
    bind_rule (append_received p (take 1023 (c ∷ cs)) stale (record s { recvs = rest })) _
      (append_received_rule p (take 1023 (c ∷ cs)) stale _ (Holds-kernel client p s h refl))
      (λ _ t k. while_edge_rule p (recive_loop p rest) t k (recive_loop_rule p rest t k))
recive_loop_rule p (recv_failed again ∷ rest) s h =
    returns (kept-Result p _ (Holds-kernel client p s h refl))
recive_loop_rule p (recv_failed intr ∷ rest) s h =
    let k = Holds-kernel client p s {t = record s { recvs = rest }} h refl in
    while_edge_rule p (recive_loop p rest) _ k (recive_loop_rule p rest _ k)
recive_loop_rule p (recv_failed other ∷ rest) s h =
    excepter-Result p (record s { recvs = rest }) (Holds-kernel client p s h refl)

pub handle_recive_rule :
    (p : ℕ) (s : Server) → Holds client p s → Ensures (Result p) (handle_recive p s)
unfolding handle_recive
handle_recive_rule p s h = recive_loop_rule p s.recvs s h
