-- ===== src/Epoll/Invariant/Rounds.antt =====
-- `LoopOnce` keeps the connection table sound and never uses freed memory
-- (8.11/epollServer.2/epollServer.hpp).
use my_linux.Base.{
  ℕ, refl, inl, inr, Bool, true, false, Option, List, [], ◌∷◌, arith, Option-cases, take,
}
use my_linux.Text.{codes}
use my_linux.Protocol.Json.{Json}
use my_linux.Protocol.Message.{Request, Response}
use my_linux.Epoll.{in_edge, Role, listener, client, Server, after, M}
use my_linux.Epoll.Io.{call_sender}
use my_linux.Epoll.Loop.{
  Ready, widened, fresh_server, init_server, if_exists, call_reciver, handle_event, handle_events,
  loop_once, Round, dispatcher,
}
use my_linux.Epoll.Invariant.{IsSound, Ensures, returns, bind_rule}
use my_linux.Epoll.Invariant.Steps.{load_lem, Holds, added-IsSound, add_connection_new}
use my_linux.Epoll.Invariant.Receiving.{accepter_rule}
use my_linux.Epoll.Invariant.Sending.{call_sender_rule, reciver_rule}

-- An empty table is sound, and so is that with the listening connection.
fresh_server-IsSound : (fd : ℕ) → IsSound (fresh_server fd)
fresh_server-IsSound fd = record {
  mapped = λ g q e. absurd (ground arith);
  owned = λ q c e. absurd (ground arith);
  below = λ q c e. absurd (ground arith);
  watched = λ g. refl;
  registered = λ q c e. absurd (ground arith);
}

-- `if (… && ConnectionIsExists(fd))` calls a callback on a connection that is there.
if_exists_rule :
    (flag : Bool) (fd : ℕ) (call : ℕ → M (Unit {0})) (s : Server)
    → IsSound s
    → ((role : Role) (p : ℕ) → Holds role p s → Ensures (λ _ t. IsSound t) (call p s))
    → Ensures (λ _ t. IsSound t) (if_exists flag fd call s)
unfolding if_exists
if_exists_rule false fd call s v k = returns v
if_exists_rule true fd call s v k = elim (Option-cases (s.connections fd)) [
  | inl e ↦ rw (e, if_exists) (returns v)
  | inr (p, e) ↦
      let (c, at, same) = v.mapped fd p e in
      rw (e, if_exists)
        (k c.role p (record { sound = v; live = record { conn = c; at = at; kind = refl } }))
]

module _ (json : Json) (func : Request → Option Response) where
  call_reciver_rule :
      (role : Role) (p : ℕ) (s : Server)
      → Holds role p s
      → Ensures (λ _ t. IsSound t) (call_reciver json func p s)
  unfolding call_reciver
  call_reciver_rule listener p s h = rw (load_lem p s h.live, h.live.kind) (accepter_rule p s h)
  call_reciver_rule client p s h =
      rw (load_lem p s h.live, h.live.kind) (reciver_rule json func p s h)

  handle_event_rule :
      (r : Ready) (s : Server) → IsSound s → Ensures (λ _ t. IsSound t) (handle_event json func r s)
  unfolding handle_event
  handle_event_rule r s v =
      bind_rule (if_exists (widened r.event).readable r.fd (call_reciver json func) s) _
        (if_exists_rule (widened r.event).readable r.fd (call_reciver json func) s v
          (λ role p h. call_reciver_rule role p s h))
        (λ _ t w.
          if_exists_rule (widened r.event).writable r.fd call_sender t w
            (λ role p h. call_sender_rule role p t h))

  handle_events_rule :
      (rs : List Ready) (s : Server)
      → IsSound s
      → Ensures (λ _ t. IsSound t) (handle_events json func rs s)
  unfolding handle_events
  handle_events_rule [] s v = returns v
  handle_events_rule (r ∷ rs) s v =
      bind_rule (handle_event json func r s) _ (handle_event_rule r s v)
        (λ _ t w. handle_events_rule rs t w)

  pub loop_once_rule :
      (rs : List Ready) (s : Server)
      → IsSound s
      → Ensures (λ _ t. IsSound t) (loop_once json func rs s)
  unfolding loop_once
  loop_once_rule rs s v = handle_events_rule (take 64 rs) s v

  dispatcher_rule :
      (rounds : List Round) (s : Server)
      → IsSound s
      → Ensures (λ _ t. IsSound t) (dispatcher json func rounds s)
  unfolding dispatcher
  dispatcher_rule [] s v = returns v
  dispatcher_rule (r ∷ rs) s v =
      bind_rule (loop_once json func r.ready start) _ (loop_once_rule r.ready start start-IsSound)
        (λ _ t w. dispatcher_rule rs t w)
    where
      start : Server
      start = record s { accepts = r.accepts; recvs = r.recvs; sends = r.sends }

      start-IsSound : IsSound start
      start-IsSound = record {
        mapped = v.mapped;
        owned = v.owned;
        below = v.below;
        watched = v.watched;
        registered = v.registered;
      }

  -- From its start on, whatever events, connections, bytes and errors the kernel gives in whatever
  -- rounds: the server never reads or writes through a pointer to a connection that was deleted,
  -- `HandleRequest` always ends, and while the server runs its table, its heap and the epoll set hold
  -- the same connections, each with the callbacks that go with it.
  pub dispatcher-IsSound :
      (listensock : ℕ) (rounds : List Round)
      → Ensures
          (λ _ t. IsSound t)
          (after (init_server (fresh_server listensock)) (λ _. dispatcher json func rounds))
  unfolding init_server
  dispatcher-IsSound listensock rounds =
      rw
        (add_connection_new listensock in_edge (codes "127.0.0.1") 8888 (fresh_server listensock) v
          refl)
        (dispatcher_rule rounds _ (
          added-IsSound listensock in_edge (codes "127.0.0.1") 8888 (fresh_server listensock) v
            refl))
    where
      v : IsSound (fresh_server listensock)
      v = fresh_server-IsSound listensock
