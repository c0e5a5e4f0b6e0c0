-- ===== src/Epoll/Invariant/Sending.antt =====
-- The invariant through `Sender`, `HandleRequest` and `Reciver` (8.11/epollServer.2/epollServer.hpp).
use my_linux.Base.{
  ℕ, suc, refl, ◌≢◌, inl, inr, Bool, true, false, not, Option, List, [], ◌∷◌, ltb, min,
  if◌then◌else◌, arith, Bool-cases, Option-cases, drop, length,
}
use my_linux.Text.{Bytes}
use my_linux.Protocol.Json.{Json}
use my_linux.Protocol.Message.{Request, Response}
use my_linux.Epoll.Requests.{Handled, handled, thrown, out_of_fuel}
use my_linux.Epoll.Requests
use my_linux.Epoll.Requests.Ends.{handle_request_ends}
use my_linux.Epoll.{
  Mask, Role, listener, client, Connection, Errno, again, intr, other, Sent, sent, Server, uncaught,
  diverged, after, M, ◌>>=◌, ◌>>◌, pure, fail, load, store,
}
use my_linux.Epoll.Connections.{mod_event, excepter}
use my_linux.Epoll.Io.{
  take_out, while_edge, send_loop, enable_read_write, sender, call_sender, handle_recive,
  handle_request, reciver,
}
use my_linux.Epoll.Invariant.{IsSound, Ensures, returns, fails, bind_rule}
use my_linux.Epoll.Invariant.Steps.{load_lem, Holds, Holds-kernel, store_rule}
use my_linux.Epoll.Invariant.Receiving.{
  load_rule, Result, kept-Result, excepter-Result, while_edge_rule, handle_recive_rule,
}

take_out_rule :
    (p : ℕ) (n : ℕ) (s : Server) (h : Holds client p s)
    → Ensures (λ _ t. Holds client p t) (take_out p h.live.conn n s)
unfolding take_out
take_out_rule p n s h =
    bind_rule (store p (record conn { outbuffer = drop n conn.outbuffer }) s) _
      (store_rule client p _ s h refl refl) (λ _ t k. returns (Holds-kernel client p t k refl))
  where
    conn : Connection
    conn = h.live.conn

-- What follows a `send` of `n` bytes above 0, and what follows a failure.
sent_rule :
    (p n : ℕ) (on : M Bool) (s : Server) (h : Holds client p s)
    → ((t : Server) → Holds client p t → Ensures (Result p) (on t))
    → Ensures (Result p) (
        after
          (take_out p h.live.conn n s)
          (λ _. elim (drop n h.live.conn.outbuffer) [ [] ↦ pure true | _ ∷ _ ↦ while_edge p on ]))
sent_rule p n on s h k =
    bind_rule (take_out p h.live.conn n s) _ (take_out_rule p n s h)
      (λ _ t i. rest (drop n h.live.conn.outbuffer) t i)
  where
    rest :
        (left : Bytes) (t : Server)
        → Holds client p t
        → Ensures
            (Result p)
            ((elim left as (λ _. M Bool) [ [] ↦ pure true | _ ∷ _ ↦ while_edge p on ]) t)
    rest [] t i = returns (kept-Result p t i)
    rest (_ ∷ _) t i = while_edge_rule p on t i (k t i)

failed_rule :
    (p : ℕ) (errno : Errno) (on : M Bool) (s : Server)
    → Holds client p s
    → ((t : Server) → Holds client p t → Ensures (Result p) (on t))
    → Ensures (Result p) (
        (elim errno as (λ _. M Bool) [
          | again ↦ pure true
          | intr ↦ while_edge p on
          | other ↦ do excepter p; pure false
        ])
          s)
failed_rule p again on s h k = returns (kept-Result p s h)
failed_rule p intr on s h k = while_edge_rule p on s h (k s h)
failed_rule p other on s h k = excepter-Result p s h

send_loop_rule :
    (p : ℕ) (results : List Sent) (s : Server)
    → Holds client p s
    → Ensures (Result p) (send_loop p results s)
unfolding send_loop
send_loop_rule p [] s h = returns (kept-Result p _ (Holds-kernel client p s h refl))
send_loop_rule p (sent count errno ∷ rest) s h =
    load_rule client p t _ k (elim (Bool-cases (ltb 0 (min count (length k.live.conn.outbuffer)))) [
      | inl e ↦ rw e (sent_rule p _ (send_loop p rest) t k (λ u i. send_loop_rule p rest u i))
      | inr e ↦ rw e (failed_rule p errno (send_loop p rest) t k (λ u i. send_loop_rule p rest u i))
    ])
  where
    t : Server
    t = record s { sends = rest }

    k : Holds client p t
    k = Holds-kernel client p s h refl

mod_event_rule :
    (p fd : ℕ) (event : Mask) (s : Server)
    → Holds client p s
    → Ensures (λ _ t. Holds client p t) (mod_event fd event s)
unfolding mod_event
mod_event_rule p fd event s h = elim (Option-cases (s.interest fd)) [
  | inl e ↦ rw (e, mod_event) (returns h)
  | inr (m, e) ↦
      rw (e, mod_event)
        (returns (record {
          sound = record {
            mapped = h.sound.mapped;
            owned = h.sound.owned;
            below = h.sound.below;
            watched = λ g. ground (arith, h.sound.watched g, e);
            registered = h.sound.registered;
          };
          live = record { conn = h.live.conn; at = h.live.at; kind = h.live.kind };
        }))
]

enable_read_write_rule :
    (p : ℕ) (r w : Bool) (s : Server)
    → Holds client p s
    → Ensures (λ _ t. Holds client p t) (enable_read_write p r w s)
unfolding enable_read_write
enable_read_write_rule p r w s h = load_rule client p s _ h (
    bind_rule (store p _ s) _ (store_rule client p _ s h refl refl)
      (λ _ t k. mod_event_rule p h.live.conn.fd _ t k))

sender_rest :
    (p : ℕ) (flag : Bool) (s : Server)
    → Result p flag s
    → Ensures
        (λ _ t. IsSound t)
        ((if not flag then pure tt else do
          conn ← load p
          _ ←
              enable_read_write p true
                (elim conn.outbuffer as (λ _. Bool) [ [] ↦ false | _ ∷ _ ↦ true ])
          pure tt)
          s)
sender_rest p false s r = returns r.sound
sender_rest p true s r = load_rule client p s _ h (
    bind_rule (enable_read_write p true _ s) _ (enable_read_write_rule p true _ s h)
      (λ _ t k. returns k.sound))
  where
    h : Holds client p s
    h = record { sound = r.sound; live = r.kept refl }

pub sender_rule : (p : ℕ) (s : Server) → Holds client p s → Ensures (λ _ t. IsSound t) (sender p s)
unfolding sender
sender_rule p s h =
    bind_rule (send_loop p s.sends s) _ (send_loop_rule p s.sends s h)
      (λ flag t r. sender_rest p flag t r)

-- The null callback of the listening connection throws.
pub call_sender_rule :
    (role : Role) (p : ℕ) (s : Server)
    → Holds role p s
    → Ensures (λ _ t. IsSound t) (call_sender p s)
unfolding call_sender
call_sender_rule listener p s h = rw (load_lem p s h.live, h.live.kind) (fails tt)
call_sender_rule client p s h = rw (load_lem p s h.live, h.live.kind) (sender_rule p s h)

module _ (json : Json) (func : Request → Option Response) where
  handle_request_rule :
      (p : ℕ) (s : Server)
      → Holds client p s
      → Ensures (λ _ t. Holds client p t) (handle_request json func p s)
  unfolding handle_request
  handle_request_rule p s h = load_rule client p s _ h (
      split
        (Requests.handle_request json func (suc (length conn.inbuffer)) conn.inbuffer
          conn.outbuffer)
        (handle_request_ends json func (suc (length conn.inbuffer)) conn.inbuffer conn.outbuffer
          (omega arith)))
    where
      conn : Connection
      conn = h.live.conn

      split :
          (r : Handled)
          → r ≢ out_of_fuel
          → Ensures
              (λ _ t. Holds client p t)
              ((elim r as (λ _. M (Unit {0})) [
                | handled i o ↦ store p (record (h.live.conn) { inbuffer = i; outbuffer = o })
                | thrown ↦ fail uncaught
                | out_of_fuel ↦ fail diverged
              ])
                s)
      split (handled i o) _ = store_rule client p _ s h refl refl
      split thrown _ = fails tt
      split out_of_fuel e = absurd (e refl)

  reciver_rest :
      (p : ℕ) (ok : Bool) (s : Server)
      → Result p ok s
      → Ensures
          (λ _ t. IsSound t)
          ((if not ok then pure tt else do
            handle_request json func p
            conn ← load p
            elim conn.outbuffer as (λ _. M (Unit {0})) [ [] ↦ pure tt | _ ∷ _ ↦ call_sender p ])
            s)
  reciver_rest p false s r = returns r.sound
  reciver_rest p true s r =
      bind_rule (handle_request json func p s) _
        (handle_request_rule p s (record { sound = r.sound; live = r.kept refl }))
        (λ _ t k. load_rule client p t _ k (flush k.live.conn.outbuffer t k))
    where
      flush :
          (out : Bytes) (t : Server)
          → Holds client p t
          → Ensures
              (λ _ u. IsSound u)
              ((elim out as (λ _. M (Unit {0})) [ [] ↦ pure tt | _ ∷ _ ↦ call_sender p ]) t)
      flush [] t k = returns k.sound
      flush (_ ∷ _) t k = call_sender_rule client p t k

  pub reciver_rule :
      (p : ℕ) (s : Server) → Holds client p s → Ensures (λ _ t. IsSound t) (reciver json func p s)
  unfolding reciver
  reciver_rule p s h =
      bind_rule (handle_recive p s) _ (handle_recive_rule p s h) (λ ok t r. reciver_rest p ok t r)
