-- ===== src/Epoll/Deliveries.antt =====
-- What becomes of a stream on a connection of the reactor (8.11/epollServer.2/epollServer.hpp).
use mathlib.Core.Option.{some-injective, none-ne-some}
use my_linux.Base.{
  ℕ, suc, ◌<◌, ◌≡◌, refl, ap, ◌∙◌, true, not, Option, none, some, List, [], ◌∷◌, ◌++◌,
  if◌then◌else◌, length, arith,
}
use my_linux.Text.{Bytes}
use my_linux.Protocol.Json.{Json}
use my_linux.Protocol.Message.{Request, Response}
use my_linux.Epoll.Requests.{received_text, Handled, handled, thrown, out_of_fuel}
use my_linux.Epoll.Requests
use my_linux.Epoll.Requests.Stream.{Exchange, packages, replies, IsCut, AllAnswered}
use my_linux.Epoll.Requests.Pieces.{
  Piece, streamed, IsClean, AllClean, received_text-IsClean, deliver, deliver_stream,
}
use my_linux.Epoll.{
  Connection, again, received, recv_failed, Server, done, M, ◌>>=◌, ◌>>◌, pure, load, store, update,
}
use my_linux.Epoll.Io.{
  set_recvs, append_received, while_edge, recive_loop, handle_recive, handle_request,
}

module _ (json : Json) (func : Request → Option Response) where
  -- `Reciver` up to the sending, when `recv` gives the piece and then EAGAIN.
  unfoldable pub receive_piece : ℕ → Piece → M (Unit {0})
  unfolding set_recvs handle_recive handle_request
  receive_piece p (c, stale) = do
    set_recvs (received c stale ∷ recv_failed again ∷ [])
    ok ← handle_recive p
    if not ok then pure tt else handle_request json func p

  unfoldable pub receive_pieces : ℕ → List Piece → M (Unit {0})
  unfolding receive_piece
  receive_pieces p [] = pure tt
  receive_pieces p (c ∷ cs) = do receive_piece p c; receive_pieces p cs

abbrev with_input : Connection → Bytes → Connection
with_input conn c = record conn { inbuffer = conn.inbuffer ++ c }

update_self : (f : ℕ → Option Connection) (p : ℕ) (v : Option Connection) → update f p v p ≡ v
update_self f p v = ground arith

-- The piece is appended to the input of the connection.
handle_recive-piece :
    (p x : ℕ) (c stale : Bytes) (s : Server) (conn : Connection)
    → s.heap p ≡ some conn
    → conn.events.edge ≡ true
    → IsClean (x ∷ c, stale)
    → s.recvs ≡ received (x ∷ c) stale ∷ recv_failed again ∷ []
    → handle_recive p s
      ≡ done true (record s { recvs = []; heap = update s.heap p (some (with_input conn (x ∷ c))) })
unfolding handle_recive recive_loop set_recvs append_received while_edge load store
handle_recive-piece p x c stale s conn e g clean r =
    ground (arith, e, g, r, received_text-IsClean (x ∷ c) stale clean)

-- The connection at `p` has these two buffers, and is as `conn` otherwise.
abbrev pub Holds : ℕ → Connection → Bytes → Bytes → Server → Type 0
Holds p conn i o s = s.heap p ≡ some (record conn { inbuffer = i; outbuffer = o })

-- Each piece has a byte.
abbrev pub AllFilled : List Piece → Type 0
AllFilled [] = Unit {0}
AllFilled (c ∷ cs) = (0 < length c.0) × AllFilled cs

abbrev in_of : Handled → Bytes
in_of (handled i o) = i
in_of _ = []

abbrev out_of : Handled → Bytes
out_of (handled i o) = o
out_of _ = []

abbrev inputs : Handled → Option (Unit {0})
inputs (handled i o) = some tt
inputs _ = none

module _ (json : Json) (func : Request → Option Response) where
  handle_request_lem :
      (p : ℕ) (s : Server) (conn : Connection) (i o : Bytes)
      → s.heap p ≡ some conn
      → Requests.handle_request json func (suc (length conn.inbuffer)) conn.inbuffer conn.outbuffer
        ≡ handled i o
      → handle_request json func p s
        ≡ done tt (record s {
          heap = update s.heap p (some (record conn { inbuffer = i; outbuffer = o }));
        })
  unfolding handle_request load store
  handle_request_lem p s conn i o e h = ground (arith, e, h)

  receive_piece_lem :
      (p x : ℕ) (c stale : Bytes) (s : Server) (conn : Connection) (i o a b : Bytes)
      → Holds p conn a b s
      → conn.events.edge ≡ true
      → IsClean (x ∷ c, stale)
      → Requests.handle_request json func (suc (length (a ++ (x ∷ c)))) (a ++ (x ∷ c)) b
        ≡ handled i o
      → (t : Server) × (receive_piece json func p (x ∷ c, stale) s ≡ done tt t) × Holds p conn i o t
  unfolding receive_piece set_recvs
  receive_piece_lem p x c stale s conn i o a b e g clean h = (
    record appended {
      heap = update appended.heap p (some (record conn { inbuffer = i; outbuffer = o }));
    },
    rw
        (handle_recive-piece p x c stale
          (record s { recvs = received (x ∷ c) stale ∷ recv_failed again ∷ [] })
          (record conn { inbuffer = a; outbuffer = b }) e g clean refl)
        (handle_request_lem p appended (record conn { inbuffer = a ++ (x ∷ c); outbuffer = b }) i o
          (update_self s.heap p (some (record conn { inbuffer = a ++ (x ∷ c); outbuffer = b }))) h),
    update_self appended.heap p (some (record conn { inbuffer = i; outbuffer = o })),
  )
    where
      appended : Server
      appended = record s {
        recvs = [];
        heap = update s.heap p (some (record conn { inbuffer = a ++ (x ∷ c); outbuffer = b }));
      }

  receive_pieces_lem :
      (p : ℕ) (cs : List Piece) (s : Server) (conn : Connection) (a b i o : Bytes)
      → Holds p conn a b s
      → conn.events.edge ≡ true
      → AllFilled cs
      → AllClean cs
      → deliver json func cs a b ≡ some (handled i o)
      → (t : Server) × (receive_pieces json func p cs s ≡ done tt t) × Holds p conn i o t
  unfolding receive_pieces deliver
  receive_pieces_lem p [] s conn a b i o e g f clean h = (
    s,
    refl,
    e
        ∙ ap (λ (r : Handled). some (record conn { inbuffer = in_of r; outbuffer = out_of r }))
            (some-injective (handled a b) (handled i o) h),
  )
  receive_pieces_lem p (([], stale) ∷ cs) s conn a b i o e g f clean h = absurd (omega (arith, f.0))
  receive_pieces_lem p ((x ∷ c, stale) ∷ cs) s conn a b i o e g f clean h =
      go (Requests.handle_request json func (suc (length (a ++ (x ∷ c)))) (a ++ (x ∷ c)) b) refl
        (rw (deliver, received_text-IsClean (x ∷ c) stale clean.0) at h)
        (λ t k j q. receive_pieces_lem p cs t conn k j i o q g f.1 clean.1)
    where
      go :
          (r : Handled)
          → Requests.handle_request json func (suc (length (a ++ (x ∷ c)))) (a ++ (x ∷ c)) b ≡ r
          → (elim r as (λ _. Option Handled) [
            | handled k j ↦ deliver json func cs k j
            | thrown ↦ some thrown
            | out_of_fuel ↦ some out_of_fuel
          ])
            ≡ some (handled i o)
          → ((t : Server) (k j : Bytes)
              → Holds p conn k j t
              → deliver json func cs k j ≡ some (handled i o)
              → (u : Server) × (receive_pieces json func p cs t ≡ done tt u) × Holds p conn i o u)
          → (t : Server) × (receive_pieces json func p ((x ∷ c, stale) ∷ cs) s ≡ done tt t)
            × Holds p conn i o t
      go (handled k j) q z next =
          let (t, y, w) = receive_piece_lem p x c stale s conn k j a b e g clean.0 q in
          let (u, v, last) = next t k j w z in (u, rw y v, last)
      go thrown q z next =
          absurd (none-ne-some tt (ap inputs (some-injective thrown (handled i o) z)))
      go out_of_fuel q z next =
          absurd (none-ne-some tt (ap inputs (some-injective out_of_fuel (handled i o) z)))

  -- On a connection whose input is empty, a stream of packages, each answered by the handler, without a NUL, and cut by the
  -- network in any way into pieces of 1 to 1023 bytes, behind each of which the array of `HandleRecive` held
  -- a NUL: after `HandleRecive` and `HandleRequest` for each piece the responses stand behind the output in
  -- order, and the input is what has come of an unfinished package. A package has a payload that is not
  -- empty and, with 24 bytes more, shorter than 2^31. Nothing is sent in between.
  pub receive_pieces_stream :
      (p : ℕ) (cs : List Piece) (xs : List Exchange) (s : Server) (conn : Connection)
      (outbuffer tail : Bytes)
      → Holds p conn [] outbuffer s
      → conn.events.edge ≡ true
      → AllFilled cs
      → AllClean cs
      → AllAnswered json func xs
      → IsCut tail
      → streamed cs ≡ packages xs ++ tail
      → (t : Server) × (receive_pieces json func p cs s ≡ done tt t)
        × Holds p conn tail (outbuffer ++ replies xs) t
  receive_pieces_stream p cs xs s conn outbuffer tail e g f clean a cut z =
      receive_pieces_lem p cs s conn [] outbuffer tail (outbuffer ++ replies xs) e g f clean
        (deliver_stream json func cs xs outbuffer tail clean a cut z)
