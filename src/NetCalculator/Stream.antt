-- ===== src/NetCalculator/Stream.antt =====
-- `serviceIO` of 7.20/netCalculator/cal_server.hpp on a stream of packages that arrives in pieces.
use my_linux.Base.{
  ℕ, suc, ◌≤◌, ◌<◌, ◌≡◌, ◌≢◌, inl, inr, refl, sym, ap, ◌∙◌, Option, some, List, [], ◌∷◌, ◌++◌, map,
  arith, append_assoc, append-nil, length, take_all, lt→ltb,
}
use my_linux.Base.Int.{pos}
use my_linux.Text.{Bytes}
use my_linux.Text.Find.{Lacks, c_string_lem}
use my_linux.Protocol.{Read, read_package, add_header}
use my_linux.Protocol.Frame.{read_package-add_header}
use my_linux.Protocol.Json.{Json}
use my_linux.Protocol.Message.{Request, Response}
use my_linux.Multiplex.{Received, received}
use my_linux.Epoll.Requests.{answer_package}
use my_linux.Epoll.Requests.Stream.{
  Exchange, packages, replies, IsCut, IsCut-Waits, IsCut-prefix, AllAnswered, Answers,
  package_split, answer_package-add_header,
}
use my_linux.Epoll.Requests.Pieces.{joined}
use my_linux.NetCalculator.{
  taken_2048, append_buffer, message, read_message, Serviced, ended, serve_message, service_io,
}

-- A piece that `recv` gives whole, with room for the terminator, and without a NUL.
pub record IsPiece (c : Bytes) : Type 0 where
  pub nonempty : c ≢ []
  pub fits : length c < 2048
  pub text : Lacks 0 c

abbrev pub AllPieces : List Bytes → Type 0
AllPieces [] = Unit {0}
AllPieces (c ∷ cs) = IsPiece c × AllPieces cs

append_buffer-piece :
    (inbuffer c : Bytes) → IsPiece c → append_buffer inbuffer c ≡ some (inbuffer ++ c)
unfolding append_buffer
append_buffer-piece inbuffer c i =
    rw (append_buffer, lt→ltb (length c) 2048 i.fits, c_string_lem c [] i.text) refl

taken-piece : (c : Bytes) → IsPiece c → taken_2048 c ≡ c
unfolding taken_2048
taken-piece c i = take_all 2048 c (omega (arith, i.fits))

-- A piece is appended to the buffer, and the buffer is searched.
read_message-piece :
    (inbuffer c : Bytes)
    → IsPiece c
    → read_message (received c) inbuffer ≡ message (read_package (inbuffer ++ c) [])
unfolding read_message
read_message-piece inbuffer [] i = absurd (i.nonempty refl)
read_message-piece inbuffer (b ∷ c) i =
    rw (read_message, taken-piece (b ∷ c) i, append_buffer-piece inbuffer (b ∷ c) i) refl

module _ (json : Json) (func : Request → Option Response) where
  -- Nothing to answer, and a package with a payload.
  serve_message-none :
      (next : Bytes → Bytes → Serviced) (sent : Bytes) (m : Read)
      → m.len ≡ pos 0
      → serve_message json func next sent m ≡ next m.inbuffer sent
  unfolding serve_message
  serve_message-none next sent m h = rw (serve_message, h) refl

  serve_message-some :
      (next : Bytes → Bytes → Serviced) (sent out : Bytes) (m : Read) (n : ℕ)
      → m.len ≡ pos (suc n)
      → answer_package json func m.packet m.len ≡ some out
      → serve_message json func next sent m ≡ next m.inbuffer (sent ++ out)
  unfolding serve_message
  serve_message-some next sent out m n h k = rw (serve_message, h, k) refl

  service_io-piece :
      (c : Bytes) (rs : List Received) (inbuffer sent : Bytes)
      → IsPiece c
      → service_io json func (received c ∷ rs) inbuffer sent
        ≡ serve_message json func (service_io json func rs) sent (read_package (inbuffer ++ c) [])
  unfolding service_io
  service_io-piece c rs inbuffer sent i = rw (service_io, read_message-piece inbuffer c i) refl

  -- A round on a buffer that is cut short.
  service_io-cut :
      (c : Bytes) (rs : List Received) (inbuffer sent : Bytes)
      → IsPiece c
      → IsCut (inbuffer ++ c)
      → service_io json func (received c ∷ rs) inbuffer sent
        ≡ service_io json func rs (inbuffer ++ c) sent
  service_io-cut c rs inbuffer sent i u =
      service_io-piece c rs inbuffer sent i
      ∙ ap (serve_message json func (service_io json func rs) sent) (IsCut-Waits (inbuffer ++ c) u)
      ∙ serve_message-none (service_io json func rs) sent _ refl

  -- A round on a buffer that begins with a whole package.
  service_io-package :
      (c : Bytes) (rs : List Received) (inbuffer sent rest : Bytes) (x : Exchange)
      → IsPiece c
      → Answers json func x
      → inbuffer ++ c ≡ add_header x.payload ++ rest
      → service_io json func (received c ∷ rs) inbuffer sent
        ≡ service_io json func rs rest (sent ++ x.reply)
  service_io-package c rs inbuffer sent rest x i a e =
      let (n, l) = positive x.payload a.full in
      service_io-piece c rs inbuffer sent i
      ∙ ap
          (λ (b : Bytes).
            serve_message json func (service_io json func rs) sent (read_package b []))
          e
      ∙ ap (serve_message json func (service_io json func rs) sent)
          (read_package-add_header x.payload rest [] a.short)
      ∙ serve_message-some (service_io json func rs) sent x.reply
          (record { len = pos (length x.payload); packet = add_header x.payload; inbuffer = rest })
          n (ap pos l) (answer_package-add_header json func x a)
    where
      positive : (s : Bytes) → s ≢ [] → (n : ℕ) × (length s ≡ suc n)
      positive [] z = absurd (z refl)
      positive (b ∷ s) z = (length s, refl)

  -- What the service has done with the pieces `cs` of the packages `xs` and a cut one.
  pub record Served (cs : List Bytes) (sent tail : Bytes) (xs : List Exchange) (end : Serviced)
      : Type 0 where
    pub served : List Exchange
    pub left : List Exchange
    pub rest : Bytes
    pub splits : xs ≡ served ++ left
    pub ends : end ≡ ended rest (sent ++ replies served)
    pub remains : rest ≡ packages left ++ tail
    pub paced : length served ≤ length cs

  waits_more :
      {c : Bytes} {cs : List Bytes} {sent tail : Bytes} {xs : List Exchange} {end start : Serviced}
      → Served cs sent tail xs end
      → start ≡ end
      → Served (c ∷ cs) sent tail xs start
  waits_more d e = record {
    served = d.served;
    left = d.left;
    rest = d.rest;
    splits = d.splits;
    ends = e ∙ d.ends;
    remains = d.remains;
    paced = omega (arith, d.paced);
  }

  serves_more :
      {c : Bytes} {cs : List Bytes} {sent tail : Bytes} {x : Exchange} {xs : List Exchange}
      {end start : Serviced}
      → Served cs (sent ++ x.reply) tail xs end
      → start ≡ end
      → Served (c ∷ cs) sent tail (x ∷ xs) start
  serves_more {sent = sent} {x = x} d e = record {
    served = x ∷ d.served;
    left = d.left;
    rest = d.rest;
    splits = ap (λ (ys : List Exchange). x ∷ ys) d.splits;
    ends = e ∙ d.ends ∙ ap (ended d.rest) (append_assoc sent x.reply (replies d.served));
    remains = d.remains;
    paced = omega (arith, d.paced);
  }

  service_io-Served :
      (cs : List Bytes) (xs : List Exchange) (inbuffer sent tail : Bytes)
      → AllPieces cs
      → AllAnswered json func xs
      → IsCut tail
      → inbuffer ++ joined cs ≡ packages xs ++ tail
      → Served cs sent tail xs (service_io json func (map received cs) inbuffer sent)
  unfolding service_io
  service_io-Served [] xs inbuffer sent tail p a t e = record {
    served = [];
    left = xs;
    rest = inbuffer;
    splits = refl;
    ends = rw append-nil refl;
    remains = sym (append-nil inbuffer) ∙ e;
    paced = omega arith;
  }
  service_io-Served (c ∷ cs) [] inbuffer sent tail p a t e =
      waits_more
        (service_io-Served cs [] (inbuffer ++ c) sent tail p.1 a t
          (append_assoc inbuffer c (joined cs) ∙ e))
        (service_io-cut c (map received cs) inbuffer sent p.0 (
          IsCut-prefix (inbuffer ++ c) (joined cs)
            (rw (append_assoc inbuffer c (joined cs) ∙ e) t)))
  service_io-Served (c ∷ cs) (x ∷ xs) inbuffer sent tail p a t e =
      elim (package_split (inbuffer ++ c) (joined cs) x.payload (packages xs ++ tail) a.0.short (
        append_assoc inbuffer c (joined cs)
        ∙ e
        ∙ append_assoc (add_header x.payload) (packages xs) tail)) [
          | inl u ↦
              waits_more
                (service_io-Served cs (x ∷ xs) (inbuffer ++ c) sent tail p.1 a t
                  (append_assoc inbuffer c (joined cs) ∙ e))
                (service_io-cut c (map received cs) inbuffer sent p.0 u)
          | inr (b, q, r) ↦
              serves_more (service_io-Served cs xs b (sent ++ x.reply) tail p.1 a.1 t r)
                (service_io-package c (map received cs) inbuffer sent b x p.0 a.0 q)
        ]

  -- When the pieces in which a stream comes, each of at most 2047 bytes and without a NUL, hold packages
  -- that the handler answers, and one that is cut short: the service ends with no exception and nothing
  -- undefined; it has sent, in order, the replies to the first of the packages, at most one for each piece;
  -- and the other packages are left in its buffer with what has come of the one that is cut short.
  pub service_io_stream :
      (cs : List Bytes) (xs : List Exchange) (tail : Bytes)
      → AllPieces cs
      → AllAnswered json func xs
      → IsCut tail
      → joined cs ≡ packages xs ++ tail
      → (served : List Exchange) × (left : List Exchange) × (xs ≡ served ++ left)
        × (service_io json func (map received cs) [] []
            ≡ ended (packages left ++ tail) (replies served))
        × (length served ≤ length cs)
  service_io_stream cs xs tail p a t e =
      let d = service_io-Served cs xs [] [] tail p a t e in
      (
        d.served,
        d.left,
        d.splits,
        d.ends ∙ ap (λ (b : Bytes). ended b (replies d.served)) d.remains,
        d.paced,
      )
