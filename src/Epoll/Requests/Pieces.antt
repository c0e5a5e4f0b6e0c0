-- ===== src/Epoll/Requests/Pieces.antt =====
-- Successive calls of `HandleRequest` on the pieces in which a stream comes.
use my_linux.Base.{
  take, drop, take_all, none, some, ◌≤◌, subst, suc, ◌≡◌, refl, sym, ap, ◌∙◌, Option, List, [], ◌∷◌,
  ◌++◌, true, arith, append_assoc, append-nil, length,
}
use my_linux.Base.Int.{ℤ, pos}
use my_linux.Text.{Bytes, c_string}
use my_linux.Text.Find.{Lacks, c_string_lem}
use my_linux.Protocol.Json.{Json}
use my_linux.Protocol.Message.{Request, Response}
use my_linux.Protocol.{Read, read_package, add_header}
use my_linux.Protocol.Frame.{read_package-add_header}
use my_linux.Epoll.Requests.{
  received_text, Handled, handled, thrown, out_of_fuel, is_pos, handle_request,
}
use my_linux.Epoll.Requests.Stream.{
  Exchange, packages, replies, IsCut, IsCut-Waits, IsCut-prefix, AllAnswered, AllAnswered-left,
  is_pos-length, Delivered, handle_request-Delivered,
}

-- What one call of `recv` gives, and what the array held before it.
abbrev pub Piece : Type 0
Piece = Bytes × Bytes

abbrev pub joined : List Bytes → Bytes
joined [] = []
joined (c ∷ cs) = c ++ joined cs

abbrev pub streamed : List Piece → Bytes
streamed [] = []
streamed ((c, stale) ∷ cs) = c ++ streamed cs

-- Bytes that the array has room for, none of them NUL, behind which the array held a NUL.
abbrev pub IsClean : Piece → Type 0
IsClean (c, stale) =
    (length c ≤ 1023) × Lacks 0 c × ((junk : Bytes) × (drop (length c) stale ≡ 0 ∷ junk))

abbrev pub AllClean : List Piece → Type 0
AllClean [] = Unit {0}
AllClean (c ∷ cs) = IsClean c × AllClean cs

pub received_text-IsClean :
    (c stale : Bytes) → IsClean (c, stale) → received_text (take 1023 c) stale ≡ some c
received_text-IsClean c stale (l, h, (junk, e)) =
    ap (λ (b : Bytes). received_text b stale) (take_all 1023 c l)
    ∙ ap (λ (b : Bytes). c_string (c ++ b)) e
    ∙ c_string_lem c junk h

replies-append : (xs ys : List Exchange) → replies (xs ++ ys) ≡ replies xs ++ replies ys
replies-append [] ys = refl
replies-append (x ∷ xs) ys =
    ap (◌++◌ x.reply) (replies-append xs ys) ∙ sym (append_assoc x.reply (replies xs) (replies ys))

module _ (json : Json) (func : Request → Option Response) where
  -- What is done to the two buffers for each piece: `HandleRecive` appends what `recv` gave of at most 1023 bytes,
  -- and `HandleRequest` handles the buffer; `none` is a text that does not end in the array.
  unfoldable pub deliver : List Piece → Bytes → Bytes → Option Handled
  deliver [] inbuffer outbuffer = some (handled inbuffer outbuffer)
  deliver ((c, stale) ∷ cs) inbuffer outbuffer = elim (received_text (take 1023 c) stale) [
    | none ↦ none
    | some text ↦
        elim (handle_request json func (suc (length (inbuffer ++ text))) (inbuffer ++ text)
          outbuffer) [
            | handled i o ↦ deliver cs i o
            | thrown ↦ some thrown
            | out_of_fuel ↦ some out_of_fuel
          ]
  ]

  -- A buffer that waits begins with no whole package.
  none_left :
      (xs : List Exchange) (s tail : Bytes)
      → AllAnswered json func xs
      → IsCut s
      → s ≡ packages xs ++ tail
      → xs ≡ []
  none_left [] s tail a c e = refl
  none_left (x ∷ xs) s tail a c e =
      absurd (false_of (is_pos-length json func x.payload a.0.full) waits)
    where
      waits : pos (length x.payload) ≡ pos 0
      waits =
          sym (
            ap (λ (r : Read). r.len)
              (read_package-add_header x.payload (packages xs ++ tail) [] a.0.short))
          ∙ ap (λ (s : Bytes). (read_package s []).len)
              (sym (e ∙ append_assoc (add_header x.payload) (packages xs) tail))
          ∙ ap (λ (r : Read). r.len) (IsCut-Waits s c)

      false_of : {z : ℤ} → is_pos z ≡ true → z ≡ pos 0 → ⊥
      false_of h k = ground arith

  deliver-joined :
      (cs : List Piece) (xs : List Exchange) (inbuffer outbuffer tail : Bytes)
      → AllClean cs
      → AllAnswered json func xs
      → IsCut tail
      → IsCut inbuffer
      → inbuffer ++ streamed cs ≡ packages xs ++ tail
      → deliver cs inbuffer outbuffer ≡ some (handled tail (outbuffer ++ replies xs))
  unfolding deliver
  deliver-joined [] xs inbuffer outbuffer tail clean a t i e =
      let whole : inbuffer ≡ packages xs ++ tail = sym (append-nil inbuffer) ∙ e in
      let empty : xs ≡ [] = none_left xs inbuffer tail a i whole in
      rw (empty, append-nil) (ap (λ s. some (handled s outbuffer)) (rw empty at whole))
  deliver-joined ((c, stale) ∷ cs) xs inbuffer outbuffer tail clean a t i e =
      rw (received_text-IsClean c stale clean.0, d.ends, deliver)
        (deliver-joined cs d.left d.rest (outbuffer ++ replies d.served) tail clean.1
            (AllAnswered-left json func d.served d.left (subst (AllAnswered json func) d.splits a))
            t d.is_cut d.remains
          ∙ ap (λ o. some (handled tail o))
              (append_assoc outbuffer (replies d.served) (replies d.left) ∙ all_replies))
    where
      d :
          Delivered json func
            (inbuffer ++ c)
            (streamed cs)
            outbuffer
            tail
            xs
            (handle_request json func (suc (length (inbuffer ++ c))) (inbuffer ++ c) outbuffer)
      d =
          handle_request-Delivered json func xs (suc (length (inbuffer ++ c))) (inbuffer ++ c)
            (streamed cs) outbuffer tail a t (append_assoc inbuffer c (streamed cs) ∙ e)
            (omega arith)

      all_replies : outbuffer ++ (replies d.served ++ replies d.left) ≡ outbuffer ++ replies xs
      all_replies =
          ap (◌++◌ outbuffer) (sym (replies-append d.served d.left) ∙ ap replies (sym d.splits))

  -- A stream of packages, each answered by the handler, without a NUL, and cut by the network in any way into pieces
  -- of at most 1023 bytes, behind each of which the array held a NUL: the responses are appended in
  -- order, and what has come of an unfinished package stays in the buffer. A package has a payload that is
  -- not empty and, with 24 bytes more, shorter than 2^31.
  pub deliver_stream :
      (cs : List Piece) (xs : List Exchange) (outbuffer tail : Bytes)
      → AllClean cs
      → AllAnswered json func xs
      → IsCut tail
      → streamed cs ≡ packages xs ++ tail
      → deliver cs [] outbuffer ≡ some (handled tail (outbuffer ++ replies xs))
  deliver_stream cs xs outbuffer tail clean a t e =
      deliver-joined cs xs [] outbuffer tail clean a t (IsCut-prefix [] tail t) e
