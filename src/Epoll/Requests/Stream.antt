-- ===== src/Epoll/Requests/Stream.antt =====
-- `HandleRequest` on a stream of packages that arrives in pieces of any size.
use my_linux.Base.{
  ℕ, zero, suc, ◌<◌, ◌≡◌, refl, sym, ap, ◌≢◌, ◌⊎◌, inl, inr, ◌∙◌, Option, some, List, [], ◌∷◌, ◌++◌,
  true, arith, append_assoc, append-nil, append-split, length, length-append,
}
use my_linux.Base.Int.{pos}
use my_linux.Text.{Bytes}
use my_linux.Protocol.Json.{Json}
use my_linux.Protocol.Message.{Request, Response}
use my_linux.Protocol.{read_package, add_header}
use my_linux.Protocol.Frame.{
  IsShort, length-add_header, read_package-add_header, remove_header-add_header,
}
use my_linux.Protocol.Partial.{Waits, read_package-prefix}
use my_linux.Epoll.Requests.{Handled, handled, is_pos, respond, answer_package, handle_request}
use my_linux.Epoll.Requests.Ends.{handle_request_stop, handle_request_round}

-- A payload with the package that answers it.
pub record Exchange : Type 0 where
  pub payload : Bytes
  pub reply : Bytes

abbrev pub packages : List Exchange → Bytes
packages [] = []
packages (x ∷ xs) = add_header x.payload ++ packages xs

abbrev pub replies : List Exchange → Bytes
replies [] = []
replies (x ∷ xs) = x.reply ++ replies xs

-- A proper prefix of some package: what has come of it so far.
pub record IsCut (s : Bytes) : Type 0 where
  pub payload : Bytes
  pub missing : Bytes
  pub short : IsShort payload
  pub cut : s ++ missing ≡ add_header payload
  pub incomplete : missing ≢ []

-- The front of a buffer that shares its bytes with a package: cut short, or whole.
pub package_split :
    (buffer more s rest : Bytes)
    → IsShort s
    → buffer ++ more ≡ add_header s ++ rest
    → IsCut buffer ⊎ ((c : Bytes) × (buffer ≡ add_header s ++ c) × (c ++ more ≡ rest))
package_split buffer more s rest short e = elim (append-split buffer more (add_header s) rest e) [
  | inl ([], p, q) ↦ inr ([], sym (append-nil buffer) ∙ p ∙ sym (append-nil (add_header s)), q)
  | inl (c ∷ cs, p, q) ↦
      inl (record { payload = s; missing = c ∷ cs; short = short; cut = p; incomplete = λ k. cc })
  | inr whole ↦ inr whole
]

append-ne-nil : (s t : Bytes) → t ≢ [] → s ++ t ≢ []
append-ne-nil [] t h = h
append-ne-nil (x ∷ s) t h = λ e. cc

pub IsCut-prefix : (s t : Bytes) → IsCut (s ++ t) → IsCut s
IsCut-prefix s t c = record {
  payload = c.payload;
  missing = t ++ c.missing;
  short = c.short;
  cut = sym (append_assoc s t c.missing) ∙ c.cut;
  incomplete = append-ne-nil t c.missing c.incomplete;
}

pub IsCut-Waits : (s : Bytes) → IsCut s → Waits s []
IsCut-Waits s c = read_package-prefix c.payload s c.missing [] c.short c.cut c.incomplete

module _ (json : Json) (func : Request → Option Response) where
  -- The server answers this payload by this package. (An empty payload is not answered.)
  pub record Answers (x : Exchange) : Type 0 where
    pub full : x.payload ≢ []
    pub short : IsShort x.payload
    pub answered : respond json func x.payload ≡ some x.reply

  abbrev pub AllAnswered : List Exchange → Type 0
  AllAnswered [] = Unit {0}
  AllAnswered (x ∷ xs) = Answers x × AllAnswered xs

  pub is_pos-length : (s : Bytes) → s ≢ [] → is_pos (pos (length s)) ≡ true
  is_pos-length [] h = absurd (h refl)
  is_pos-length (x ∷ s) h = ground arith

  pub answer_package-add_header :
      (x : Exchange)
      → Answers x
      → answer_package json func (add_header x.payload) (pos (length x.payload)) ≡ some x.reply
  unfolding answer_package
  answer_package-add_header x a = rw (remove_header-add_header x.payload a.short) a.answered

  -- One round on a buffer that begins with a whole package.
  handle_request-package :
      (f : ℕ) (x : Exchange) (rest out : Bytes)
      → Answers x
      → handle_request json func (suc f) (add_header x.payload ++ rest) out
        ≡ handle_request json func f rest (out ++ x.reply)
  handle_request-package f x rest out a =
      handle_request_round json func f (add_header x.payload ++ rest) out {out = x.reply}
        (rw whole (is_pos-length x.payload a.full)) (rw whole (answer_package-add_header x a))
      ∙ rw whole
    where
      whole :
          read_package (add_header x.payload ++ rest) []
          ≡ record { len = pos (length x.payload); packet = add_header x.payload; inbuffer = rest }
      whole = read_package-add_header x.payload rest [] a.short

  handle_request-cut :
      (f : ℕ) (s out : Bytes) → IsCut s → handle_request json func (suc f) s out ≡ handled s out
  handle_request-cut f s out c =
      handle_request_stop json func f s out (rw (IsCut-Waits s c)) ∙ rw (IsCut-Waits s c)

  -- What is left to come when `buffer` has been handled, of the packages `xs` and a cut one.
  pub record Delivered (buffer more out tail : Bytes) (xs : List Exchange) (end : Handled)
      : Type 0 where
    pub served : List Exchange
    pub left : List Exchange
    pub rest : Bytes
    pub splits : xs ≡ served ++ left
    pub ends : end ≡ handled rest (out ++ replies served)
    pub remains : rest ++ more ≡ packages left ++ tail
    pub is_cut : IsCut rest

  pub AllAnswered-left : (xs ys : List Exchange) → AllAnswered (xs ++ ys) → AllAnswered ys
  AllAnswered-left [] ys a = a
  AllAnswered-left (x ∷ xs) ys a = AllAnswered-left xs ys a.1

  -- A buffer that is cut short waits for more.
  Delivered-cut :
      (f : ℕ) (buffer more out tail : Bytes) (xs : List Exchange)
      → buffer ++ more ≡ packages xs ++ tail
      → IsCut buffer
      → Delivered buffer more out tail xs (handle_request json func (suc f) buffer out)
  Delivered-cut f buffer more out tail xs e c = record {
    served = [];
    left = xs;
    rest = buffer;
    splits = refl;
    ends = rw append-nil (handle_request-cut f buffer out c);
    remains = e;
    is_cut = c;
  }

  Delivered-cons :
      (buffer more out tail : Bytes) (x : Exchange) (xs : List Exchange) (buffer' : Bytes)
      {end : Handled}
      → Delivered buffer' more (out ++ x.reply) tail xs end
      → Delivered buffer more out tail (x ∷ xs) end
  Delivered-cons buffer more out tail x xs buffer' d = record {
    served = x ∷ d.served;
    left = d.left;
    rest = d.rest;
    splits = ap (◌∷◌ x) d.splits;
    ends = d.ends ∙ ap (handled d.rest) (append_assoc out x.reply (replies d.served));
    remains = d.remains;
    is_cut = d.is_cut;
  }

  pub handle_request-Delivered :
      (xs : List Exchange) (f : ℕ) (buffer more out tail : Bytes)
      → AllAnswered xs
      → IsCut tail
      → buffer ++ more ≡ packages xs ++ tail
      → length buffer < f
      → Delivered buffer more out tail xs (handle_request json func f buffer out)
  handle_request-Delivered xs zero buffer more out tail a t e h = elim h [ ]
  handle_request-Delivered [] (suc f) buffer more out tail a t e h =
      Delivered-cut f buffer more out tail [] e (IsCut-prefix buffer more (rw e t))
  handle_request-Delivered (x ∷ xs) (suc f) buffer more out tail a t e h =
      elim (package_split buffer more x.payload (packages xs ++ tail) a.0.short
        (e ∙ append_assoc (add_header x.payload) (packages xs) tail)) [
          | inl c ↦ Delivered-cut f buffer more out tail (x ∷ xs) e c
          | inr (c, p, q) ↦ rw p (
              rw (handle_request-package f x c out a.0) (
                Delivered-cons (add_header x.payload ++ c) more out tail x xs c (
                  handle_request-Delivered xs f c more (out ++ x.reply) tail a.1 t q
                    (shorter c (rw p at h)))))
        ]
    where
      shorter : (c : Bytes) → length (add_header x.payload ++ c) < suc f → length c < f
      shorter c k =
          omega (arith, length-append (add_header x.payload) c, length-add_header x.payload)
