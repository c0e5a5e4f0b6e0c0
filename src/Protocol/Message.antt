-- ===== src/Protocol/Message.antt =====
-- `class Request` and `class Response` of 8.11/epollServer.2/protocol.hpp, in the configuration that
-- is compiled (`MYPROTOCOL` is not defined).
use my_linux.Base.{ℕ, ◌-◌, ◌%◌, ◌<◌, ◌≡◌, Option, none, some, arith, ltb, if◌then◌else◌, ◌∙◌}
use my_linux.Base.Int.{ℤ, pos, negsuc}
use my_linux.Text.{Bytes, codes}
use my_linux.Protocol.Json.{Json, IsFaithful}

-- A `char` by its bits, and as the `int` that it is promoted to; `int` to `char`.
unfoldable pub char_to_int : ℕ → ℤ
char_to_int c = if ltb c 128 then pos c else negsuc (255 - c)

unfoldable pub int_to_char : ℤ → ℕ
int_to_char (pos n) = n % 256
int_to_char (negsuc n) = 255 - n % 256

pub char-int : (c : ℕ) → c < 256 → int_to_char (char_to_int c) ≡ c
unfolding int_to_char char_to_int
char-int c h = ground arith

pub record Request : Type 0 where
  pub x : ℤ
  pub y : ℤ
  pub op : ℕ

pub record Response : Type 0 where
  pub result : ℤ
  pub code : ℤ

infixl 5 ◌>>=◌
abbrev pub ◌>>=◌ {ℓ κ} : {A : Type ℓ} {B : Type κ} → Option A → (A → Option B) → Option B
none >>= f = none
some a >>= f = f a

module _ (json : Json) where
  open json use {fresh, assign, as_int, write, parse}

  unfoldable pub serialize_request : Request → Bytes
  serialize_request r = write (
      assign (assign (assign fresh (codes "x") r.x) (codes "y") r.y) (codes "op")
        (char_to_int r.op))

  -- `none` is an exception of `asInt`.
  unfoldable pub deserialize_request : Bytes → Option Request
  deserialize_request s = do
    x ← as_int (parse s) (codes "x")
    y ← as_int (parse s) (codes "y")
    op ← as_int (parse s) (codes "op")
    some (record { x = x; y = y; op = int_to_char op })

  unfoldable pub serialize_response : Response → Bytes
  serialize_response r = write (assign (assign fresh (codes "res") r.result) (codes "code") r.code)

  unfoldable pub deserialize_response : Bytes → Option Response
  deserialize_response s = do
    result ← as_int (parse s) (codes "res")
    code ← as_int (parse s) (codes "code")
    some (record { result = result; code = code })

  -- A request comes back from its text.
  pub deserialize-serialize_request :
      IsFaithful json
      → (r : Request) → r.op < 256
      → deserialize_request (serialize_request r) ≡ some r
  unfolding deserialize_request serialize_request
  deserialize-serialize_request f r h = rw (x_read, y_read, op_read, char-int r.op h)
    where
      v₁ : json.Value
      v₁ = assign fresh (codes "x") r.x

      v₂ : json.Value
      v₂ = assign v₁ (codes "y") r.y

      v₃ : json.Value
      v₃ = assign v₂ (codes "op") (char_to_int r.op)

      x_read : as_int (parse (write v₃)) (codes "x") ≡ some r.x
      x_read =
          f.reparsed v₃ _
          ∙ f.others v₂ _ (codes "x") _ (λ e. ground arith)
          ∙ f.others v₁ _ (codes "x") _ (λ e. ground arith)
          ∙ f.assigned _ _ _

      y_read : as_int (parse (write v₃)) (codes "y") ≡ some r.y
      y_read = f.reparsed v₃ _ ∙ f.others v₂ _ (codes "y") _ (λ e. ground arith) ∙ f.assigned _ _ _

      op_read : as_int (parse (write v₃)) (codes "op") ≡ some (char_to_int r.op)
      op_read = f.reparsed v₃ _ ∙ f.assigned _ _ _

  -- So does a response.
  pub deserialize-serialize_response :
      IsFaithful json → (r : Response) → deserialize_response (serialize_response r) ≡ some r
  unfolding deserialize_response serialize_response
  deserialize-serialize_response f r = rw (result_read, code_read)
    where
      v₁ : json.Value
      v₁ = assign fresh (codes "res") r.result

      v₂ : json.Value
      v₂ = assign v₁ (codes "code") r.code

      result_read : as_int (parse (write v₂)) (codes "res") ≡ some r.result
      result_read =
          f.reparsed v₂ _ ∙ f.others v₁ _ (codes "res") _ (λ e. ground arith) ∙ f.assigned _ _ _

      code_read : as_int (parse (write v₂)) (codes "code") ≡ some r.code
      code_read = f.reparsed v₂ _ ∙ f.assigned _ _ _
