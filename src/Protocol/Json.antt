-- ===== src/Protocol/Json.antt =====
-- What the protocol takes from jsoncpp (<jsoncpp/json/json.h>), which is not in the repository.
use my_linux.Base.{◌≡◌, ◌≢◌, Option, some}
use my_linux.Base.Int.{ℤ}
use my_linux.Text.{Bytes}

-- `Json::Value`, its assignment `root[key] = n` and its access `root[key].asInt()`, which throws
-- where the member is no integer; `StyledWriter::write`; `Reader::parse` into a fresh value.
pub record Json : Type 1 where
  pub Value : Type 0
  pub fresh : Value
  pub assign : Value → Bytes → ℤ → Value
  pub as_int : Value → Bytes → Option ℤ
  pub write : Value → Bytes
  pub parse : Bytes → Value

-- Documented: a member reads as it was last assigned, an assignment leaves the other members alone,
-- and the reader gives every member back that the writer was given.
pub record IsFaithful (json : Json) : Type 0 where
  pub assigned : (v : json.Value) (k : Bytes) (n : ℤ) → json.as_int (json.assign v k n) k ≡ some n
  pub others :
      (v : json.Value) (j k : Bytes) (n : ℤ)
      → j ≢ k
      → json.as_int (json.assign v j n) k ≡ json.as_int v k
  pub reparsed :
      (v : json.Value) (k : Bytes) → json.as_int (json.parse (json.write v)) k ≡ json.as_int v k
