-- ===== src/Tests/Jsonlib.antt =====
-- A library in place of jsoncpp: a value is its text, a list of members, the latest first. A member
-- is its key, with each code raised by 1, then 0, a sign and a magnitude.
use my_linux.Base.{
  ℕ, zero, suc, ◌≡◌, refl, ◌≢◌, inl, inr, Option, none, some, [], ◌∷◌, arith, ◌==◌, if◌then◌else◌,
  Bool-cases, ==_iff,
}
use my_linux.Base.Int.{ℤ, pos, negsuc}
use my_linux.Text.{Bytes}
use my_linux.Protocol.Json.{Json, IsFaithful}

unfoldable pub member : Bytes → ℤ → Bytes → Bytes
member [] (pos n) v = 0 ∷ 0 ∷ n ∷ v
member [] (negsuc n) v = 0 ∷ 1 ∷ n ∷ v
member (c ∷ k) n v = suc c ∷ member k n v

number : ℕ → ℕ → ℤ
number zero n = pos n
number (suc _) n = negsuc n

-- What is left of the key after a code that fits, or nothing after one that does not.
advance : ℕ → Option Bytes → Option Bytes
advance c none = none
advance c (some []) = none
advance c (some (d ∷ k)) = if c == d then some k else none

-- The member that is read is wanted if the key has been used up.
unfoldable pub find_member : Bytes → Option Bytes → Bytes → Option ℤ
unfolding advance number
find_member key left (suc c ∷ v) = find_member key (advance c left) v
find_member key (some []) (zero ∷ sign ∷ n ∷ v) = some (number sign n)
find_member key left (zero ∷ sign ∷ n ∷ v) = find_member key (some key) v
find_member key left _ = none

find_member_self :
    (key k : Bytes) (n : ℤ) (v : Bytes) → find_member key (some k) (member k n v) ≡ some n
unfolding find_member member number advance
find_member_self key [] (pos n) v = refl
find_member_self key [] (negsuc n) v = refl
find_member_self key (c ∷ k) n v = rw ((==_iff c c).1 refl) (find_member_self key k n v)

find_member-lost :
    (key k : Bytes) (n : ℤ) (v : Bytes)
    → find_member key none (member k n v) ≡ find_member key (some key) v
unfolding find_member member advance
find_member-lost key [] (pos n) v = refl
find_member-lost key [] (negsuc n) v = refl
find_member-lost key (c ∷ k) n v = find_member-lost key k n v

find_member-other :
    (key k j : Bytes) (n : ℤ) (v : Bytes)
    → j ≢ k
    → find_member key (some k) (member j n v) ≡ find_member key (some key) v
unfolding find_member member advance
find_member-other key [] [] n v h = absurd (h refl)
find_member-other key (d ∷ k) [] (pos n) v h = refl
find_member-other key (d ∷ k) [] (negsuc n) v h = refl
find_member-other key [] (c ∷ j) n v h = find_member-lost key j n v
find_member-other key (d ∷ k) (c ∷ j) n v h = elim (Bool-cases (c == d)) [
  | inl e ↦ rw e (find_member-other key k j n v (λ q. h (ground (arith, e, q))))
  | inr e ↦ rw e (find_member-lost key j n v)
]

abbrev pub text_json : Json
text_json = record {
  Value = Bytes;
  fresh = [];
  assign = λ v k n. member k n v;
  as_int = λ v k. find_member k (some k) v;
  write = λ v. v;
  parse = λ s. s;
}

pub text_json-IsFaithful : IsFaithful text_json
text_json-IsFaithful = record {
  assigned = λ v k n. find_member_self k k n v;
  others = λ v j k n h. find_member-other k k j n v h;
  reparsed = λ v k. refl;
}
