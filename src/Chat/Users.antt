-- ===== src/Chat/Users.antt =====
-- The map of users of the chat server (7.17/v2_udp_socket_/udp_server.hpp).
use mathlib.Core.Bool.{true≢false}
use my_linux.Base.{
  ℕ, zero, suc, ◌<◌, ◌≡◌, ◌⊎◌, inl, inr, refl, ap, ap₂, sym, ◌∙◌, Bool, true, false, ◌&&◌, some,
  List, [], ◌∷◌, ◌++◌, ◌==◌, length, get_elem?, arith, Bool-cases, append_assoc,
}
use mathlib.Core.Option.{none-ne-some, some-injective}
use my_linux.Text.{codes, to_string, Bytes, same_text}
use my_linux.Chat.{Address, name_of, put_user, addresses}

and_both : (a b : Bool) → (a && b) ≡ true → (a ≡ true) × (b ≡ true)
and_both true b h = (refl, h)
and_both false b h = absurd (true≢false (sym h))

same_text-eq : (s t : Bytes) → same_text s t ≡ true → s ≡ t
unfolding same_text
same_text-eq [] [] h = refl
same_text-eq [] (y ∷ t) h = absurd (true≢false (sym h))
same_text-eq (x ∷ s) [] h = absurd (true≢false (sym h))
same_text-eq (x ∷ s) (y ∷ t) h =
    let (a, b) = and_both (x == y) (same_text s t) h in
    ap₂ (λ (p : ℕ) (q : Bytes). p ∷ q) (ground arith) (same_text-eq s t b)

-- The name of a user: the text of the address and the port, with a colon between them.
abbrev pub label : Address → Bytes
label a = a.ip ++ (codes " : " ++ to_string a.port)

-- The name is in the map, with an address of that name.
abbrev pub HasUser : Bytes → List (Bytes × Address) → Type 0
HasUser name [] = ⊥
HasUser name ((k, a) ∷ users) = ((k ≡ name) × (label a ≡ name)) ⊎ HasUser name users

-- A message goes to an address of that name.
abbrev pub Reaches : Bytes → List Address → Type 0
Reaches name [] = ⊥
Reaches name (a ∷ v) = (label a ≡ name) ⊎ Reaches name v

pub HasUser-Reaches :
    (name : Bytes) (users : List (Bytes × Address))
    → HasUser name users
    → Reaches name (addresses users)
HasUser-Reaches name [] h = h
HasUser-Reaches name ((k, a) ∷ users) (inl h) = inl h.1
HasUser-Reaches name ((k, a) ∷ users) (inr h) = inr (HasUser-Reaches name users h)

pub HasUser-put_user :
    (sock : Address) (users : List (Bytes × Address))
    → HasUser (label sock) (put_user (name_of sock) sock users)
unfolding put_user name_of
HasUser-put_user sock [] = inl (refl, refl)
HasUser-put_user sock ((k, a) ∷ users) = elim (Bool-cases (same_text k (name_of sock))) [
  | inl e ↦ rw (put_user, e) (inl (same_text-eq k (name_of sock) e, refl))
  | inr e ↦ rw (put_user, e) (inr (HasUser-put_user sock users))
]

pub HasUser-put_other :
    (name : Bytes) (sock : Address) (users : List (Bytes × Address))
    → HasUser name users
    → HasUser name (put_user (name_of sock) sock users)
unfolding put_user name_of
HasUser-put_other name sock [] h = absurd h
HasUser-put_other name sock ((k, a) ∷ users) h = elim (Bool-cases (same_text k (name_of sock))) [
  | inl e ↦ rw (put_user, e) (replaced e h)
  | inr e ↦ rw (put_user, e) (kept (HasUser-put_other name sock users) h)
]
  where
    replaced :
        same_text k (name_of sock) ≡ true
        → HasUser name ((k, a) ∷ users)
        → HasUser name ((k, sock) ∷ users)
    replaced e (inl (p, q)) = inl (p, sym (same_text-eq k (name_of sock) e) ∙ p)
    replaced e (inr h) = inr h

    kept :
        (HasUser name users → HasUser name (put_user (name_of sock) sock users))
        → HasUser name ((k, a) ∷ users)
        → HasUser name ((k, a) ∷ put_user (name_of sock) sock users)
    kept f (inl h) = inl h
    kept f (inr h) = inr (f h)

-- What stands in a list with one more element behind it.
pub append_cases {ℓ} :
    {A : Type ℓ} (xs : List A) (v a : A) (j : ℕ)
    → get_elem? (xs ++ (v ∷ [])) j ≡ some a
    → ((j < length xs) × (get_elem? xs j ≡ some a)) ⊎ ((j ≡ length xs) × (a ≡ v))
append_cases [] v a zero e = inr (refl, sym (some-injective v a e))
append_cases [] v a (suc j) e = absurd (none-ne-some a e)
append_cases (x ∷ xs) v a zero e = inl (omega arith, e)
append_cases (x ∷ xs) v a (suc j) e = elim (append_cases xs v a j e) [
  | inl (l, f) ↦ inl (omega (arith, l), f)
  | inr (l, f) ↦ inr (ap suc l, f)
]

pub get_elem?-length {ℓ} :
    {A : Type ℓ} (xs : List A) (i : ℕ) (a : A) → get_elem? xs i ≡ some a → i < length xs
get_elem?-length [] i a e = absurd (none-ne-some a e)
get_elem?-length (x ∷ xs) zero a e = omega arith
get_elem?-length (x ∷ xs) (suc i) a e = omega (arith, get_elem?-length xs i a e)

pub append_three {ℓ} : {A : Type ℓ} (a b c t : List A) → (a ++ (b ++ c)) ++ t ≡ a ++ (b ++ (c ++ t))
append_three a b c t = append_assoc a (b ++ c) t ∙ ap (λ l. a ++ l) (append_assoc b c t)
