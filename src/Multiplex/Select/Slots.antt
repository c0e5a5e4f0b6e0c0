-- ===== src/Multiplex/Select/Slots.antt =====
-- The array of 8.6/selectServer.2/SelectServer.hpp, its column of descriptors, and the answer.
use my_linux.Base.{
  ltb, false, ℕ, ◌-◌, ◌<◌, ◌≡◌, refl, ap, some, List, [], ◌∷◌, ◌++◌, set, length, arith,
}
use my_linux.Text.{Bytes, codes}
use my_linux.Multiplex.{terminated_back, Accepted, accepted, accept_failed}
use my_linux.Multiplex.Places.{c_string-set_last}
use my_linux.Multiplex.Select.{fd_size, answer}

-- The descriptors that the clients will get are in the range of a set.
pub data Fits : List Accepted → Type 0 where
  none_left : Fits []
  fails : {rest : List Accepted} → Fits rest → Fits (accept_failed ∷ rest)
  gives :
      {rest : List Accepted} {fd port : ℕ} {ip : Bytes}
      → fd < fd_size
      → Fits rest
      → Fits (accepted fd ip port ∷ rest)

pub Fits-failed : {rest : List Accepted} → Fits (accept_failed ∷ rest) → Fits rest
Fits-failed (fails r) = r

pub Fits-accepted :
    {rest : List Accepted} {fd port : ℕ} {ip : Bytes}
    → Fits (accepted fd ip port ∷ rest)
    → (fd < fd_size) × Fits rest
Fits-accepted (gives l r) = (l, r)

pub answer-some : (b : ℕ) (bytes : Bytes) → (resp : Bytes) × (answer (b ∷ bytes) ≡ some resp)
unfolding answer terminated_back
answer-some b bytes =
    let (text, e) = c_string-set_last b bytes in
    rw (answer, terminated_back, inside, ap (λ k. set (b ∷ bytes) k 0) last)
      (rw e (text ++ codes " server echo: ", refl))
  where
    inside : ltb (length (b ∷ bytes)) 1 ≡ false
    inside = ground arith

    last : length (b ∷ bytes) - 1 ≡ length bytes
    last = omega arith
