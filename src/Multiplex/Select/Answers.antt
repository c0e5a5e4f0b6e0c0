-- ===== src/Multiplex/Select/Answers.antt =====
-- What a client of 8.6/selectServer.2/SelectServer.hpp gets.
use my_linux.Base.{
  ==_iff, ℕ, suc, ◌-◌, ◌<◌, ◌≤◌, ◌≡◌, ◌≢◌, refl, ap, ◌∙◌, inl, inr, false, some, List, [], ◌∷◌,
  ◌++◌, ltb, ◌==◌, get_elem?, set, length, length-append, take_all, arith, Bool-cases,
}
use my_linux.Text.{Bytes, codes, c_string}
use my_linux.Multiplex.{terminated_back, Received, received, taken}
use my_linux.Multiplex.Select.{Server, answer, io_service}

set-last : (text : Bytes) (c d : ℕ) → set (text ++ (c ∷ [])) (length text) d ≡ text ++ (d ∷ [])
set-last [] c d = refl
set-last (x ∷ text) c d = ap (◌∷◌ x) (set-last text c d)

c_string-nul :
    (text : Bytes)
    → ((i b : ℕ) → get_elem? text i ≡ some b → b ≢ 0)
    → c_string (text ++ (0 ∷ [])) ≡ some text
unfolding c_string
c_string-nul [] h = refl
c_string-nul (x ∷ text) h = elim (Bool-cases (x == 0)) [
  | inl e ↦ absurd (h 0 x refl ((==_iff x 0).0 e))
  | inr e ↦ rw (e, c_string-nul text (λ i b p. h (suc i) b p)) refl
]

answer-append :
    (text : Bytes) (c : ℕ)
    → ((i b : ℕ) → get_elem? text i ≡ some b → b ≢ 0)
    → answer (text ++ (c ∷ [])) ≡ some (text ++ codes " server echo: ")
unfolding answer terminated_back
answer-append text c h = rw (answer, terminated_back, inside, at_end, c_string-nul text h) refl
  where
    inside : ltb (length (text ++ (c ∷ []))) 1 ≡ false
    inside = ground (arith, length-append text (c ∷ []))

    at_end : set (text ++ (c ∷ [])) (length (text ++ (c ∷ [])) - 1) 0 ≡ text ++ (0 ∷ [])
    at_end =
        ap (λ k. set (text ++ (c ∷ [])) k 0) (omega (arith, length-append text (c ∷ [])))
        ∙ set-last text c 0

taken_all : (all : Bytes) → length all ≤ 1023 → taken all ≡ all
unfolding taken
taken_all all h = take_all 1023 all h

-- When a client's message of at most 1023 bytes arrives, none of them NUL but perhaps the last, the
-- server sends it back without its last byte and with a suffix, and changes nothing else.
pub io_service_answers :
    (s : Server) (i fd c : ℕ) (text : Bytes) (rest : List Received)
    → length text < 1023
    → ((j b : ℕ) → get_elem? text j ≡ some b → b ≢ 0)
    → s.recvs ≡ received (text ++ (c ∷ [])) ∷ rest
    → io_service s i fd
      ≡ some (record s {
        recvs = rest;
        outputs = s.outputs ++ ((fd, text ++ codes " server echo: ") ∷ []);
      })
unfolding io_service
io_service_answers s i fd c [] rest l h e =
    rw (io_service, e, taken_all (c ∷ []) (omega arith), answer-append [] c h) refl
io_service_answers s i fd c (x ∷ text) rest l h e =
    rw
      (
        io_service,
        e,
        taken_all (x ∷ text ++ (c ∷ [])) (omega (arith, l, length-append text (c ∷ []))),
        answer-append (x ∷ text) c h,
      )
      refl
