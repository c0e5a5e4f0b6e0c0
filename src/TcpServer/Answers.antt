-- ===== src/TcpServer/Answers.antt =====
-- What a client of 7.19/tcp_socket/tcp_server.hpp gets.
use my_linux.Base.{
  inl, inr, List-cases, length-take, ℕ, ◌<◌, ◌≤◌, ◌≡◌, refl, ap, sym, ◌∙◌, false, none, some, List,
  [], ◌∷◌, ◌++◌, ltb, length, take, map, arith, append_assoc, append-nil, take_all, lt→ltb,
}
use my_linux.Text.{Bytes}
use my_linux.Text.Find.{Lacks, c_string_lem}
use my_linux.Multiplex.{Received, received, recv_failed}
use my_linux.TcpServer.{ServiceEnd, closed, overwrites, read_2048, respond_to, service}

-- A text with room for the terminator, and without a NUL.
abbrev pub IsText : Bytes → Type 0
IsText text = (0 < length text) × (length text < 2048) × Lacks 0 text

abbrev pub AllTexts : List Bytes → Type 0
AllTexts [] = Unit {0}
AllTexts (t ∷ texts) = IsText t × AllTexts texts

-- What ends the service: the client's end of the stream, an error, or a buffer that is full.
pub data Last : List Received → (Bytes → ServiceEnd) → Type 0 where
  hangs_up : (rs : List Received) → Last (received [] ∷ rs) closed
  read_fails : (rs : List Received) → Last (recv_failed ∷ rs) closed
  fills :
      (all : Bytes) (rs : List Received)
      → 2048 ≤ length all
      → Last (received all ∷ rs) (λ written. overwrites)

abbrev pub replies : (Bytes → Bytes) → List Bytes → Bytes
replies func [] = []
replies func (t ∷ texts) = func t ++ replies func texts

respond_to-text :
    (func : Bytes → Bytes) (text : Bytes) → IsText text → respond_to func text ≡ some (func text)
unfolding respond_to
respond_to-text func text (p, l, h) =
    rw (respond_to, lt→ltb (length text) 2048 l, c_string_lem text [] h) refl

read_text : (text : Bytes) → length text < 2048 → read_2048 text ≡ text
unfolding read_2048
read_text text l = take_all 2048 text (omega (arith, l))

module _ (func : Bytes → Bytes) where
  service-text :
      (text : Bytes) (rs : List Received) (written : Bytes)
      → IsText text
      → service func (received text ∷ rs) written ≡ service func rs (written ++ func text)
  unfolding service
  service-text [] rs written (p, l, h) = elim p [ ]
  service-text (b ∷ text) rs written (p, l, h) =
      rw (service, read_text (b ∷ text) l, respond_to-text func (b ∷ text) (p, l, h)) refl

  full :
      (all : Bytes)
      → 2048 ≤ length all
      → (b : ℕ) × (bytes : Bytes) × (read_2048 all ≡ b ∷ bytes)
        × (respond_to func (b ∷ bytes) ≡ none)
  unfolding read_2048 respond_to
  full all l = elim (List-cases (take 2048 all)) [
    | inl e ↦ absurd (omega (arith, l, ap length e, length-take 2048 all))
    | inr (b, bytes, e) ↦ (
      b,
      bytes,
      e,
      rw (respond_to, no_room b bytes (omega (arith, l, ap length e, length-take 2048 all))) refl,
    )
  ]
    where
      no_room :
          (b : ℕ) (bytes : Bytes)
          → 2048 ≤ length (b ∷ bytes)
          → ltb (length (b ∷ bytes)) 2048 ≡ false
      no_room b bytes l = ground arith

  service-Last :
      (rs : List Received) (end : Bytes → ServiceEnd) (written : Bytes)
      → Last rs end
      → service func rs written ≡ end written
  unfolding service read_2048
  service-Last _ _ written (hangs_up rs) = refl
  service-Last _ _ written (read_fails rs) = refl
  service-Last _ _ written (fills all rs l) =
      let (b, bytes, e, f) = full all l in rw (service, e, f) refl

  -- To texts that are not empty, without a NUL and shorter than 2048 bytes, each read by one call, the server writes the
  -- answers in order; it closes the socket at the end of the stream or an error, and runs into
  -- undefined behaviour when a call of read fills the buffer.
  pub service_answers :
      (texts : List Bytes) (rs : List Received) (end : Bytes → ServiceEnd) (written : Bytes)
      → AllTexts texts
      → Last rs end
      → service func (map received texts ++ rs) written ≡ end (written ++ replies func texts)
  service_answers [] rs end written t z =
      service-Last rs end written z ∙ ap end (sym (append-nil written))
  service_answers (x ∷ texts) rs end written t z =
      service-text x (map received texts ++ rs) written t.0
      ∙ service_answers texts rs end (written ++ func x) t.1 z
      ∙ ap end (append_assoc written (func x) (replies func texts))
