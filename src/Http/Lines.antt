-- ===== src/Http/Lines.antt =====
-- The lines and words of a request (7.22/httpServer/funcSet.hpp).
use my_linux.Base.{
  ℕ, zero, suc, ◌+◌, ◌≡◌, refl, ap, ◌∙◌, sym, false, Option, none, some, List, [], ◌∷◌, ◌++◌,
  length, length-append, append_assoc, ap₂, drop, take-append, drop-append, arith,
}
use my_linux.Text.{Bytes, is_space}
use my_linux.Text.Find.{Lacks, find_behind, find_lacking}
use my_linux.Http.{read_line, skip_blanks, to_blank, word, separate_string, read_body}

-- Lines, each with the separator behind it.
abbrev pub joined : List Bytes → Bytes
joined [] = []
joined (l ∷ ls) = l ++ (13 ∷ 10 ∷ joined ls)

-- No line has a carriage return.
abbrev pub AllLines : List Bytes → Type 0
AllLines [] = Unit {0}
AllLines (l ∷ ls) = Lacks 13 l × AllLines ls

pub read_line-append : (l rest : Bytes) → Lacks 13 l → read_line (l ++ (13 ∷ 10 ∷ rest)) ≡ (l, rest)
unfolding read_line
read_line-append l rest h =
    rw (read_line, find_behind 13 10 l rest h)
      (ap₂ (λ a b. (a, b)) (take-append l (13 ∷ 10 ∷ rest) refl) behind)
  where
    behind : drop (length l + 2) (l ++ (13 ∷ 10 ∷ rest)) ≡ rest
    behind =
        ap (drop (length l + 2)) (sym (append_assoc l (13 ∷ 10 ∷ []) rest))
        ∙ drop-append (l ++ (13 ∷ 10 ∷ [])) rest (omega (arith, length-append l (13 ∷ 10 ∷ [])))

read_body_step :
    (c : ℕ) (s : Bytes) (k : ℕ) (line left : Bytes) (lines : List Bytes)
    → read_line (c ∷ s) ≡ (line, left)
    → read_body k left ≡ some lines
    → read_body (suc k) (c ∷ s) ≡ some (line ∷ lines)
unfolding read_body
read_body_step c s k line left lines e f =
    ap
      (λ (q : Bytes × Bytes). elim (read_body k q.1) as (λ _. Option (List Bytes)) [
        | none ↦ none
        | some ls ↦ some (q.0 ∷ ls)
      ])
      e
    ∙ rw f refl

pub read_body-joined :
    (ls : List Bytes) (f k : ℕ)
    → AllLines ls
    → f ≡ length ls + k
    → read_body f (joined ls) ≡ some ls
unfolding read_body
read_body-joined [] f k h e = refl
read_body-joined (l ∷ ls) zero k h e = absurd (omega (arith, e))
read_body-joined ([] ∷ ls) (suc f) k h e =
    read_body_step 13 (10 ∷ joined ls) f [] (joined ls) ls (read_line-append [] (joined ls) h.0)
      (read_body-joined ls f k h.1 (omega (arith, e)))
read_body-joined ((x ∷ l) ∷ ls) (suc f) k h e =
    read_body_step x (l ++ (13 ∷ 10 ∷ joined ls)) f (x ∷ l) (joined ls) ls
      (read_line-append (x ∷ l) (joined ls) h.0) (read_body-joined ls f k h.1 (omega (arith, e)))

-- A message that is not empty and has no separator is never used up.
pub read_body-lacking : (c : ℕ) (s : Bytes) (k : ℕ) → Lacks 13 (c ∷ s) → read_body k (c ∷ s) ≡ none
unfolding read_body read_line
read_body-lacking c s zero h = refl
read_body-lacking c s (suc k) h =
    rw (read_body, read_line, find_lacking 13 10 (c ∷ s) h) (rw (read_body-lacking c s k h) refl)

-- A word has no blanks.
abbrev pub NoBlanks : Bytes → Type 0
NoBlanks [] = Unit {0}
NoBlanks (c ∷ s) = (is_space c ≡ false) × NoBlanks s

to_blank-append : (w rest : Bytes) → NoBlanks w → to_blank (w ++ (32 ∷ rest)) ≡ (w, 32 ∷ rest)
unfolding to_blank
to_blank-append [] rest h = refl
to_blank-append (c ∷ w) rest h = rw (to_blank, h.0, to_blank-append w rest h.1) refl

to_blank_all : (w : Bytes) → NoBlanks w → to_blank w ≡ (w, [])
unfolding to_blank
to_blank_all [] h = refl
to_blank_all (c ∷ w) h = rw (to_blank, h.0, to_blank_all w h.1) refl

word-append :
    (c : ℕ) (w rest : Bytes) → NoBlanks (c ∷ w) → word (c ∷ w ++ (32 ∷ rest)) ≡ (c ∷ w, 32 ∷ rest)
unfolding word skip_blanks
word-append c w rest h = rw (word, h.0) (to_blank-append (c ∷ w) rest h)

word_next :
    (c : ℕ) (w rest : Bytes)
    → NoBlanks (c ∷ w)
    → word (32 ∷ c ∷ w ++ (32 ∷ rest)) ≡ (c ∷ w, 32 ∷ rest)
unfolding word skip_blanks
word_next c w rest h = rw (word, h.0) (to_blank-append (c ∷ w) rest h)

word_last : (c : ℕ) (w : Bytes) → NoBlanks (c ∷ w) → word (32 ∷ c ∷ w) ≡ (c ∷ w, [])
unfolding word skip_blanks
word_last c w h = rw (word, h.0) (to_blank_all (c ∷ w) h)

-- Three words with a blank between them.
pub separate_string_lem :
    (a b c : ℕ) (m u v : Bytes)
    → NoBlanks (a ∷ m)
    → NoBlanks (b ∷ u)
    → NoBlanks (c ∷ v)
    → separate_string (a ∷ m ++ (32 ∷ b ∷ u ++ (32 ∷ c ∷ v))) ≡ (a ∷ m, b ∷ u, c ∷ v)
unfolding separate_string
separate_string_lem a b c m u v h i j =
    rw
      (
        separate_string,
        word-append a m (b ∷ u ++ (32 ∷ c ∷ v)) h,
        word_next b u (c ∷ v) i,
        word_last c v j,
      )
      refl
