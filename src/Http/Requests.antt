-- ===== src/Http/Requests.antt =====
-- `Desarialize` of 7.22/httpServer/main.cc on whole requests.
use my_linux.Base.{
  ℕ, ◌+◌, ◌≡◌, refl, ap, ap₂, ◌∙◌, Option, none, some, List, [], ◌∷◌, ◌++◌, length, arith,
}
use my_linux.Text.{Bytes}
use my_linux.Text.Find.{Lacks}
use my_linux.Http.{
  HttpRequest, read_line, separate_string, read_body, add_page, from_dot, suffix_of, web_root,
  desarialize,
}
use my_linux.Http.Lines.{
  joined, AllLines, NoBlanks, read_line-append, read_body-joined, read_body-lacking,
  separate_string_lem,
}

-- The request from the words of its line and the lines behind it.
made : Bytes × Bytes × Bytes → Option (List Bytes) → Option HttpRequest
made w o = elim o [
  | none ↦ none
  | some lines ↦ some (record {
    method = w.0;
    url = w.1;
    http_version = w.2;
    body = lines;
    path = add_page (web_root ++ w.1);
    suffix = suffix_of (add_page (web_root ++ w.1));
  })
]

-- From a request line of three words with a blank between them and any lines behind it, all ended by the
-- separator and without a carriage return inside, Desarialize reads the three words and the lines,
-- within a round for each line.
pub desarialize-joined :
    (a b c : ℕ) (m u v : Bytes) (ls : List Bytes) (k : ℕ)
    → NoBlanks (a ∷ m)
    → NoBlanks (b ∷ u)
    → NoBlanks (c ∷ v)
    → Lacks 13 (a ∷ m ++ (32 ∷ b ∷ u ++ (32 ∷ c ∷ v)))
    → AllLines ls
    → desarialize (length ls + k) (joined ((a ∷ m ++ (32 ∷ b ∷ u ++ (32 ∷ c ∷ v))) ∷ ls))
      ≡ some (record {
        method = a ∷ m;
        url = b ∷ u;
        http_version = c ∷ v;
        body = ls;
        path = add_page (web_root ++ (b ∷ u));
        suffix = suffix_of (add_page (web_root ++ (b ∷ u)));
      })
unfolding desarialize made
desarialize-joined a b c m u v ls k h i j l q =
    ap (λ p. made (separate_string p.0) (read_body (length ls + k) p.1)) first
    ∙ ap₂ made words (read_body-joined ls (length ls + k) k q refl)
  where
    first :
        read_line ((a ∷ m ++ (32 ∷ b ∷ u ++ (32 ∷ c ∷ v))) ++ (13 ∷ 10 ∷ joined ls))
        ≡ (a ∷ m ++ (32 ∷ b ∷ u ++ (32 ∷ c ∷ v)), joined ls)
    first = read_line-append (a ∷ m ++ (32 ∷ b ∷ u ++ (32 ∷ c ∷ v))) (joined ls) l

    words : separate_string (a ∷ m ++ (32 ∷ b ∷ u ++ (32 ∷ c ∷ v))) ≡ (a ∷ m, b ∷ u, c ∷ v)
    words = separate_string_lem a b c m u v h i j

-- When text without a carriage return is left behind the request line, as a body has it, Desarialize does not
-- end, however many rounds it is given.
pub desarialize_sticks :
    (line s : Bytes) (c k : ℕ)
    → Lacks 13 line
    → Lacks 13 (c ∷ s)
    → desarialize k (line ++ (13 ∷ 10 ∷ c ∷ s)) ≡ none
unfolding desarialize
desarialize_sticks line s c k h i =
    rw (desarialize, read_line-append line (c ∷ s) h) (rw (read_body-lacking c s k i) refl)

from_dot-lacking : (s : Bytes) → Lacks b'.' s → from_dot s ≡ none
unfolding from_dot
from_dot-lacking [] h = refl
from_dot-lacking (c ∷ s) h = ground (arith, from_dot-lacking s h.1)

-- The suffix of a path without a dot in its url is the whole path, never .html: the dot of the web root is
-- found.
pub suffix_of-web_root :
    (url : Bytes) → Lacks b'.' url → suffix_of (web_root ++ url) ≡ web_root ++ url
unfolding suffix_of from_dot
suffix_of-web_root url h = rw (suffix_of, from_dot, from_dot-lacking url h) refl
