-- ===== src/Http.antt =====
-- 7.22/httpServer/main.cc and funcSet.hpp: an HTTP request is taken apart, and the file that it asks for is
-- sent.
pub mod Lines
pub mod Requests
pub mod Response
pub mod Answers
use my_linux.Base.{
  ℕ, zero, suc, ◌+◌, Bool, true, false, ◌||◌, Option, none, some, List, [], ◌∷◌, ◌++◌, ◌==◌,
  if◌then◌else◌, length, take, drop,
}
use my_linux.Text.{Bytes, codes, find, is_space, to_string}

-- `SEP`
abbrev pub http_sep : Bytes
http_sep = 13 ∷ 10 ∷ []

-- `readLine`: the line, and the message that is left.
unfoldable pub read_line : Bytes → Bytes × Bytes
read_line message = elim (find message http_sep) [
  | none ↦ ([], message)
  | some p ↦ (take p message, drop (p + length http_sep) message)
]

-- `ss >> word`: blanks are passed over, and a word is read up to the next blank.
unfoldable pub skip_blanks : Bytes → Bytes
skip_blanks [] = []
skip_blanks (c ∷ s) = if is_space c then skip_blanks s else c ∷ s

unfoldable pub to_blank : Bytes → Bytes × Bytes
to_blank [] = ([], [])
to_blank (c ∷ s) = let (w, r) = to_blank s in if is_space c then ([], c ∷ s) else (c ∷ w, r)

unfoldable pub word : Bytes → Bytes × Bytes
unfolding skip_blanks to_blank
word s = to_blank (skip_blanks s)

-- `separateString`
unfoldable pub separate_string : Bytes → Bytes × Bytes × Bytes
unfolding word
separate_string line =
    let (method, r) = word line in
    let (url, t) = word r in let (version, u) = word t in (method, url, version)

-- `class HttpRequest`
pub record HttpRequest : Type 0 where
  pub method : Bytes
  pub url : Bytes
  pub http_version : Bytes
  pub body : List Bytes
  pub path : Bytes
  pub suffix : Bytes

-- The loop of `Desarialize`, at most as many rounds as the fuel says; `none` is a loop that has not ended
-- by then.
unfoldable pub read_body : ℕ → Bytes → Option (List Bytes)
unfolding read_line
read_body k [] = some []
read_body zero (c ∷ s) = none
read_body (suc k) (c ∷ s) =
    let (line, left) = read_line (c ∷ s) in
    elim (read_body k left) [ none ↦ none | some lines ↦ some (line ∷ lines) ]

-- The default page is added to a path that ends in a slash.
unfoldable pub add_page : Bytes → Bytes
add_page [] = []
add_page (c ∷ []) = if c == b'/' then c ∷ codes "index.html" else c ∷ []
add_page (c ∷ d ∷ s) = c ∷ add_page (d ∷ s)

-- `rfind('.')` and what stands from there on.
unfoldable pub from_dot : Bytes → Option Bytes
from_dot [] = none
from_dot (c ∷ s) = elim (from_dot s) [
  | none ↦ if c == b'.' then some (c ∷ s) else none
  | some r ↦ some r
]

unfoldable pub suffix_of : Bytes → Bytes
unfolding from_dot
suffix_of path = elim (from_dot path) [ none ↦ codes ".html" | some s ↦ s ]

-- `webRoot`
abbrev pub web_root : Bytes
web_root = codes "./wwwroot"

-- `Desarialize`
unfoldable pub desarialize : ℕ → Bytes → Option HttpRequest
unfolding read_line separate_string read_body add_page suffix_of
desarialize k message =
    let (line, left) = read_line message in
    let (method, url, version) = separate_string line in
    let path = add_page (web_root ++ url) in
    elim (read_body k left) [
      | none ↦ none
      | some lines ↦ some (record {
        method = method;
        url = url;
        http_version = version;
        body = lines;
        path = path;
        suffix = suffix_of path;
      })
    ]
