-- ===== src/Tests/Http.antt =====
-- Requests to 7.22/httpServer/main.cc.
use my_linux.Text.{same_text, codes, c_string, find, to_string, digits}
use my_linux.Multiplex.{received}
use my_linux.Http.Response.{
  File, readable, no_file, read_file, serve_http, taken_4096, handler_http_request, response_of,
  get_content_type, content_type_line,
}
use my_linux.Base.{if◌then◌else◌, ◌+◌, ◌≡◌, refl, none, some, List, [], ◌∷◌, ◌++◌, arith}
use my_linux.Text.{Bytes}
use my_linux.Http.{desarialize, add_page, suffix_of, web_root}
use my_linux.Http.Lines.{joined}
use my_linux.Http.Requests.{desarialize-joined, desarialize_sticks, suffix_of-web_root}

-- GET / H, a header line and the empty line.
abbrev lines : List Bytes
lines = (b'A' ∷ b':' ∷ []) ∷ [] ∷ []

desarialize-joined_example :
    desarialize (2 + 0) (joined ((b'G' ∷ [] ++ (32 ∷ b'/' ∷ [] ++ (32 ∷ b'H' ∷ []))) ∷ lines))
    ≡ some (record {
      method = b'G' ∷ [];
      url = b'/' ∷ [];
      http_version = b'H' ∷ [];
      body = lines;
      path = add_page (web_root ++ (b'/' ∷ []));
      suffix = suffix_of (add_page (web_root ++ (b'/' ∷ [])));
    })
desarialize-joined_example =
    desarialize-joined b'G' b'/' b'H' [] [] [] lines 0 (refl, tt) (refl, tt) (refl, tt)
      (
        λ e. omega (arith, e),
        (
          λ e. omega (arith, e),
          (λ e. omega (arith, e), (λ e. omega (arith, e), (λ e. omega (arith, e), tt))),
        ),
      )
      ((λ e. omega (arith, e), (λ e. omega (arith, e), tt)), (tt, tt))

desarialize_sticks_example : desarialize 1000 (b'P' ∷ [] ++ (13 ∷ 10 ∷ b'x' ∷ [])) ≡ none
desarialize_sticks_example =
    desarialize_sticks (b'P' ∷ []) [] b'x' 1000 (λ e. omega (arith, e), tt)
      (λ e. omega (arith, e), tt)

dotless : suffix_of (web_root ++ (b'/' ∷ b'a' ∷ [])) ≡ web_root ++ (b'/' ∷ b'a' ∷ [])
dotless = suffix_of-web_root (b'/' ∷ b'a' ∷ []) (λ e. omega (arith, e), (λ e. omega (arith, e), tt))

-- One file of two bytes, of which `read` gives one.
abbrev files : Bytes → File
files path =
    if same_text path (codes "./wwwroot/index.html") then readable 2 (b'x' ∷ []) else no_file

answer_text :
    serve_http files 2
      (received (joined ((b'G' ∷ [] ++ (32 ∷ b'/' ∷ [] ++ (32 ∷ b'H' ∷ []))) ∷ lines)))
    ≡ some (
        codes "HTTP/1.0 200 OK\r\nContent-Length: 2\r\nContent_Type: text/html\r\n\r\nx"
        ++ (0 ∷ []))
unfolding serve_http taken_4096 c_string handler_http_request desarialize find response_of read_file
    same_text to_string digits get_content_type content_type_line
answer_text = refl
