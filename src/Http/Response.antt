-- ===== src/Http/Response.antt =====
-- The response to a request (7.22/httpServer/main.cc), the file in it (funcSet.hpp), and the service of one
-- client (http_server.hpp).
use my_linux.Base.{
  ℕ, ◌-◌, Bool, true, false, ◌||◌, Option, none, some, [], ◌∷◌, ◌++◌, ltb, if◌then◌else◌, length,
  take, replicate,
}
use my_linux.Text.{same_text, Bytes, codes, c_string, to_string}
use my_linux.Multiplex.{Received, received, recv_failed}
use my_linux.Http.{http_sep, desarialize}

-- What the file system gives for a path: no file, one of some size that cannot be opened, or one that
-- can, with its size (below 2^31) and what `read` gives of it.
pub data File : Type 0 where
  no_file : File
  unreadable : ℕ → File
  readable : ℕ → Bytes → File

-- `readFile`: whether it is read, and the content, as long as the size from the `resize` on.
unfoldable pub read_file : File → Bool × Bytes
read_file no_file = (false, [])
read_file (unreadable size) = (false, replicate size 0)
read_file (readable size content) = (true, take size content ++ replicate (size - length content) 0)

-- `getContentType`: its line, and the separator.
unfoldable pub content_type_line : Bytes → Bytes
unfolding same_text
content_type_line suffix =
    codes "Content_Type: "
    ++ (if same_text suffix (codes ".html") || same_text suffix (codes ".htm")
        then codes "text/html"
        else if same_text suffix (codes ".jpg")
        then codes "image/jpeg"
        else [])

unfoldable pub get_content_type : Bytes → Bytes
get_content_type suffix = content_type_line suffix ++ http_sep

abbrev pub status_line : Bool → Bytes
status_line found = if found then codes "HTTP/1.0 200 OK" else codes "HTTP/1.0 404 Not Found"

-- The response for the suffix and what came of the file.
unfoldable pub response_of : Bytes → Bool × Bytes → Bytes
response_of suffix (found, body) =
    (status_line found ++ http_sep)
    ++ (((codes "Content-Length: " ++ to_string (length body)) ++ http_sep)
        ++ (get_content_type suffix ++ (http_sep ++ body)))

-- What `recv` gives into `buffer`.
unfoldable pub taken_4096 : Bytes → Bytes
taken_4096 all = take 4096 all

module _ (files : Bytes → File) where
  -- `handlerHttpRequest`; `none` is a loop of `Desarialize` that has not ended after `k` rounds.
  unfoldable pub handler_http_request : ℕ → Bytes → Option Bytes
  handler_http_request k message = elim (desarialize k message) [
    | none ↦ none
    | some req ↦ some (response_of req.suffix (read_file (files req.path)))
  ]

  -- `httpServer::handlerHttpRequest`: what is sent to the client, if anything; `none` also stands for the
  -- terminator behind a full buffer, which is undefined.
  unfoldable pub serve_http : ℕ → Received → Option Bytes
  serve_http k recv_failed = some []
  serve_http k (received all) = elim (taken_4096 all) [
    | [] ↦ some []
    | b ∷ bytes ↦
        if ltb (length (b ∷ bytes)) 4096
        then elim (c_string ((b ∷ bytes) ++ (0 ∷ []))) [
          | none ↦ none
          | some request ↦ handler_http_request k request
        ]
        else none
  ]
