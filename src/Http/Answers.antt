-- ===== src/Http/Answers.antt =====
-- What a client reads back from the response to a request (7.22/httpServer).
use my_linux.Base.{if◌then◌else◌, Bool, List, [], ◌∷◌, ◌++◌, length, drop}
use my_linux.Base.Int.{ℤ, pos}
use my_linux.Text.{same_text, Bytes, codes, atoi}
use my_linux.Http.{read_line, add_page, web_root}

-- How a client reads a response: the status line, the length in the second line, which stands behind 16
-- characters, a third line, an empty line, and as many bytes as the length says.
pub record Reply : Type 0 where
  pub status : Bytes
  pub content_length : ℤ
  pub content_type : Bytes
  pub blank : Bytes
  pub content : Bytes

abbrev pub read_reply : Bytes → Reply
read_reply text =
    let (status, a) = read_line text in
    let (content_length, b) = read_line a in
    let (content_type, c) = read_line b in
    let (blank, content) = read_line c in
    record {
      status = status;
      content_length = atoi (drop 16 content_length);
      content_type = content_type;
      blank = blank;
      content = content;
    }

-- The types that the server knows, by the suffix of the path.
abbrev pub media_types : List (Bytes × Bytes)
media_types =
    (codes ".html", codes "text/html")
    ∷ (codes ".htm", codes "text/html")
    ∷ (codes ".jpg", codes "image/jpeg")
    ∷ []

abbrev pub media_type : List (Bytes × Bytes) → Bytes → Bytes
media_type [] suffix = []
media_type ((k, t) ∷ types) suffix =
    let other = media_type types suffix in if same_text suffix k then t else other

-- The reply that a response is read back as: its status is 200 if the file was read and 404 if not.
abbrev pub reply_of : Bytes → Bool × Bytes → Reply
reply_of suffix (found, body) = record {
  status = if found then codes "HTTP/1.0 200 OK" else codes "HTTP/1.0 404 Not Found";
  content_length = pos (length body);
  content_type = codes "Content_Type: " ++ media_type media_types suffix;
  blank = [];
  content = body;
}

-- The file behind the url, a directory standing for its default page.
abbrev pub path_of : Bytes → Bytes
path_of url = add_page (web_root ++ url)
