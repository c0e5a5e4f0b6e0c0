-- ===== src/Tests/Protocol.antt =====
-- Packages, texts and messages of 8.11/epollServer.2/protocol.hpp at concrete inputs.
use my_linux.Base.{◌≡◌, refl, some, [], ◌++◌, arith}
use my_linux.Base.Int.{pos, negsuc}
use my_linux.Text.Find.{has_no-Lacks}
use my_linux.Text.{
  atoi, to_int, to_size, strtol, skip_space, Bytes, codes, find, starts_with, atoi, strtol,
  skip_space, to_int, to_size, to_string, digits, int_to_string,
}
use my_linux.Protocol.{read_package, take_package, target_len, remove_header, add_header}
use my_linux.Protocol.Frame.{read_package-add_header, remove_header-add_header}
use my_linux.Protocol.Partial.{read_package-prefix, read_package-announced}
use my_linux.Protocol.Message.{
  Request, serialize_request, deserialize_request, serialize_response, deserialize_response,
  deserialize-serialize_request, deserialize-serialize_response,
}
use my_linux.Tests.Jsonlib.{text_json, text_json-IsFaithful}

abbrev pub hello : Bytes
hello = codes "hello"

abbrev pub hello_package : Bytes
hello_package = codes "5\r\nhello\r\n"

add_header-hello : add_header hello ≡ hello_package
unfolding add_header to_string digits
add_header-hello = refl

atoi_texts :
    (atoi (codes "42") ≡ pos 42)
    × (atoi (codes " -7x") ≡ negsuc 6)
    × (atoi (codes "+3") ≡ pos 3)
    × (atoi (codes "2147483648") ≡ negsuc 2147483647)
    × (atoi (codes "") ≡ pos 0)
unfolding atoi strtol skip_space to_int to_size
atoi_texts = (refl, refl, refl, refl, refl)

to_string_texts : (to_string 0 ≡ codes "0") × (int_to_string (negsuc 41) ≡ codes "-42")
unfolding to_string int_to_string digits
to_string_texts = (refl, refl)

-- A negative length takes a byte off and is returned.
read_negative :
    read_package (codes "-5\r\nabc") []
    ≡ record { len = negsuc 4; packet = codes "-"; inbuffer = codes "5\r\nabc" }
unfolding read_package take_package target_len atoi strtol skip_space to_int to_size find
    starts_with
read_negative = refl

read_package-add_header_example :
    read_package (add_header hello ++ codes "7\r\nab") []
    ≡ record { len = pos 5; packet = add_header hello; inbuffer = codes "7\r\nab" }
read_package-add_header_example = read_package-add_header hello (codes "7\r\nab") [] (omega arith)

remove_header-hello : remove_header (add_header hello) (pos 5) ≡ some hello
remove_header-hello = remove_header-add_header hello (omega arith)

read_package-prefix_example :
    read_package (codes "5\r\nhel") []
    ≡ record { len = pos 0; packet = []; inbuffer = codes "5\r\nhel" }
unfolding add_header to_string digits
read_package-prefix_example =
    read_package-prefix hello (codes "5\r\nhel") (codes "lo\r\n") [] (omega arith) refl (λ e. cc)

-- The two bytes at the end are not looked at.
read_package-announced_example :
    (read_package (codes "3\r\nabcde12") []
      ≡ record { len = pos 3; packet = codes "3\r\nabcde"; inbuffer = codes "12" })
    × (read_package (codes "3\r\nab") []
        ≡ record { len = pos 0; packet = []; inbuffer = codes "3\r\nab" })
unfolding atoi to_int to_size strtol skip_space
read_package-announced_example =
    read_package-announced (codes "3") (codes "abcde") (codes "12") (codes "ab") [] 3
      (has_no-Lacks b'\r' (codes "3") refl) refl (omega arith) refl (omega arith)

abbrev product : Request
product = record { x = pos 6; y = negsuc 6; op = b'*' }

deserialize-serialize_request_example :
    deserialize_request text_json (serialize_request text_json product) ≡ some product
deserialize-serialize_request_example =
    deserialize-serialize_request text_json text_json-IsFaithful product (omega arith)

deserialize-serialize_response_example :
    deserialize_response text_json
      (serialize_response text_json (record { result = negsuc 41; code = pos 0 }))
    ≡ some (record { result = negsuc 41; code = pos 0 })
deserialize-serialize_response_example =
    deserialize-serialize_response text_json text_json-IsFaithful
      (record { result = negsuc 41; code = pos 0 })
