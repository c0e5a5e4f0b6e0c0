-- ===== src/Tests/NetCalculator.antt =====
-- The calculator server of 7.20/netCalculator on a concrete stream.
use my_linux.Text.Find.{has_no-Lacks}
use my_linux.Base.{
  ◌≤◌, ◌≡◌, refl, List, [], ◌∷◌, ◌++◌, map, length, arith, Option, none, some, replicate,
}
use my_linux.Base.Int.{pos}
use my_linux.Calc.{answer}
use my_linux.Protocol.{add_header}
use my_linux.Protocol.Json.{Json}
use my_linux.Protocol.Message.{
  Request, Response, deserialize_request, serialize_response, int_to_char,
}
use my_linux.Text.{Bytes, codes, to_string, digits}
use my_linux.Multiplex.{received}
use my_linux.Epoll.Requests.{respond}
use my_linux.Epoll.Requests.Stream.{Exchange, Answers, IsCut, packages, replies}
use my_linux.NetCalculator.{ended, service_io, append_buffer}
use my_linux.NetCalculator.Stream.{AllPieces, service_io_stream}

-- A text of the keys alone, which always reads as 7.
abbrev pub key_json : Json
key_json = record {
  Value = Bytes;
  fresh = [];
  assign = λ v k n. v ++ k;
  as_int = λ v k. some (pos 7);
  write = λ v. v;
  parse = λ s. s;
}

abbrev pub echo : Request → Option Response
echo req = some (answer req.x)

abbrev pub exchange : Exchange
exchange = record { payload = codes "xyop"; reply = codes "7\r\nrescode\r\n" }

pub exchange-Answers : Answers key_json echo exchange
unfolding respond add_header to_string digits deserialize_request serialize_response int_to_char
exchange-Answers = record { full = λ e. cc; short = omega arith; answered = refl }

pub unfinished : IsCut (codes "5\r")
unfolding add_header to_string digits
unfinished = record {
  payload = codes "hello";
  missing = codes "\nhello\r\n";
  short = omega arith;
  cut = refl;
  incomplete = λ e. cc;
}

-- The second package comes whole with the end of the first.
abbrev pieces : List Bytes
pieces = codes "4\r\nxy" ∷ codes "op\r\n4\r\nxyop\r\n5\r" ∷ []

pieces-AllPieces : AllPieces pieces
pieces-AllPieces = (
  record { nonempty = λ e. cc; fits = omega arith; text = has_no-Lacks 0 (codes "4\r\nxy") refl },
  (
    record {
      nonempty = λ e. cc;
      fits = omega arith;
      text = has_no-Lacks 0 (codes "op\r\n4\r\nxyop\r\n5\r") refl;
    },
    tt,
  ),
)

service_io_stream_example :
    (served : List Exchange) × (left : List Exchange) × (exchange ∷ exchange ∷ [] ≡ served ++ left)
    × (service_io key_json echo (map received pieces) [] []
        ≡ ended (packages left ++ codes "5\r") (replies served))
    × (length served ≤ 2)
unfolding add_header to_string digits
service_io_stream_example =
    service_io_stream key_json echo pieces (exchange ∷ exchange ∷ []) (codes "5\r") pieces-AllPieces
      (exchange-Answers, (exchange-Answers, tt)) unfinished refl

-- A full buffer has no place for the terminator.
append_buffer_full : append_buffer [] (replicate 2048 b'x') ≡ none
unfolding append_buffer
append_buffer_full = refl
