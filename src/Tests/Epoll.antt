-- ===== src/Tests/Epoll.antt =====
-- The reactor of 8.11/epollServer.2/epollServer.hpp on concrete events.
use my_linux.Base.{
  ◌≡◌, refl, ◌≢◌, true, false, Option, none, some, List, [], ◌∷◌, ◌++◌, ◌==◌, if◌then◌else◌, arith,
}
use my_linux.Base.Int.{pos}
use my_linux.Text.{Bytes, codes, to_string, digits}
use my_linux.Protocol.{add_header}
use my_linux.Protocol.Message.{Request, Response, serialize_request, char_to_int}
use my_linux.Calc.{answer}
use my_linux.Epoll.Requests
use my_linux.Epoll.Requests.{Handled, handled, out_of_fuel, respond}
use my_linux.Epoll.Requests.Ends.{handle_request_ends}
use my_linux.Epoll.Requests.Stream.{replies}
use my_linux.Epoll.Requests.Pieces.{Piece, AllClean}
use my_linux.Text.Find.{has_no-Lacks}
use my_linux.Tests.NetCalculator.{key_json, exchange, exchange-Answers, unfinished}
use my_linux.Epoll.{
  Mask, in_edge, listener, client, Connection, again, other, accepted, received, recv_failed, sent,
  Server, bad_function_call, crash, after, store, done,
}
use my_linux.Epoll.Io.{append_received}
use my_linux.Epoll.Loop.{Round, fresh_server, init_server, handle_event, dispatcher}
use my_linux.Epoll.Invariant.{IsSound, Ensures}
use my_linux.Epoll.Invariant.Rounds.{dispatcher-IsSound}
use my_linux.Epoll.Deliveries.{receive_pieces, Holds, receive_pieces_stream}
use my_linux.Epoll.Faults.{append_received_stale, handle_event_listener}
use my_linux.Tests.Jsonlib.{text_json, member}

-- Handlers that need no arithmetic: one that echoes, one that refuses.
abbrev echo : Request → Option Response
echo req = some (answer req.x)

abbrev one : Request
one = record { x = pos 1; y = pos 2; op = b'+' }

abbrev one_text : Bytes
one_text = 112 ∷ 113 ∷ 0 ∷ 0 ∷ 43 ∷ 122 ∷ 0 ∷ 0 ∷ 2 ∷ 121 ∷ 0 ∷ 0 ∷ 1 ∷ []

one_text-serialized : serialize_request text_json one ≡ one_text
unfolding serialize_request member char_to_int
one_text-serialized = refl

-- Two packages of keys alone and the front of a third, in three pieces.
abbrev pieces : List Piece
pieces =
    (codes "4\r\nxy", codes "stale" ++ (0 ∷ []))
    ∷ (codes "op\r\n4\r\nxyop\r", codes "oldoldoldold" ++ (0 ∷ 0 ∷ []))
    ∷ (codes "\n5\r", 0 ∷ 0 ∷ 0 ∷ 0 ∷ [])
    ∷ []

pieces-AllClean : AllClean pieces
pieces-AllClean = (
  (omega arith, has_no-Lacks 0 (codes "4\r\nxy") refl, ([], refl)),
  (
    (omega arith, has_no-Lacks 0 (codes "op\r\n4\r\nxyop\r") refl, (0 ∷ [], refl)),
    ((omega arith, has_no-Lacks 0 (codes "\n5\r") refl, ([], refl)), tt),
  ),
)

handle_request_ends_example :
    Requests.handle_request text_json echo 6 (codes "-5\r\n") [] ≢ out_of_fuel
handle_request_ends_example = handle_request_ends text_json echo 6 (codes "-5\r\n") [] (omega arith)

abbrev hang_up : Mask
hang_up = record { readable = false; writable = false; edge = false; err = false; hup = true }

-- A client that connects, sends a package and hangs up.
abbrev visit : List Round
visit =
    record {
      ready = record { fd = 3; event = in_edge } ∷ [];
      accepts = accepted 4 (codes "10.0.0.7") 4000 ∷ [];
      recvs = [];
      sends = [];
    }
    ∷ record {
      ready = record { fd = 4; event = in_edge } ∷ record { fd = 4; event = hang_up } ∷ [];
      accepts = [];
      recvs =
          received (codes "1") (codes " " ++ (0 ∷ [])) ∷ recv_failed again ∷ received [] [] ∷ [];
      sends = [];
    }
    ∷ []

dispatcher-IsSound_example :
    Ensures
      (λ _ t. IsSound t)
      (after (init_server (fresh_server 3)) (λ _. dispatcher text_json echo visit))
dispatcher-IsSound_example = dispatcher-IsSound text_json echo 3 visit

-- A client on descriptor 4 at address 1, with output to go.
abbrev talking : Connection
talking = record {
  fd = 4;
  role = client;
  inbuffer = [];
  outbuffer = codes "abcd";
  client_ip = codes "10.0.0.7";
  client_port = 4000;
  events = in_edge;
}

abbrev listening : Connection
listening = record talking { fd = 3; role = listener; outbuffer = [] }

abbrev busy : Server
busy = record (fresh_server 3) {
  connections = λ fd. if fd == 4 then some 1 else if fd == 3 then some 0 else none;
  heap = λ p. if p == 1 then some talking else if p == 0 then some listening else none;
  next = 2;
  interest = λ fd. if fd == 4 then some in_edge else none;
  sends = sent 3 other ∷ sent 0 again ∷ [];
}

receive_pieces_stream_example :
    (t : Server) × (receive_pieces key_json echo 1 pieces busy ≡ done tt t)
    × Holds 1 talking (codes "5\r") (codes "abcd" ++ replies (exchange ∷ exchange ∷ [])) t
unfolding add_header to_string digits
receive_pieces_stream_example =
    receive_pieces_stream key_json echo 1 pieces (exchange ∷ exchange ∷ []) busy talking
      (codes "abcd") (codes "5\r") refl refl (omega arith, (omega arith, (omega arith, tt)))
      pieces-AllClean (exchange-Answers, (exchange-Answers, tt)) unfinished refl

append_received_stale_example :
    append_received 1 (codes "hi") (codes "xy" ++ (codes "secret" ++ (0 ∷ []))) busy
    ≡ store 1 (record talking { inbuffer = codes "hisecret" }) busy
append_received_stale_example =
    append_received_stale client 1 busy (record { conn = talking; at = refl; kind = refl })
      (codes "hi") (codes "xy") (codes "secret") [] (omega arith) (omega arith) refl

handle_event_listener_example :
    handle_event text_json echo (record { fd = 3; event = hang_up }) busy ≡ crash bad_function_call
handle_event_listener_example =
    handle_event_listener text_json echo (record { fd = 3; event = hang_up }) 0 busy
      (record { conn = listening; at = refl; kind = refl }) refl refl refl
