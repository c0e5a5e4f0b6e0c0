-- ===== src/Tests/Chat.antt =====
-- The chat server (7.17/v2_udp_socket_/udp_server.hpp) at concrete inputs.
use my_linux.Base.{◌≡◌, ◌<◌, ◌⊎◌, arith, refl, List, [], ◌∷◌, ◌++◌, replicate}
use my_linux.Text.{codes, c_string, same_text, to_string, digits}
use my_linux.Chat.{
  Address, name_of, Arrived, recvfrom_failed, arrived, message_of, put_user, fresh_chat, text_in,
  receive, server_recive, pop_message, server_broadcast, ChatThread, recv_th, broad_th, chat_run,
}
use my_linux.Chat.Safety.{datagrams, IsChat}
use my_linux.Chat.Safety.Rest.{CanGo, AllSent, chat_run_rests}
use my_linux.Chat.Safety.Schedules.{chat_run-IsChat}

abbrev first_user : Address
first_user = record { ip = codes "10.0.0.1"; port = 7 }

abbrev second_user : Address
second_user = record { ip = codes "10.0.0.2"; port = 8 }

-- Two users, a datagram that is empty, and an error.
abbrev two_arrivals : List Arrived
two_arrivals =
    arrived first_user (codes "hi")
    ∷ recvfrom_failed
    ∷ arrived second_user []
    ∷ arrived second_user (codes "yo")
    ∷ []

-- The second message is heard while the first is taken out, before the users are copied.
abbrev crossing : List ChatThread
crossing = replicate 5 recv_th ++ (broad_th ∷ []) ++ replicate 7 recv_th ++ replicate 20 broad_th

chat_run-IsChat_example :
    IsChat (datagrams two_arrivals) (chat_run (fresh_chat 50 two_arrivals) crossing)
chat_run-IsChat_example = chat_run-IsChat 50 two_arrivals crossing

name_of_first : name_of first_user ≡ codes "10.0.0.1 : 7"
unfolding name_of to_string digits
name_of_first = refl

chat_sends :
    (chat_run (fresh_chat 50 two_arrivals) crossing).outputs
    ≡ (codes "10.0.0.1 : 7>> hi", first_user)
      ∷ (codes "10.0.0.1 : 7>> hi", second_user)
      ∷ (codes "10.0.0.2 : 8>> yo", first_user)
      ∷ (codes "10.0.0.2 : 8>> yo", second_user)
      ∷ []
unfolding chat_run fresh_chat receive server_recive server_broadcast pop_message put_user message_of
    name_of text_in same_text c_string to_string digits
chat_sends = refl

chat_room : 0 < (chat_run (fresh_chat 50 two_arrivals) crossing).cap
unfolding chat_run fresh_chat receive server_recive server_broadcast pop_message put_user name_of
    same_text to_string digits
chat_room = omega arith

chat_run_rests_example :
    CanGo (chat_run (fresh_chat 50 two_arrivals) crossing)
    ⊎ AllSent (datagrams two_arrivals) (chat_run (fresh_chat 50 two_arrivals) crossing)
chat_run_rests_example = chat_run_rests 50 two_arrivals crossing chat_room
