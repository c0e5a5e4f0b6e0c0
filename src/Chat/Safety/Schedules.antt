-- ===== src/Chat/Safety/Schedules.antt =====
-- The chat server (7.17/v2_udp_socket_/udp_server.hpp) in every schedule of its two threads.
use my_linux.Base.{ℕ, refl, List, [], ◌∷◌}
use mathlib.Core.Option.{none-ne-some}
use my_linux.Chat.{
  Arrived, Datagram, ChatServer, fresh_chat, ChatOutcome, stays, went, ChatThread, recv_th,
  broad_th, chat_step, chat_run,
}
use my_linux.Chat.Safety.{datagrams, IsChat, Keeps, waits, keeps}
use my_linux.Chat.Safety.Receiving.{server_recive-Keeps}
use my_linux.Chat.Safety.Sending.{server_broadcast-Keeps}

fresh_chat-IsChat :
    (cap : ℕ) (arrivals : List Arrived) → IsChat (datagrams arrivals) (fresh_chat cap arrivals)
unfolding fresh_chat
fresh_chat-IsChat cap arrivals = record {
  exclusion = refl;
  input = refl;
  last = tt;
  order = refl;
  sent = refl;
  known = λ j d f l. absurd (none-ne-some d f);
  reached = λ k c f j d l g. absurd (none-ne-some c f);
}

chat_step-Keeps :
    (asked : List Datagram) (s : ChatServer)
    → IsChat asked s
    → (th : ChatThread) → Keeps asked (chat_step s th)
chat_step-Keeps asked s h recv_th = server_recive-Keeps asked s h s.receiver refl
chat_step-Keeps asked s h broad_th = server_broadcast-Keeps asked s h s.broadcaster refl

run-IsChat :
    (asked : List Datagram) (s : ChatServer) (ths : List ChatThread)
    → IsChat asked s
    → IsChat asked (chat_run s ths)
unfolding chat_run
run-IsChat asked s [] h = h
run-IsChat asked s (th ∷ ths) h =
    go (λ r. run-IsChat asked r ths) (run-IsChat asked s ths h) (chat_step s th)
      (chat_step-Keeps asked s h th)
  where
    go :
        ((t : ChatServer) → IsChat asked t → IsChat asked (chat_run t ths))
        → IsChat asked (chat_run s ths)
        → (o : ChatOutcome) → Keeps asked o
        → IsChat asked (elim o [ stays ↦ chat_run s ths | went t ↦ chat_run t ths ])
    go f w _ waits = w
    go f w _ (keeps r k) = f r k

-- In every schedule of the two threads, with any arrivals: a thread that is at the map of users has the
-- lock, and no other is; the messages heard, each made of the sender's name and its text, are queued and taken out in
-- the order in which they came, none lost or doubled; what has been sent, with what is left of the message at
-- hand, is each of them to the users copied for it, in order; the map has the senders of all messages heard, but
-- for one that is being added; and each message goes to the senders of all messages up to it.
pub chat_run-IsChat :
    (cap : ℕ) (arrivals : List Arrived) (ths : List ChatThread)
    → IsChat (datagrams arrivals) (chat_run (fresh_chat cap arrivals) ths)
chat_run-IsChat cap arrivals ths =
    run-IsChat (datagrams arrivals) (fresh_chat cap arrivals) ths (fresh_chat-IsChat cap arrivals)
