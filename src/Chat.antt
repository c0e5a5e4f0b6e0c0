-- ===== src/Chat.antt =====
-- 7.17/v2_udp_socket_/udp_server.hpp: the chat server. One thread receives messages and puts them in a queue,
-- another takes them out and sends each to all users; each runs one statement at a time, in any order. The
-- queue is RingQueue, whose own statements are in Ring: here it is a list of at most `cap` messages.
pub mod Users
pub mod Safety
use my_linux.Base.{
  ℕ, zero, suc, Bool, true, false, List, [], ◌∷◌, ◌++◌, ◌==◌, if◌then◌else◌, length, map, take,
  Option, none, some,
}
use my_linux.Text.{Bytes, codes, c_string, same_text, to_string}

-- `sockaddr_in`, by the text of its address and its port.
pub record Address : Type 0 where
  pub ip : Bytes
  pub port : ℕ

-- `name`
unfoldable pub name_of : Address → Bytes
name_of a = a.ip ++ (codes " : " ++ to_string a.port)

-- What `recvfrom` returns: an error, or who sent which bytes.
pub data Arrived : Type 0 where
  recvfrom_failed : Arrived
  arrived : Address → Bytes → Arrived

-- A message that has been received: who sent it, and the text in the buffer.
pub record Datagram : Type 0 where
  pub sender : Address
  pub text : Bytes

-- `msg`
unfoldable pub message_of : Datagram → Bytes
message_of d = name_of d.sender ++ (codes ">> " ++ d.text)

-- `_user_map[name] = sock`
unfoldable pub put_user : Bytes → Address → List (Bytes × Address) → List (Bytes × Address)
put_user name sock [] = (name, sock) ∷ []
put_user name sock ((k, a) ∷ users) =
    let rest = put_user name sock users in
    if same_text k name then (k, sock) ∷ users else (k, a) ∷ rest

-- Where `server_recive` stands.
pub data Receiver : Type 0 where
  receives : Receiver
  user_lock user_insert user_unlock pushes : Datagram → Receiver

-- Where `server_broadcast` stands, with `send_str` and `v`.
pub data Broadcaster : Type 0 where
  pops : Broadcaster
  copy_lock copy_users : Bytes → Broadcaster
  copy_unlock sends_to : Bytes → List Address → Broadcaster

-- `class udp_server`, with what `recvfrom` will return and what has been sent. The last two fields are for
-- the proofs alone: the messages received, and those whose users have been copied, in order.
pub record ChatServer : Type 0 where
  pub arrivals : List Arrived
  pub receiver : Receiver
  pub broadcaster : Broadcaster
  pub queue : List Bytes
  pub cap : ℕ
  pub user_map : List (Bytes × Address)
  pub lock : Bool
  pub outputs : List (Bytes × Address)
  pub heard : List Datagram
  pub copied : List (Bytes × List Address)

unfoldable pub fresh_chat : ℕ → List Arrived → ChatServer
fresh_chat cap arrivals = record {
  arrivals = arrivals;
  receiver = receives;
  broadcaster = pops;
  queue = [];
  cap = cap;
  user_map = [];
  lock = false;
  outputs = [];
  heard = [];
  copied = [];
}

-- A statement that waits, and one that has run.
pub data ChatOutcome : Type 0 where
  stays : ChatOutcome
  went : ChatServer → ChatOutcome

-- What the buffer holds of a datagram: 2047 bytes at most, and a terminator behind them.
unfoldable pub text_in : Bytes → Bytes
text_in bytes = elim (c_string (take 2047 bytes ++ (0 ∷ []))) [ none ↦ [] | some text ↦ text ]

-- `recvfrom`, and what it comes to.
unfoldable pub receive : ChatServer → ChatOutcome
receive s = elim s.arrivals [
  | [] ↦ stays
  | a ∷ rest ↦ elim a [
    | recvfrom_failed ↦ went (record s { arrivals = rest })
    | arrived sender bytes ↦ elim bytes [
      | [] ↦ went (record s { arrivals = rest })
      | b ∷ more ↦
          let d : Datagram = record { sender = sender; text = text_in (b ∷ more) } in
          went (record s { arrivals = rest; receiver = user_lock d; heard = s.heard ++ (d ∷ []) })
    ]
  ]
]

-- The next statement of `server_recive`, with `add_user`.
unfoldable pub server_recive : ChatServer → Receiver → ChatOutcome
server_recive s receives = receive s
server_recive s (user_lock d) =
    if s.lock then stays else went (record s { receiver = user_insert d; lock = true })
server_recive s (user_insert d) = went (record s {
  receiver = user_unlock d;
  user_map = put_user (name_of d.sender) d.sender s.user_map;
})
server_recive s (user_unlock d) = went (record s { receiver = pushes d; lock = false })
server_recive s (pushes d) =
    if length s.queue == s.cap
    then stays
    else went (record s { receiver = receives; queue = s.queue ++ (message_of d ∷ []) })

-- `_rq.pop(&send_str)`
unfoldable pub pop_message : ChatServer → ChatOutcome
pop_message s = elim s.queue [
  | [] ↦ stays
  | m ∷ rest ↦ went (record s { queue = rest; broadcaster = copy_lock m })
]

abbrev pub addresses : List (Bytes × Address) → List Address
addresses users = map (λ (u : Bytes × Address). u.1) users

-- The next statement of `server_broadcast`.
unfoldable pub server_broadcast : ChatServer → Broadcaster → ChatOutcome
server_broadcast s pops = pop_message s
server_broadcast s (copy_lock m) =
    if s.lock then stays else went (record s { broadcaster = copy_users m; lock = true })
server_broadcast s (copy_users m) = went (record s {
  broadcaster = copy_unlock m (addresses s.user_map);
  copied = s.copied ++ ((m, addresses s.user_map) ∷ []);
})
server_broadcast s (copy_unlock m v) = went (record s { broadcaster = sends_to m v; lock = false })
server_broadcast s (sends_to m []) = went (record s { broadcaster = pops })
server_broadcast s (sends_to m (a ∷ v)) =
    went (record s { broadcaster = sends_to m v; outputs = s.outputs ++ ((m, a) ∷ []) })

pub data ChatThread : Type 0 where
  recv_th broad_th : ChatThread

abbrev pub chat_step : ChatServer → ChatThread → ChatOutcome
chat_step s recv_th = server_recive s s.receiver
chat_step s broad_th = server_broadcast s s.broadcaster

-- A schedule of the two threads: a statement that has to wait is passed over.
unfoldable pub chat_run : ChatServer → List ChatThread → ChatServer
unfolding server_recive server_broadcast
chat_run s [] = s
chat_run s (th ∷ ths) =
    let skip = chat_run s ths in elim (chat_step s th) [ stays ↦ skip | went t ↦ chat_run t ths ]
