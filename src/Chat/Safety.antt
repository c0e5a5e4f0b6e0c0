-- ===== src/Chat/Safety.antt =====
-- What the chat server (7.17/v2_udp_socket_/udp_server.hpp) sends, and to whom.
mod Receiving
mod Sending
pub mod Schedules
pub mod Rest
use my_linux.Base.{
  ℕ, ◌+◌, ◌≤◌, ◌<◌, ◌≡◌, Bool, List, [], ◌∷◌, ◌++◌, if◌then◌else◌, length, map, get_elem?, some,
}
use my_linux.Text.{codes, Bytes}
use my_linux.Chat.{
  Address, Arrived, recvfrom_failed, arrived, Datagram, name_of, message_of, text_in, Receiver,
  receives, user_lock, user_insert, user_unlock, pushes, Broadcaster, pops, copy_lock, copy_users,
  copy_unlock, sends_to, ChatServer, ChatOutcome, stays, went,
}
use my_linux.Chat.Users.{label, HasUser, Reaches}

abbrev pub bit : Bool → ℕ
bit b = if b then 1 else 0

-- The messages that will be received.
abbrev pub datagrams : List Arrived → List Datagram
datagrams [] = []
datagrams (recvfrom_failed ∷ rest) = datagrams rest
datagrams (arrived sender [] ∷ rest) = datagrams rest
datagrams (arrived sender (b ∷ bytes) ∷ rest) =
    record { sender = sender; text = text_in (b ∷ bytes) } ∷ datagrams rest

-- Whether a thread holds the lock.
abbrev pub adding : Receiver → ℕ
adding (user_insert d) = 1
adding (user_unlock d) = 1
adding _ = 0

abbrev pub copying : Broadcaster → ℕ
copying (copy_users m) = 1
copying (copy_unlock m v) = 1
copying _ = 0

-- The message in the receiver's hands, whether its sender is still to be added, and the message in the
-- broadcaster's, until its users have been copied.
abbrev pub pending : Receiver → List Bytes
pending receives = []
pending (user_lock d) = message_of d ∷ []
pending (user_insert d) = message_of d ∷ []
pending (user_unlock d) = message_of d ∷ []
pending (pushes d) = message_of d ∷ []

abbrev pub unknown : Receiver → ℕ
unknown (user_lock d) = 1
unknown (user_insert d) = 1
unknown _ = 0

abbrev pub in_hand : Broadcaster → List Bytes
in_hand (copy_lock m) = m ∷ []
in_hand (copy_users m) = m ∷ []
in_hand _ = []

-- The text of a message: the name of its sender, an arrow, and what was received.
abbrev pub labelled : Datagram → Bytes
labelled d = label d.sender ++ (codes ">> " ++ d.text)

-- What is still to be sent of the message whose users have been copied, and all that is to be sent.
abbrev pub pairs : Bytes → List Address → List (Bytes × Address)
pairs m [] = []
pairs m (a ∷ v) = (m, a) ∷ pairs m v

abbrev pub unsent : Broadcaster → List (Bytes × Address)
unsent (copy_unlock m v) = pairs m v
unsent (sends_to m v) = pairs m v
unsent _ = []

abbrev pub broadcasts : List (Bytes × List Address) → List (Bytes × Address)
broadcasts [] = []
broadcasts ((m, v) ∷ copied) = pairs m v ++ broadcasts copied

abbrev pub messages : List (Bytes × List Address) → List Bytes
messages copied = map (λ (c : Bytes × List Address). c.0) copied

-- The message in the receiver's hands is the last that it has heard.
abbrev pub IsLast : List Datagram → Receiver → Type 0
IsLast heard receives = Unit {0}
IsLast heard (user_lock d) = (ds : List Datagram) × (heard ≡ ds ++ (d ∷ []))
IsLast heard (user_insert d) = (ds : List Datagram) × (heard ≡ ds ++ (d ∷ []))
IsLast heard (user_unlock d) = (ds : List Datagram) × (heard ≡ ds ++ (d ∷ []))
IsLast heard (pushes d) = (ds : List Datagram) × (heard ≡ ds ++ (d ∷ []))

-- At most one thread is at the map, and then the lock is held; the messages go, in the order in which they came, through the
-- queue to the broadcaster; what has been sent is each message to its users, one after the other; the
-- map has the senders of all messages but one that is being added; and a message goes to the senders of
-- all messages up to it, its own among them.
pub record IsChat (asked : List Datagram) (s : ChatServer) : Type 0 where
  pub exclusion : adding s.receiver + copying s.broadcaster ≡ bit s.lock
  pub input : s.heard ++ datagrams s.arrivals ≡ asked
  pub last : IsLast s.heard s.receiver
  pub order :
      messages s.copied ++ (in_hand s.broadcaster ++ (s.queue ++ pending s.receiver))
      ≡ map labelled s.heard
  pub sent : s.outputs ++ unsent s.broadcaster ≡ broadcasts s.copied
  pub known :
      (j : ℕ) (d : Datagram)
      → get_elem? s.heard j ≡ some d
      → j + unknown s.receiver < length s.heard
      → HasUser (label d.sender) s.user_map
  pub reached :
      (k : ℕ) (c : Bytes × List Address)
      → get_elem? s.copied k ≡ some c
      → (j : ℕ) (d : Datagram) → j ≤ k
      → get_elem? s.heard j ≡ some d
      → Reaches (label d.sender) c.1

pub data Keeps (asked : List Datagram) : ChatOutcome → Type 0 where
  waits : Keeps asked stays
  keeps : (s : ChatServer) → IsChat asked s → Keeps asked (went s)
