-- ===== src/Chat/Safety/Rest.antt =====
-- When the chat server (7.17/v2_udp_socket_/udp_server.hpp) comes to rest, every message has been sent.
use mathlib.Core.Bool.{true≢false}
use my_linux.Base.{
  ℕ, ◌<◌, ◌≡◌, ◌⊎◌, inl, inr, refl, ap, sym, ◌∙◌, Bool, true, false, Bool-cases, List-cases, List,
  [], ◌∷◌, ◌++◌, ◌==◌, length, map, arith, append-nil, if◌then◌else◌,
}
use my_linux.Text.{Bytes}
use my_linux.Chat.{
  Arrived, recvfrom_failed, arrived, Datagram, Receiver, receives, user_lock, user_insert,
  user_unlock, pushes, Broadcaster, pops, copy_lock, copy_users, copy_unlock, sends_to, ChatServer,
  fresh_chat, stays, went, receive, pop_message, server_recive, server_broadcast, ChatThread,
  recv_th, broad_th, chat_step, chat_run,
}
use my_linux.Chat.Safety.{
  labelled, bit, datagrams, adding, copying, pending, in_hand, unsent, broadcasts, messages, IsChat,
}
use my_linux.Chat.Safety.Schedules.{chat_run-IsChat}

-- A thread has a statement that can run.
abbrev pub CanGo : ChatServer → Type 0
CanGo s = (th : ChatThread) × (t : ChatServer) × (chat_step s th ≡ went t)

-- Nothing more arrives, and each message that arrived has been sent to the users copied for it.
abbrev pub AllSent : List Datagram → ChatServer → Type 0
AllSent asked s =
    (s.arrivals ≡ []) × (messages s.copied ≡ map labelled asked) × (s.outputs ≡ broadcasts s.copied)

same_number : (a b : ℕ) → (a == b) ≡ true → a ≡ b
same_number a b e = ground arith

unless : (b : Bool) (t : ChatServer) → b ≡ false → (if b then stays else went t) ≡ went t
unless true t e = absurd (true≢false e)
unless false t e = refl

module _ (asked : List Datagram) (s : ChatServer) (h : IsChat asked s) where
  receiver_goes :
      (place : Receiver)
      → s.receiver ≡ place
      → (t : ChatServer) × (server_recive s place ≡ went t)
      → CanGo s
  receiver_goes place e (t, q) = (recv_th, t, ap (server_recive s) e ∙ q)

  broadcaster_goes :
      (place : Broadcaster)
      → s.broadcaster ≡ place
      → (t : ChatServer) × (server_broadcast s place ≡ went t)
      → CanGo s
  broadcaster_goes place e (t, q) = (broad_th, t, ap (server_broadcast s) e ∙ q)

  not_held : adding s.receiver ≡ 0 → copying s.broadcaster ≡ 0 → s.lock ≡ false
  not_held a c = elim (Bool-cases s.lock) [
    | inl l ↦ absurd (omega (arith, h.exclusion, a, c, ap bit l))
    | inr l ↦ l
  ]

  inserting_goes : (place : Receiver) → s.receiver ≡ place → 0 < adding place → CanGo s
  unfolding server_recive
  inserting_goes (user_insert d) e l = receiver_goes _ e (_, refl)
  inserting_goes (user_unlock d) e l = receiver_goes _ e (_, refl)
  inserting_goes _ e l = elim l [ ]

  receive_goes : s.receiver ≡ receives → CanGo s ⊎ (s.arrivals ≡ [])
  unfolding server_recive receive
  receive_goes e = elim (List-cases s.arrivals) [
    | inl q ↦ inr q
    | inr (recvfrom_failed, rest, q) ↦ inl (receiver_goes receives e (rw (receive, q) (_, refl)))
    | inr (arrived sender [], rest, q) ↦ inl (receiver_goes receives e (rw (receive, q) (_, refl)))
    | inr (arrived sender (b ∷ bytes), rest, q) ↦
        inl (receiver_goes receives e (rw (receive, q) (_, refl)))
  ]

  all_sent :
      s.broadcaster ≡ pops
      → s.receiver ≡ receives
      → s.queue ≡ []
      → s.arrivals ≡ []
      → AllSent asked s
  all_sent e f q a = (
    a,
    sym (append-nil (messages s.copied))
        ∙ ap (λ (b : Broadcaster). messages s.copied ++ (in_hand b ++ [])) (sym e)
        ∙ ap (λ (l : List Bytes). messages s.copied ++ (in_hand s.broadcaster ++ (l ++ []))) (sym q)
        ∙ ap
            (λ (r : Receiver).
              messages s.copied ++ (in_hand s.broadcaster ++ (s.queue ++ pending r)))
            (sym f)
        ∙ h.order
        ∙ ap (map labelled) all_heard,
    sym (append-nil s.outputs) ∙ ap (λ (b : Broadcaster). s.outputs ++ unsent b) (sym e) ∙ h.sent,
  )
    where
      all_heard : s.heard ≡ asked
      all_heard =
          sym (append-nil s.heard)
          ∙ ap (λ (rs : List Arrived). s.heard ++ datagrams rs) (sym a)
          ∙ h.input

  idle_goes :
      (place : Receiver)
      → s.broadcaster ≡ pops
      → s.receiver ≡ place
      → s.queue ≡ []
      → 0 < s.cap
      → CanGo s ⊎ AllSent asked s
  unfolding server_recive
  idle_goes receives e f q l = elim (receive_goes f) [
    | inl g ↦ inl g
    | inr a ↦ inr (all_sent e f q a)
  ]
  idle_goes (user_lock d) e f q l =
      inl (receiver_goes _ f (_, unless s.lock _ (not_held (ap adding f) (ap copying e))))
  idle_goes (user_insert d) e f q l = inl (inserting_goes _ f (omega arith))
  idle_goes (user_unlock d) e f q l = inl (inserting_goes _ f (omega arith))
  idle_goes (pushes d) e f q l =
      inl (receiver_goes _ f (_, unless (length s.queue == s.cap) _ room))
    where
      room : (length s.queue == s.cap) ≡ false
      room = elim (Bool-cases (length s.queue == s.cap)) [
        | inl g ↦ absurd (omega (arith, same_number (length s.queue) s.cap g, ap length q, l))
        | inr g ↦ g
      ]

  goes_or_sent :
      (place : Broadcaster) → s.broadcaster ≡ place → 0 < s.cap → CanGo s ⊎ AllSent asked s
  unfolding server_broadcast pop_message
  goes_or_sent pops e l = elim (List-cases s.queue) [
    | inl q ↦ idle_goes s.receiver e refl q l
    | inr (m, rest, q) ↦ inl (broadcaster_goes pops e (rw (pop_message, q) (_, refl)))
  ]
  goes_or_sent (copy_lock m) e l = elim (Bool-cases s.lock) [
    | inl g ↦
        inl (inserting_goes s.receiver refl (omega (arith, h.exclusion, ap copying e, ap bit g)))
    | inr g ↦ inl (broadcaster_goes _ e (_, unless s.lock _ g))
  ]
  goes_or_sent (copy_users m) e l = inl (broadcaster_goes _ e (_, refl))
  goes_or_sent (copy_unlock m v) e l = inl (broadcaster_goes _ e (_, refl))
  goes_or_sent (sends_to m []) e l = inl (broadcaster_goes _ e (_, refl))
  goes_or_sent (sends_to m (a ∷ v)) e l = inl (broadcaster_goes _ e (_, refl))

-- After every schedule, if the queue has room for a message, one of the two threads can run a statement, or nothing
-- more arrives, the messages taken from the queue are those that have arrived, in their order, and what has been sent
-- is each of them to the users copied for it.
pub chat_run_rests :
    (cap : ℕ) (arrivals : List Arrived) (ths : List ChatThread)
    → 0 < (chat_run (fresh_chat cap arrivals) ths).cap
    → CanGo (chat_run (fresh_chat cap arrivals) ths)
      ⊎ AllSent (datagrams arrivals) (chat_run (fresh_chat cap arrivals) ths)
chat_run_rests cap arrivals ths l =
    goes_or_sent (datagrams arrivals) (chat_run (fresh_chat cap arrivals) ths)
      (chat_run-IsChat cap arrivals ths) (chat_run (fresh_chat cap arrivals) ths).broadcaster refl l
