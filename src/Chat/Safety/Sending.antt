-- ===== src/Chat/Safety/Sending.antt =====
-- The sending thread of the chat server (7.17/v2_udp_socket_/udp_server.hpp) keeps the invariant.
use my_linux.Base.{
  ◌+◌, ◌≤◌, ◌<◌, ◌≡◌, inl, inr, refl, ap, ap₂, sym, ◌∙◌, subst, Bool, true, false, Bool-cases,
  List-cases, List, [], ◌∷◌, ◌++◌, length, arith, append_assoc, append-nil, length-append,
  length-map,
}
use my_linux.Text.{Bytes}
use my_linux.Chat.{
  Address, Datagram, Receiver, receives, user_lock, user_insert, user_unlock, pushes, Broadcaster,
  pops, copy_lock, copy_users, copy_unlock, sends_to, ChatServer, addresses, pop_message,
  server_broadcast,
}
use my_linux.Chat.Users.{label, Reaches, HasUser-Reaches, append_cases}
use my_linux.Chat.Safety.{
  labelled, bit, copying, pending, unknown, in_hand, pairs, unsent, broadcasts, messages, IsChat,
  Keeps, waits, keeps,
}

messages-append :
    (cs : List (Bytes × List Address)) (m : Bytes) (v : List Address)
    → messages (cs ++ ((m, v) ∷ [])) ≡ messages cs ++ (m ∷ [])
messages-append [] m v = refl
messages-append ((n, w) ∷ cs) m v = ap (λ (l : List Bytes). n ∷ l) (messages-append cs m v)

broadcasts-append :
    (cs : List (Bytes × List Address)) (m : Bytes) (v : List Address)
    → broadcasts (cs ++ ((m, v) ∷ [])) ≡ broadcasts cs ++ pairs m v
broadcasts-append [] m v = append-nil (pairs m v)
broadcasts-append ((n, w) ∷ cs) m v =
    ap (λ (l : List (Bytes × Address)). pairs n w ++ l) (broadcasts-append cs m v)
    ∙ sym (append_assoc (pairs n w) (broadcasts cs) (pairs m v))

unknown_le : (r : Receiver) → unknown r ≤ length (pending r)
unknown_le receives = omega arith
unknown_le (user_lock d) = omega arith
unknown_le (user_insert d) = omega arith
unknown_le (user_unlock d) = omega arith
unknown_le (pushes d) = omega arith

bit_le : (b : Bool) → bit b ≤ 1
bit_le true = omega arith
bit_le false = omega arith

module _ (asked : List Datagram) (s : ChatServer) (h : IsChat asked s) where
  -- The broadcaster takes a message out of the queue.
  pop-IsChat :
      (m : Bytes) (rest : List Bytes)
      → s.broadcaster ≡ pops
      → s.queue ≡ m ∷ rest
      → IsChat asked (record s { queue = rest; broadcaster = copy_lock m })
  pop-IsChat m rest e q = record {
    exclusion = omega (arith, h.exclusion, ap copying e);
    input = h.input;
    last = h.last;
    order =
        ap₂
          (λ (b : Broadcaster) (l : List Bytes).
            messages s.copied ++ (in_hand b ++ (l ++ pending s.receiver)))
          (sym e) (sym q)
        ∙ h.order;
    sent = ap (λ (b : Broadcaster). s.outputs ++ unsent b) (sym e) ∙ h.sent;
    known = h.known;
    reached = h.reached;
  }

  -- The broadcaster goes to another place, with the same message.
  moves-IsChat :
      (old new : Broadcaster) (lock : Bool)
      → s.broadcaster ≡ old
      → copying new + bit s.lock ≡ copying old + bit lock
      → in_hand new ≡ in_hand old
      → unsent new ≡ unsent old
      → IsChat asked (record s { broadcaster = new; lock = lock })
  moves-IsChat old new lock e x i u = record {
    exclusion = omega (arith, x, h.exclusion, ap copying e);
    input = h.input;
    last = h.last;
    order =
        ap (λ (l : List Bytes). messages s.copied ++ (l ++ (s.queue ++ pending s.receiver)))
          (i ∙ sym (ap in_hand e))
        ∙ h.order;
    sent = ap (λ (l : List (Bytes × Address)). s.outputs ++ l) (u ∙ sym (ap unsent e)) ∙ h.sent;
    known = h.known;
    reached = h.reached;
  }

  -- While a message is in the broadcaster's hands, the messages that have been copied, and one more, are known.
  copied_lt :
      (m : Bytes)
      → s.broadcaster ≡ copy_users m
      → length s.copied + unknown s.receiver < length s.heard
  copied_lt m e = omega (
    arith,
    ap length h.order,
    ap (λ (b : Broadcaster). length (in_hand b)) e,
    length-append (messages s.copied) (in_hand s.broadcaster ++ (s.queue ++ pending s.receiver)),
    length-append (in_hand s.broadcaster) (s.queue ++ pending s.receiver),
    length-append s.queue (pending s.receiver),
    length-map s.copied (λ (c : Bytes × List Address). c.0),
    length-map s.heard labelled,
    unknown_le s.receiver,
  )

  -- The broadcaster copies the users.
  copy-IsChat :
      (m : Bytes)
      → s.broadcaster ≡ copy_users m
      → IsChat asked (record s {
        broadcaster = copy_unlock m (addresses s.user_map);
        copied = s.copied ++ ((m, addresses s.user_map) ∷ []);
      })
  copy-IsChat m e = record {
    exclusion = omega (arith, h.exclusion, ap copying e);
    input = h.input;
    last = h.last;
    order =
        ap (λ (l : List Bytes). l ++ (s.queue ++ pending s.receiver))
          (messages-append s.copied m (addresses s.user_map))
        ∙ append_assoc (messages s.copied) (m ∷ []) (s.queue ++ pending s.receiver)
        ∙ ap
            (λ (b : Broadcaster).
              messages s.copied ++ (in_hand b ++ (s.queue ++ pending s.receiver)))
            (sym e)
        ∙ h.order;
    sent =
        ap (λ (l : List (Bytes × Address)). l ++ pairs m (addresses s.user_map))
          (sym (append-nil s.outputs)
            ∙ ap (λ (b : Broadcaster). s.outputs ++ unsent b) (sym e)
            ∙ h.sent)
        ∙ sym (broadcasts-append s.copied m (addresses s.user_map));
    known = h.known;
    reached = λ k c f j d l g. elim (append_cases s.copied (m, addresses s.user_map) c k f) [
      | inl (o, z) ↦ h.reached k c z j d l g
      | inr (o, z) ↦
          subst (λ (y : Bytes × List Address). Reaches (label d.sender) y.1) (sym z)
            (HasUser-Reaches (label d.sender) s.user_map
              (h.known j d g (omega (arith, l, o, copied_lt m e))))
    ];
  }

  -- The broadcaster sends the message to a user.
  send-IsChat :
      (m : Bytes) (a : Address) (v : List Address)
      → s.broadcaster ≡ sends_to m (a ∷ v)
      → IsChat asked (record s { broadcaster = sends_to m v; outputs = s.outputs ++ ((m, a) ∷ []) })
  send-IsChat m a v e = record {
    exclusion = omega (arith, h.exclusion, ap copying e);
    input = h.input;
    last = h.last;
    order =
        ap
          (λ (b : Broadcaster). messages s.copied ++ (in_hand b ++ (s.queue ++ pending s.receiver)))
          (sym e)
        ∙ h.order;
    sent =
        append_assoc s.outputs ((m, a) ∷ []) (pairs m v)
        ∙ ap (λ (b : Broadcaster). s.outputs ++ unsent b) (sym e)
        ∙ h.sent;
    known = h.known;
    reached = h.reached;
  }

  pop_message-Keeps : s.broadcaster ≡ pops → Keeps asked (pop_message s)
  unfolding pop_message
  pop_message-Keeps e = elim (List-cases s.queue) [
    | inl q ↦ rw (pop_message, q) waits
    | inr (m, rest, q) ↦ rw (pop_message, q) (keeps _ (pop-IsChat m rest e q))
  ]

  pub server_broadcast-Keeps :
      (place : Broadcaster) → s.broadcaster ≡ place → Keeps asked (server_broadcast s place)
  unfolding server_broadcast
  server_broadcast-Keeps pops e = pop_message-Keeps e
  server_broadcast-Keeps (copy_lock m) e = elim (Bool-cases s.lock) [
    | inl l ↦ rw l waits
    | inr l ↦ rw l (
        keeps _
          (moves-IsChat (copy_lock m) (copy_users m) true e (omega (arith, ap bit l)) refl refl))
  ]
  server_broadcast-Keeps (copy_users m) e = keeps _ (copy-IsChat m e)
  server_broadcast-Keeps (copy_unlock m v) e = keeps _ (
      moves-IsChat (copy_unlock m v) (sends_to m v) false e
        (omega (arith, h.exclusion, ap copying e, bit_le s.lock)) refl refl)
  server_broadcast-Keeps (sends_to m []) e =
      keeps _ (moves-IsChat (sends_to m []) pops s.lock e refl refl refl)
  server_broadcast-Keeps (sends_to m (a ∷ v)) e = keeps _ (send-IsChat m a v e)
