-- ===== src/Chat/Safety/Receiving.antt =====
-- The receiving thread of the chat server (7.17/v2_udp_socket_/udp_server.hpp) keeps the invariant.
use my_linux.Base.{
  ◌+◌, ◌≤◌, ◌≡◌, inl, inr, refl, ap, sym, ◌∙◌, subst, Bool, Bool-cases, List-cases, List, [], ◌∷◌,
  ◌++◌, ◌==◌, length, map, get_elem?, arith, append_assoc, append-nil, length-append, length-map,
  true, false,
}
use my_linux.Text.{Bytes}
use my_linux.Chat.{
  Address, Arrived, recvfrom_failed, arrived, Datagram, name_of, message_of, text_in, put_user,
  Receiver, receives, user_lock, user_insert, user_unlock, pushes, ChatServer, receive,
  server_recive,
}
use my_linux.Chat.Users.{
  label, HasUser, HasUser-put_user, HasUser-put_other, append_cases, get_elem?-length, append_three,
}
use my_linux.Chat.Safety.{
  labelled, bit, datagrams, adding, pending, unknown, in_hand, messages, IsLast, IsChat, Keeps,
  waits, keeps,
}

map-append :
    (xs : List Datagram) (d : Datagram)
    → map labelled (xs ++ (d ∷ [])) ≡ map labelled xs ++ (labelled d ∷ [])
map-append [] d = refl
map-append (x ∷ xs) d = ap (λ (l : List Bytes). labelled x ∷ l) (map-append xs d)

module _ (asked : List Datagram) (s : ChatServer) (h : IsChat asked s) where
  -- At least as many messages have been heard as copied.
  pub copied_le : length s.copied ≤ length s.heard
  copied_le = omega (
    arith,
    ap length h.order,
    length-append (messages s.copied) (in_hand s.broadcaster ++ (s.queue ++ pending s.receiver)),
    length-map s.copied (λ (c : Bytes × List Address). c.0),
    length-map s.heard labelled,
  )

  -- What is in order when the receiver has nothing in its hands.
  no_pending :
      (place : Receiver)
      → s.receiver ≡ place
      → pending place ≡ []
      → messages s.copied ++ (in_hand s.broadcaster ++ s.queue) ≡ map labelled s.heard
  no_pending place e p =
      ap (λ (l : List Bytes). messages s.copied ++ (in_hand s.broadcaster ++ l))
        (sym (append-nil s.queue) ∙ ap (λ (l : List Bytes). s.queue ++ l) (sym (ap pending e ∙ p)))
      ∙ h.order

  -- A message is heard.
  hears-IsChat :
      (d : Datagram) (rest : List Arrived)
      → s.receiver ≡ receives
      → datagrams s.arrivals ≡ d ∷ datagrams rest
      → IsChat asked
          (record s { arrivals = rest; receiver = user_lock d; heard = s.heard ++ (d ∷ []) })
  unfolding message_of name_of
  hears-IsChat d rest e a = record {
    exclusion = omega (arith, h.exclusion, ap adding e);
    input =
        append_assoc s.heard (d ∷ []) (datagrams rest)
        ∙ ap (λ (l : List Datagram). s.heard ++ l) (sym a)
        ∙ h.input;
    last = (s.heard, refl);
    order =
        sym (append_three (messages s.copied) (in_hand s.broadcaster) s.queue (message_of d ∷ []))
        ∙ ap (λ (l : List Bytes). l ++ (message_of d ∷ [])) (no_pending receives e refl)
        ∙ sym (map-append s.heard d);
    sent = h.sent;
    known = λ j x f l. elim (append_cases s.heard d x j f) [
      | inl (m, g) ↦ h.known j x g (omega (arith, m, ap unknown e))
      | inr (m, g) ↦ absurd (omega (arith, l, m, length-append s.heard (d ∷ [])))
    ];
    reached = λ k c f j x l g. elim (append_cases s.heard d x j g) [
      | inl (m, z) ↦ h.reached k c f j x l z
      | inr (m, z) ↦ absurd (omega (arith, l, m, copied_le, get_elem?-length s.copied k c f))
    ];
  }

  -- An arrival that is no message.
  ignores-IsChat :
      (rest : List Arrived)
      → datagrams s.arrivals ≡ datagrams rest
      → IsChat asked (record s { arrivals = rest })
  ignores-IsChat rest a = record {
    exclusion = h.exclusion;
    input = ap (λ (l : List Datagram). s.heard ++ l) (sym a) ∙ h.input;
    last = h.last;
    order = h.order;
    sent = h.sent;
    known = h.known;
    reached = h.reached;
  }

  receive-Keeps : s.receiver ≡ receives → Keeps asked (receive s)
  unfolding receive
  receive-Keeps e = elim (List-cases s.arrivals) [
    | inl q ↦ rw (receive, q) waits
    | inr (recvfrom_failed, rest, q) ↦
        rw (receive, q) (keeps _ (ignores-IsChat rest (ap datagrams q)))
    | inr (arrived sender [], rest, q) ↦
        rw (receive, q) (keeps _ (ignores-IsChat rest (ap datagrams q)))
    | inr (arrived sender (b ∷ bytes), rest, q) ↦
        rw (receive, q)
          (keeps _ (
            hears-IsChat (record { sender = sender; text = text_in (b ∷ bytes) }) rest e
              (ap datagrams q)))
  ]

  -- The receiver goes to another place, with the same message.
  goes-IsChat :
      (old new : Receiver) (lock : Bool)
      → s.receiver ≡ old
      → adding new + bit s.lock ≡ adding old + bit lock
      → pending new ≡ pending old
      → unknown old ≤ unknown new
      → (IsLast s.heard old → IsLast s.heard new)
      → IsChat asked (record s { receiver = new; lock = lock })
  goes-IsChat old new lock e x p u l = record {
    exclusion = omega (arith, x, h.exclusion, ap adding e);
    input = h.input;
    last = l (subst (IsLast s.heard) e h.last);
    order =
        ap (λ (m : List Bytes). messages s.copied ++ (in_hand s.broadcaster ++ (s.queue ++ m)))
          (p ∙ sym (ap pending e))
        ∙ h.order;
    sent = h.sent;
    known = λ j d f m. h.known j d f (omega (arith, u, m, ap unknown e));
    reached = h.reached;
  }

  -- The sender is put into the map.
  insert-IsChat :
      (d : Datagram)
      → s.receiver ≡ user_insert d
      → IsChat asked (record s {
        receiver = user_unlock d;
        user_map = put_user (name_of d.sender) d.sender s.user_map;
      })
  unfolding name_of
  insert-IsChat d e = record {
    exclusion = omega (arith, h.exclusion, ap adding e);
    input = h.input;
    last = subst (IsLast s.heard) e h.last;
    order =
        ap (λ (m : List Bytes). messages s.copied ++ (in_hand s.broadcaster ++ (s.queue ++ m)))
          (sym (ap pending e))
        ∙ h.order;
    sent = h.sent;
    known = λ j x f m.
        let (ds, q) = subst (IsLast s.heard) e h.last in
        elim (append_cases ds d x j (ap (λ (l : List Datagram). get_elem? l j) (sym q) ∙ f)) [
          | inl (l, g) ↦ HasUser-put_other (label x.sender) d.sender s.user_map (
              h.known j x f
                (omega (arith, l, ap unknown e, ap length q, length-append ds (d ∷ []))))
          | inr (l, g) ↦
              subst
                (λ (y : Datagram).
                  HasUser (label y.sender) (put_user (name_of d.sender) d.sender s.user_map))
                (sym g) (HasUser-put_user d.sender s.user_map)
        ];
    reached = h.reached;
  }

  -- The message goes to the queue.
  push-IsChat :
      (d : Datagram)
      → s.receiver ≡ pushes d
      → IsChat asked (record s { receiver = receives; queue = s.queue ++ (message_of d ∷ []) })
  push-IsChat d e = record {
    exclusion = omega (arith, h.exclusion, ap adding e);
    input = h.input;
    last = tt;
    order =
        ap (λ (l : List Bytes). messages s.copied ++ (in_hand s.broadcaster ++ l))
          (append-nil (s.queue ++ (message_of d ∷ []))
            ∙ ap (λ (l : List Bytes). s.queue ++ l) (sym (ap pending e)))
        ∙ h.order;
    sent = h.sent;
    known = λ j x f m. h.known j x f (omega (arith, m, ap unknown e));
    reached = h.reached;
  }

  pub server_recive-Keeps :
      (place : Receiver) → s.receiver ≡ place → Keeps asked (server_recive s place)
  unfolding server_recive
  server_recive-Keeps receives e = receive-Keeps e
  server_recive-Keeps (user_lock d) e = elim (Bool-cases s.lock) [
    | inl l ↦ rw l waits
    | inr l ↦ rw l (
        keeps _ (
          goes-IsChat (user_lock d) (user_insert d) true e (omega (arith, ap bit l)) refl
            (omega arith) (λ x. x)))
  ]
  server_recive-Keeps (user_insert d) e = keeps _ (insert-IsChat d e)
  server_recive-Keeps (user_unlock d) e = keeps _ (
      goes-IsChat (user_unlock d) (pushes d) false e
        (omega (arith, h.exclusion, ap adding e, bit_le s.lock)) refl (omega arith) (λ x. x))
    where
      bit_le : (b : Bool) → bit b ≤ 1
      bit_le true = omega arith
      bit_le false = omega arith
  server_recive-Keeps (pushes d) e = elim (Bool-cases (length s.queue == s.cap)) [
    | inl l ↦ rw l waits
    | inr l ↦ rw l (keeps _ (push-IsChat d e))
  ]
