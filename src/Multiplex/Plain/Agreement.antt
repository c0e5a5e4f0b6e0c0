-- ===== src/Multiplex/Plain/Agreement.antt =====
-- The two versions of the select server (8.6/selectServer.1, 8.6/selectServer.2) do the same: the second
-- only ever waits to read.
use mathlib.Core.Option
use mathlib.Core.Option.{none-ne-some, some-injective}
use my_linux.Base.{
  List-cases, ℕ, zero, suc, ◌+◌, ◌≡◌, ◌⊎◌, refl, ap, sym, ◌∙◌, inl, inr, true, Option, none, some,
  List, [], ◌∷◌, ◌==◌, map, get_elem?, set, drop, Bool-cases, Option-cases,
}
use my_linux.Text.{Bytes}
use my_linux.Multiplex.{
  accepted, accept_failed, Received, received, recv_failed, taken, find_free, FdSet, put,
}
use my_linux.Multiplex.Places.{map-set}
use my_linux.Multiplex.Select.{
  Slot, Server, free_slot, fds, add_client, accepter, drop_client, answer, io_service, handle_slot,
  handler_event,
}
use my_linux.Multiplex.Plain.{
  PlainServer, plain_accepter, close_place, plain_answer, plain_io_service, plain_place,
  plain_handler_event,
}

-- The second server without the events and the addresses.
abbrev pub view : Server → PlainServer
view s = record {
  listensock = s.listensock;
  fd_array = fds s;
  opened = s.opened;
  accepts = s.accepts;
  recvs = s.recvs;
  outputs = s.outputs;
}

-- Every place that is taken waits to read, and for nothing else.
abbrev pub Reading : List Slot → Type 0
Reading [] = Unit {0}
Reading (x ∷ xs) = ((x.fd ≡ none) ⊎ (x.event ≡ 1)) × Reading xs

pub Reading-set :
    (xs : List Slot) (i : ℕ) (v : Slot)
    → (v.fd ≡ none) ⊎ (v.event ≡ 1)
    → Reading xs
    → Reading (set xs i v)
Reading-set [] i v e h = h
Reading-set (x ∷ xs) zero v e h = (e, h.1)
Reading-set (x ∷ xs) (suc i) v e h = (h.0, Reading-set xs i v e h.1)

-- What the two versions come to: undefined behaviour in both, or the same server.
pub data Agree : Option PlainServer → Option Server → Type 0 where
  both_undefined : Agree none none
  both_go :
      (t : PlainServer) (s : Server) → t ≡ view s → Reading s.fd_array → Agree (some t) (some s)

view-accepter : (s : Server) → plain_accepter (view s) ≡ view (accepter s)
unfolding plain_accepter accepter
view-accepter s = elim (List-cases s.accepts) [
  | inl e ↦ rw (plain_accepter, accepter, e) refl
  | inr (accept_failed, rest, e) ↦ rw (plain_accepter, accepter, e) refl
  | inr (accepted fd ip port, rest, e) ↦ elim (Bool-cases (s.opened fd)) [
    | inl o ↦ rw (plain_accepter, accepter, add_client, e, o) refl
    | inr o ↦ elim (Option-cases (find_free (drop 1 (fds s)) 1)) [
      | inl f ↦ rw (plain_accepter, accepter, add_client, e, o, f) refl
      | inr (i, f) ↦
          rw (plain_accepter, accepter, add_client, e, o, f)
            (ap
              (λ (c : List (Option ℕ)). record (view s) {
                accepts = rest;
                opened = put s.opened fd true;
                fd_array = c;
              })
              (sym (map-set (λ x. x.fd) s.fd_array i _)))
    ]
  ]
]

accepter-Reading : (s : Server) → Reading s.fd_array → Reading (accepter s).fd_array
unfolding accepter
accepter-Reading s h = elim (List-cases s.accepts) [
  | inl e ↦ rw (accepter, e) h
  | inr (accept_failed, rest, e) ↦ rw (accepter, e) h
  | inr (accepted fd ip port, rest, e) ↦ elim (Bool-cases (s.opened fd)) [
    | inl o ↦ rw (accepter, add_client, e, o) h
    | inr o ↦ elim (Option-cases (find_free (drop 1 (fds s)) 1)) [
      | inl f ↦ rw (accepter, add_client, e, o, f) h
      | inr (i, f) ↦ rw (accepter, add_client, e, o, f) (Reading-set s.fd_array i _ (inr refl) h)
    ]
  ]
]

get_elem?-map {ℓ κ} :
    {A : Type ℓ} {B : Type κ} (f : A → B) (xs : List A) (i : ℕ)
    → get_elem? (map f xs) i ≡ Option.map f (get_elem? xs i)
get_elem?-map f [] i = refl
get_elem?-map f (x ∷ xs) zero = refl
get_elem?-map f (x ∷ xs) (suc i) = get_elem?-map f xs i

pub Reading-get :
    (xs : List Slot) (i fd : ℕ) (x : Slot)
    → Reading xs
    → get_elem? xs i ≡ some x
    → x.fd ≡ some fd
    → x.event ≡ 1
Reading-get [] i fd x h e f = absurd (none-ne-some x e)
Reading-get (y ∷ xs) zero fd x (inl n, h) e f =
    absurd (none-ne-some fd (sym n ∙ ap (λ z. z.fd) (some-injective y x e) ∙ f))
Reading-get (y ∷ xs) zero fd x (inr n, h) e f = ap (λ z. z.event) (sym (some-injective y x e)) ∙ n
Reading-get (y ∷ xs) (suc i) fd x h e f = Reading-get xs i fd x h.1 e f

plain_answer-eq-answer : (bytes : Bytes) → plain_answer bytes ≡ answer bytes
unfolding plain_answer answer
plain_answer-eq-answer bytes = refl

module _ (s : Server) (h : Reading s.fd_array) where
  dropped-Agree :
      (i fd : ℕ) (rest : List Received)
      → Agree
          (some (close_place (view s) rest i fd))
          (some (drop_client (record s { recvs = rest }) i fd))
  unfolding drop_client
  dropped-Agree i fd rest =
      both_go _ _
        (ap (λ (c : List (Option ℕ)). record (close_place (view s) rest i fd) { fd_array = c })
          (sym (map-set (λ x. x.fd) s.fd_array i free_slot)))
        (Reading-set s.fd_array i free_slot (inl refl) h)

  io_service-Agree : (i fd : ℕ) → Agree (plain_io_service (view s) i fd) (io_service s i fd)
  unfolding plain_io_service io_service
  io_service-Agree i fd = elim (List-cases s.recvs) [
    | inl e ↦ rw e (dropped-Agree i fd [])
    | inr (recv_failed, rest, e) ↦ rw (plain_io_service, io_service, e) (dropped-Agree i fd rest)
    | inr (received all, rest, e) ↦ elim (List-cases (taken all)) [
      | inl q ↦ rw (plain_io_service, io_service, e, q) (dropped-Agree i fd rest)
      | inr (b, bytes, q) ↦ elim (Option-cases (answer (b ∷ bytes))) [
        | inl a ↦
            rw (plain_io_service, io_service, e, q, plain_answer-eq-answer (b ∷ bytes), a)
              both_undefined
        | inr (resp, a) ↦
            rw (plain_io_service, io_service, e, q, plain_answer-eq-answer (b ∷ bytes), a)
              (both_go _ _ refl h)
      ]
    ]
  ]

  taken-Agree :
      (x : Slot) (i : ℕ)
      → get_elem? s.fd_array i ≡ some x
      → (rdfds wtfds : FdSet) → Agree (plain_place (view s) rdfds i) (handle_slot s rdfds wtfds i)
  unfolding plain_place handle_slot
  taken-Agree x i e rdfds wtfds = elim (Option-cases x.fd) [
    | inl f ↦
        rw (plain_place, handle_slot, get_elem?-map (λ y. y.fd) s.fd_array i, e, f)
          (both_go _ s refl h)
    | inr (fd, f) ↦
        let v = Reading-get s.fd_array i fd x h e f in
        elim (Bool-cases (rdfds fd)) [
          | inl g ↦ elim (Bool-cases (fd == s.listensock)) [
            | inl q ↦
                rw (plain_place, handle_slot, get_elem?-map (λ y. y.fd) s.fd_array i, e, f, v, q, g)
                  (both_go _ _ (view-accepter s) (accepter-Reading s h))
            | inr q ↦
                rw (plain_place, handle_slot, get_elem?-map (λ y. y.fd) s.fd_array i, e, f, v, q, g)
                  (io_service-Agree i fd)
          ]
          | inr g ↦ elim (Bool-cases (fd == s.listensock)) [
            | inl q ↦
                rw (plain_place, handle_slot, get_elem?-map (λ y. y.fd) s.fd_array i, e, f, v, q, g)
                  (both_go _ _ refl h)
            | inr q ↦
                rw (plain_place, handle_slot, get_elem?-map (λ y. y.fd) s.fd_array i, e, f, v, q, g)
                  (both_go _ _ refl h)
          ]
        ]
  ]

  place-Agree :
      (i : ℕ) (rdfds wtfds : FdSet)
      → Agree (plain_place (view s) rdfds i) (handle_slot s rdfds wtfds i)
  unfolding plain_place handle_slot
  place-Agree i rdfds wtfds = elim (Option-cases (get_elem? s.fd_array i)) [
    | inl e ↦
        rw (plain_place, handle_slot, get_elem?-map (λ y. y.fd) s.fd_array i, e) both_undefined
    | inr (x, e) ↦ taken-Agree x i e rdfds wtfds
  ]

-- What is done next agrees when it agrees on every server.
pub next-Agree :
    (k : PlainServer → Option PlainServer) (l : Server → Option Server)
    → ((s : Server) → Reading s.fd_array → Agree (k (view s)) (l s))
    → {a : Option PlainServer} {b : Option Server} → Agree a b
    → Agree (elim a [ none ↦ none | some t ↦ k t ]) (elim b [ none ↦ none | some s ↦ l s ])
next-Agree k l f both_undefined = both_undefined
next-Agree k l f (both_go t s e h) = rw e (f s h)

-- The loop of `HandlerEvent`, over places that agree.
pub handler_event-Agree :
    (n i : ℕ) (s : Server) (rdfds wtfds : FdSet)
    → Reading s.fd_array
    → Agree (plain_handler_event n i (view s) rdfds) (handler_event n i s rdfds wtfds)
unfolding plain_handler_event handler_event
handler_event-Agree zero i s rdfds wtfds h = both_go _ s refl h
handler_event-Agree (suc n) i s rdfds wtfds h =
    next-Agree (λ t. plain_handler_event n (i + 1) t rdfds)
      (λ t. handler_event n (i + 1) t rdfds wtfds)
      (λ t k. handler_event-Agree n (i + 1) t rdfds wtfds k) (place-Agree s h i rdfds wtfds)
