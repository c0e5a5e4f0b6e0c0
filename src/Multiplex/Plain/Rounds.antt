-- ===== src/Multiplex/Plain/Rounds.antt =====
-- 8.6/selectServer.1 and 8.6/selectServer.2: the loops of the two select servers, for as long as `select`
-- returns.
use mathlib.Core.Option
use mathlib.Core.Option.{none-ne-some, some-injective}
use my_linux.Base.{
  ℕ, zero, suc, ◌≡◌, refl, ap, sym, ◌∙◌, inl, inr, true, false, ◌&&◌, Option, none, some, List, [],
  ◌∷◌, ltb, if◌then◌else◌, map, set, replicate, Bool-cases, Option-cases,
}
use my_linux.Multiplex.{Accepted, Received, FdSet, put}
use my_linux.Multiplex.Places.{map-set}
use my_linux.Multiplex.Select.{
  Slot, Server, free_slot, fd_size, init_server, add_listensock, handler_event, fill_sets, Selected,
  timeout, failed, ready, round, rounds, start_server,
}
use my_linux.Multiplex.Plain.{
  PlainServer, plain_size, init_plain, fill_set, plain_handler_event, PlainSelected, no_event,
  select_failed, readable, plain_round, plain_rounds, start_plain,
}
use my_linux.Multiplex.Plain.Agreement.{
  view, Reading, Agree, both_undefined, both_go, next-Agree, handler_event-Agree,
}

-- What the first version makes of the same result of `select`: it asks for no set to write.
abbrev pub reads_of : Selected → PlainSelected
reads_of timeout = no_event
reads_of failed = select_failed
reads_of (ready r w) = readable r

-- The set to read is the same, and nothing is waited on to write.
fill_sets-Reading :
    (xs : List Slot) (r w : FdSet) (m : ℕ)
    → Reading xs
    → fill_sets xs r w m
      ≡ Option.map (λ (p : FdSet × ℕ). (p.0, w, p.1)) (fill_set (map (λ x. x.fd) xs) r m)
unfolding fill_sets fill_set
fill_sets-Reading [] r w m h = refl
fill_sets-Reading (x ∷ xs) r w m h = elim (Option-cases x.fd) [
  | inl f ↦ rw (fill_sets, fill_set, f) (fill_sets-Reading xs r w m h.1)
  | inr (fd, f) ↦ elim h.0 [
    | inl n ↦ absurd (none-ne-some fd (sym n ∙ f))
    | inr v ↦ elim (Bool-cases (ltb fd 1024)) [
      | inl b ↦
          rw (fill_sets, fill_set, f, v, b, v)
            (fill_sets-Reading xs (put r fd true) w (if ltb m fd then fd else m) h.1)
      | inr b ↦ rw (fill_sets, fill_set, f, v, b) refl
    ]
  ]
]

-- One turn of the two loops.
round-Agree :
    (s : Server) (result : Selected)
    → Reading s.fd_array
    → Agree (plain_round (view s) (reads_of result)) (round s result)
unfolding plain_round round
round-Agree s result h =
    elim (Option-cases (fill_set (map (λ x. x.fd) s.fd_array) (λ f. false) s.listensock)) [
      | inl e ↦
          rw
            (
              plain_round,
              round,
              fill_sets-Reading s.fd_array (λ f. false) (λ f. false) s.listensock h,
              e,
            )
            both_undefined
      | inr ((rdfds, maxfd), e) ↦
          rw
            (
              plain_round,
              round,
              fill_sets-Reading s.fd_array (λ f. false) (λ f. false) s.listensock h,
              e,
            )
            (go result rdfds)
    ]
  where
    go :
        (x : Selected) (rdfds : FdSet)
        → Agree
            (elim (reads_of x) [
              | no_event ↦ some (view s)
              | select_failed ↦ some (view s)
              | readable r ↦ plain_handler_event plain_size 0 (view s) (λ f. rdfds f && r f)
            ])
            (elim x [
              | timeout ↦ some s
              | failed ↦ some s
              | ready r w ↦ handler_event fd_size 0 s (λ f. rdfds f && r f) (λ f. false && w f)
            ])
    go timeout rdfds = both_go _ s refl h
    go failed rdfds = both_go _ s refl h
    go (ready r w) rdfds = handler_event-Agree 1024 0 s _ _ h

rounds-Agree :
    (results : List Selected) (s : Server)
    → Reading s.fd_array
    → Agree (plain_rounds (view s) (map reads_of results)) (rounds s results)
unfolding plain_rounds rounds
rounds-Agree [] s h = both_go _ s refl h
rounds-Agree (result ∷ results) s h =
    next-Agree (λ t. plain_rounds t (map reads_of results)) (λ t. rounds t results)
      (λ t k. rounds-Agree results t k) (round-Agree s result h)

Reading-replicate : (n : ℕ) → Reading (replicate n free_slot)
Reading-replicate zero = tt
Reading-replicate (suc n) = (inl refl, Reading-replicate n)

map-replicate : (n : ℕ) → map (λ x. x.fd) (replicate n free_slot) ≡ replicate n none
map-replicate zero = refl
map-replicate (suc n) = ap (λ (xs : List (Option ℕ)). none ∷ xs) (map-replicate n)

Agree-eq : {a : Option PlainServer} {b : Option Server} → Agree a b → a ≡ Option.map view b
Agree-eq both_undefined = refl
Agree-eq (both_go t s e h) = ap some e

-- Whatever the listening socket, what `accept` and `recv` return and what `select` returns, the server
-- that asks for no set to write behaves as the one that asks for it and leaves it empty: the same
-- descriptors stand in the same places, the same are open, the same calls are still to come and the
-- same bytes have been sent, or both have set a bit outside the set.
pub start_plain-eq-start_server :
    (listen : ℕ) (accepts : List Accepted) (recvs : List Received) (results : List Selected)
    → start_plain (init_plain listen accepts recvs) (map reads_of results)
      ≡ Option.map view (start_server (init_server listen accepts recvs) results)
unfolding start_plain start_server init_plain init_server add_listensock
start_plain-eq-start_server listen accepts recvs results =
    ap
      (λ (xs : List (Option ℕ)).
        plain_rounds (record (init_plain listen accepts recvs) { fd_array = xs })
          (map reads_of results))
      (ap (λ (xs : List (Option ℕ)). set xs 0 (some listen)) (sym (map-replicate 1024))
        ∙ sym (
            map-set (λ x. x.fd) (replicate 1024 free_slot) 0
              (record free_slot { fd = some listen; event = 1 })))
    ∙ Agree-eq (
        rounds-Agree results (add_listensock (init_server listen accepts recvs))
          (inr refl, (Reading-replicate 1023)))
