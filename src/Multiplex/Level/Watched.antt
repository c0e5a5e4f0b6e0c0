-- ===== src/Multiplex/Level/Watched.antt =====
-- What the server of 8.7/epollServer.1/epollServer.hpp watches for as long as it runs.
use mathlib.Core.Bool.{true≢false}
use my_linux.Base.{
  List-cases, ==_iff, ℕ, ◌-◌, ◌%◌, ◌≤◌, ◌≡◌, ◌≢◌, refl, ap, sym, subst, ◌∙◌, inl, inr, true, false,
  some, List, [], ◌∷◌, ◌==◌, ltb, set, length, length-set, get_elem?, get_elem?-set_self, arith,
  Bool-cases,
}
use my_linux.Text.{Bytes}
use my_linux.Multiplex.{
  Accepted, accepted, accept_failed, Received, received, recv_failed, taken, put, put_ne, put_same,
}
use my_linux.Multiplex.Places.{ne_of_test, c_string-has_nul}
use my_linux.Multiplex.Poll.Table.{
  NoSingles, none_left, NoSingles-failed, NoSingles-received, taken-two,
}
use my_linux.Multiplex.Level.{
  LevelServer, Served, goes, init_level, watch, unwatch, take_client, request_text, serve_client,
  serve_event, serve_events, serve_waits, start_level,
}

-- What is watched is what is open.
pub record IsWatched (s : LevelServer) : Type 0 where
  pub same : s.watched ≡ s.opened
  pub listens : s.opened s.listensock ≡ true
  pub pairs : NoSingles s.recvs

abbrev pub Goes : Served → Type 0
Goes out = (t : LevelServer) × (out ≡ goes t) × IsWatched t

request_text-some :
    (bytes : Bytes) → 2 ≤ length bytes → (text : Bytes) × (request_text bytes ≡ some text)
unfolding request_text
request_text-some bytes l =
    let (text, e) = c_string-has_nul _ (length bytes - 2) stored in
    (text, rw (request_text, enough bytes l) e)
  where
    enough : (bytes : Bytes) → 2 ≤ length bytes → ltb (length bytes) 2 ≡ false
    enough bytes l = ground arith

    stored :
        get_elem? (set (set bytes (length bytes - 1) 0) (length bytes - 2) 0) (length bytes - 2)
        ≡ some 0
    stored =
        get_elem?-set_self (set bytes (length bytes - 1) 0) (length bytes - 2) 0
          (omega (arith, length-set bytes (length bytes - 1) 0))

module _ (s : LevelServer) (h : IsWatched s) where
  unwatch-IsWatched :
      (fd : ℕ) (rest : List Received)
      → fd ≢ s.listensock
      → NoSingles rest
      → IsWatched (unwatch (record s { recvs = rest }) fd)
  unfolding unwatch
  unwatch-IsWatched fd rest n p = record {
    same = ap (λ w. put w fd false) h.same;
    listens = put_ne s.opened fd s.listensock false (λ e. n (sym e)) ∙ h.listens;
    pairs = p;
  }

  opens : (fd : ℕ) → s.opened fd ≡ false → put s.opened fd true s.listensock ≡ true
  opens fd o =
      put_ne s.opened fd s.listensock true (λ e. true≢false (sym h.listens ∙ ap s.opened e ∙ o))
      ∙ h.listens

  take_client-Goes : Goes (take_client s)
  unfolding take_client watch
  take_client-Goes = elim (List-cases s.accepts) [
    | inl e ↦
        rw (take_client, e)
          (_, refl, record { same = h.same; listens = h.listens; pairs = h.pairs })
    | inr (accept_failed, rest, e) ↦
        rw (take_client, e)
          (_, refl, record { same = h.same; listens = h.listens; pairs = h.pairs })
    | inr (accepted fd ip port, rest, e) ↦ elim (Bool-cases (s.opened fd)) [
      | inl o ↦
          rw (take_client, e, o)
            (_, refl, record { same = h.same; listens = h.listens; pairs = h.pairs })
      | inr o ↦
          rw (take_client, e, o, watch, ap (λ w. w fd) h.same ∙ o)
            (
              _,
              refl,
              record {
                same = ap (λ w. put w fd true) h.same;
                listens = opens fd o;
                pairs = h.pairs;
              },
            )
    ]
  ]

  serve_client-Goes :
      (func : Bytes → Bytes) (fd : ℕ) → fd ≢ s.listensock → Goes (serve_client func s fd)
  unfolding serve_client
  serve_client-Goes func fd n = elim (List-cases s.recvs) [
    | inl e ↦ rw e (_, refl, unwatch-IsWatched fd [] n none_left)
    | inr (recv_failed, rest, e) ↦
        rw (serve_client, e)
          (_, refl, unwatch-IsWatched fd rest n (NoSingles-failed (subst NoSingles e h.pairs)))
    | inr (received all, rest, e) ↦
        let (l, p) = NoSingles-received (subst NoSingles e h.pairs) in
        elim (List-cases (taken all)) [
          | inl q ↦ rw (serve_client, e, q) (_, refl, unwatch-IsWatched fd rest n p)
          | inr (b, bytes, q) ↦
              let (text, r) = request_text-some (b ∷ bytes) (taken-two all b bytes q l) in
              rw (serve_client, e, q, r)
                (_, refl, record { same = h.same; listens = h.listens; pairs = p })
        ]
  ]

  serve_event-Goes : (func : Bytes → Bytes) (fd event : ℕ) → Goes (serve_event func s fd event)
  unfolding serve_event
  serve_event-Goes func fd event = elim (Bool-cases (event % 2 == 1)) [
    | inl i ↦ elim (Bool-cases (fd == s.listensock)) [
      | inl q ↦ rw (serve_event, i, q) take_client-Goes
      | inr q ↦ rw (serve_event, i, q) (serve_client-Goes func fd (ne_of_test fd s.listensock q))
    ]
    | inr i ↦ rw (serve_event, i) (s, refl, h)
  ]

serve_events-Goes :
    (func : Bytes → Bytes) (s : LevelServer) (es : List (ℕ × ℕ))
    → IsWatched s
    → Goes (serve_events func s es)
unfolding serve_events
serve_events-Goes func s [] h = (s, refl, h)
serve_events-Goes func s (x ∷ es) h =
    let (t, e, k) = serve_event-Goes s h func x.0 x.1 in
    rw (serve_events, e) (serve_events-Goes func t es k)

serve_waits-Goes :
    (func : Bytes → Bytes) (s : LevelServer) (ws : List (List (ℕ × ℕ)))
    → IsWatched s
    → Goes (serve_waits func s ws)
unfolding serve_waits
serve_waits-Goes func s [] h = (s, refl, h)
serve_waits-Goes func s (w ∷ ws) h =
    let (t, e, k) = serve_events-Goes func s w h in
    rw (serve_waits, e) (serve_waits-Goes func t ws k)

-- Whatever accept and epoll_wait return and in whatever order, whatever function answers, and whatever
-- recv returns but a message of just one byte, the epoll server never writes outside its buffer and
-- never ends by a failed AddEvent, and after each wait it watches exactly its open descriptors, the
-- listening socket among them.
pub start_level-Goes :
    (func : Bytes → Bytes) (listen : ℕ) (accepts : List Accepted) (recvs : List Received)
    (ws : List (List (ℕ × ℕ)))
    → NoSingles recvs
    → (t : LevelServer) × (start_level func (init_level listen accepts recvs) ws ≡ goes t)
      × IsWatched t
unfolding start_level watch init_level
start_level-Goes func listen accepts recvs ws p =
    serve_waits-Goes func _ ws
      (record { same = put_same listen; listens = (==_iff listen listen).1 refl; pairs = p })
