-- ===== src/Multiplex/Poll/Table.antt =====
-- The table of descriptors for as long as the server of 8.7/pollServer/PollServer.hpp runs.
use my_linux.Base.{
  List-cases, ℕ, ◌-◌, ◌<◌, ◌≤◌, ◌≡◌, ◌≢◌, refl, ap, sym, subst, ◌∙◌, inl, inr, true, false, Option,
  some, List, [], ◌∷◌, ◌++◌, ◌==◌, ltb, get_elem?, get_elem?-set_self, set, drop, length,
  length-set, arith, Bool-cases, Option-cases,
}
use my_linux.Text.{Bytes, codes}
use my_linux.Multiplex.{
  Accepted, accepted, accept_failed, Received, received, recv_failed, taken, put_undo, find_free,
  fd_at, put, IsTable, remove-IsTable,
}
use my_linux.Multiplex.Places.{
  map-set, get_elem?-ne_none, fd_at-map, ne_of_test, c_string-has_nul, placed-IsTable,
}
use my_linux.Multiplex.Poll.{
  PollServer, free_fd, array_size, pollin, poll_fds, watch_client, accept_client, forget_client,
  poll_answer, poll_io_service, handle_place,
}

-- No message of just one byte will arrive.
pub data NoSingles : List Received → Type 0 where
  none_left : NoSingles []
  fails : {rest : List Received} → NoSingles rest → NoSingles (recv_failed ∷ rest)
  brings :
      {rest : List Received} {all : Bytes}
      → length all ≢ 1
      → NoSingles rest
      → NoSingles (received all ∷ rest)

pub NoSingles-failed : {rest : List Received} → NoSingles (recv_failed ∷ rest) → NoSingles rest
NoSingles-failed (fails r) = r

pub NoSingles-received :
    {rest : List Received} {all : Bytes}
    → NoSingles (received all ∷ rest)
    → (length all ≢ 1) × NoSingles rest
NoSingles-received (brings l r) = (l, r)

pub record IsPolled (s : PollServer) : Type 0 where
  pub table : IsTable s.listensock (poll_fds s) s.opened
  pub size : length s.fd_array ≡ array_size
  pub pairs : NoSingles s.recvs

-- Defined behaviour that leaves a sound server.
abbrev pub Ends : Option PollServer → Type 0
Ends out = (t : PollServer) × (out ≡ some t) × IsPolled t

pub taken-two :
    (all : Bytes) (b : ℕ) (bytes : Bytes)
    → taken all ≡ b ∷ bytes
    → length all ≢ 1
    → 2 ≤ length (b ∷ bytes)
unfolding taken
taken-two [] b bytes e n = omega (arith, ap length e)
taken-two (x ∷ []) b bytes e n = absurd (n refl)
taken-two (x ∷ y ∷ all) b bytes e n = omega (arith, ap length e)

poll_answer-some :
    (bytes : Bytes) → 2 ≤ length bytes → (resp : Bytes) × (poll_answer bytes ≡ some resp)
unfolding poll_answer
poll_answer-some bytes l =
    let (text, e) = c_string-has_nul _ (length bytes - 2) stored in
    rw (poll_answer, enough bytes l, e) (text ++ codes " server echo: ", refl)
  where
    enough : (bytes : Bytes) → 2 ≤ length bytes → ltb (length bytes) 2 ≡ false
    enough bytes l = ground arith

    stored :
        get_elem? (set (set bytes (length bytes - 1) 0) (length bytes - 2) 0) (length bytes - 2)
        ≡ some 0
    stored =
        get_elem?-set_self (set bytes (length bytes - 1) 0) (length bytes - 2) 0
          (omega (arith, length-set bytes (length bytes - 1) 0))

module _ (s : PollServer) (h : IsPolled s) where
  forget_client-IsPolled :
      (i fd : ℕ) (rest : List Received)
      → fd_at (poll_fds s) i ≡ some fd
      → fd ≢ s.listensock
      → NoSingles rest
      → IsPolled (forget_client (record s { recvs = rest }) i fd)
  unfolding forget_client
  forget_client-IsPolled i fd rest e n p = record {
    table =
        subst (λ c. IsTable s.listensock c (put s.opened fd false))
          (sym (map-set (λ x. x.fd) s.fd_array i free_fd))
          (remove-IsTable s.listensock (poll_fds s) s.opened h.table i fd e n);
    size = length-set s.fd_array i free_fd ∙ h.size;
    pairs = p;
  }

  watch_client-IsPolled :
      (fd : ℕ) (rest : List Accepted) → IsPolled (watch_client (record s { accepts = rest }) fd)
  unfolding watch_client
  watch_client-IsPolled fd rest = elim (Bool-cases (s.opened fd)) [
    | inl a ↦ rw a (record { table = h.table; size = h.size; pairs = h.pairs })
    | inr a ↦ rw a (elim (Option-cases (find_free (drop 1 (poll_fds s)) 1)) [
      | inl e ↦ rw e (record {
        table = subst (IsTable s.listensock (poll_fds s)) (sym (put_undo s.opened fd a)) h.table;
        size = h.size;
        pairs = h.pairs;
      })
      | inr (i, e) ↦ rw e (record {
        table =
            subst (λ t. IsTable s.listensock t (put s.opened fd true))
              (sym (map-set (λ x. x.fd) s.fd_array i _))
              (placed-IsTable s.listensock (poll_fds s) s.opened fd i h.table a e);
        size = length-set s.fd_array i _ ∙ h.size;
        pairs = h.pairs;
      })
    ])
  ]

  accept_client-IsPolled : IsPolled (accept_client s)
  unfolding accept_client
  accept_client-IsPolled = elim (List-cases s.accepts) [
    | inl e ↦ rw e (record { table = h.table; size = h.size; pairs = h.pairs })
    | inr (accept_failed, rest, e) ↦
        rw e (record { table = h.table; size = h.size; pairs = h.pairs })
    | inr (accepted fd ip port, rest, e) ↦ rw e (watch_client-IsPolled fd rest)
  ]

  poll_io_service-Ends :
      (i fd : ℕ)
      → fd_at (poll_fds s) i ≡ some fd
      → fd ≢ s.listensock
      → Ends (poll_io_service s i fd)
  unfolding poll_io_service
  poll_io_service-Ends i fd a n = elim (List-cases s.recvs) [
    | inl e ↦ rw e (_, refl, forget_client-IsPolled i fd [] a n none_left)
    | inr (recv_failed, rest, e) ↦ rw e (
      _,
      refl,
      forget_client-IsPolled i fd rest a n (NoSingles-failed (subst NoSingles e h.pairs)),
    )
    | inr (received all, rest, e) ↦
        let (l, p) = NoSingles-received (subst NoSingles e h.pairs) in
        elim (List-cases (taken all)) [
          | inl q ↦ rw (poll_io_service, e, q) (_, refl, forget_client-IsPolled i fd rest a n p)
          | inr (b, bytes, q) ↦
              let (text, r) = poll_answer-some (b ∷ bytes) (taken-two all b bytes q l) in
              rw (poll_io_service, e, q, r)
                (_, refl, record { table = h.table; size = h.size; pairs = p })
        ]
  ]

  pub handle_place-Ends : (i : ℕ) → i < array_size → Ends (handle_place s i)
  unfolding handle_place
  handle_place-Ends i l = elim (Option-cases (get_elem? s.fd_array i)) [
    | inl e ↦ absurd (get_elem?-ne_none s.fd_array i (omega (arith, l, h.size)) e)
    | inr (x, e) ↦ elim (Option-cases x.fd) [
      | inl f ↦ rw (handle_place, e, f) (s, refl, h)
      | inr (fd, f) ↦ elim (Bool-cases (pollin x.revents)) [
        | inl g ↦ elim (Bool-cases (fd == s.listensock)) [
          | inl q ↦ rw (handle_place, e, f, q, g) (_, refl, accept_client-IsPolled)
          | inr q ↦
              rw (handle_place, e, f, q, g)
                (poll_io_service-Ends i fd (fd_at-map (λ x. x.fd) s.fd_array i x e ∙ f)
                  (ne_of_test fd s.listensock q))
        ]
        | inr g ↦ elim (Bool-cases (fd == s.listensock)) [
          | inl q ↦ rw (handle_place, e, f, q, g) (s, refl, h)
          | inr q ↦ rw (handle_place, e, f, q, g) (s, refl, h)
        ]
      ]
    ]
  ]
