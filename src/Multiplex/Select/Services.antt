-- ===== src/Multiplex/Select/Services.antt =====
-- The table of descriptors through the services of 8.6/selectServer.2/SelectServer.hpp.
use my_linux.Base.{
  List-cases, ℕ, zero, suc, ◌+◌, ◌<◌, ◌≤◌, ◌≡◌, ◌≢◌, refl, ap, sym, subst, ◌∙◌, inl, inr, Bool,
  true, false, ◌&&◌, Option, some, List, [], ◌==◌, get_elem?, set, drop, length, length-set, arith,
  Bool-cases, Option-cases,
}
use my_linux.Text.{Bytes}
use my_linux.Multiplex.{
  Accepted, accepted, accept_failed, Received, received, recv_failed, taken, eq_or_ne, put_ne,
  put_undo, find_free, find_free_lem, fd_at, FdSet, put, IsTable, insert-IsTable, remove-IsTable,
}
use my_linux.Multiplex.Select.{
  Server, free_slot, fd_size, reads, writes, fds, add_client, accepter, drop_client, io_service,
  handle_slot, handler_event,
}
use my_linux.Multiplex.Select.Slots.{Fits, Fits-failed, Fits-accepted, answer-some}
use my_linux.Multiplex.Places.{map-set, fd_at-drop, get_elem?-ne_none, fd_at-map, ne_of_test}

pub record IsSound (s : Server) : Type 0 where
  pub table : IsTable s.listensock (fds s) s.opened
  pub size : length s.fd_array ≡ fd_size
  pub small : (f : ℕ) → s.opened f ≡ true → f < fd_size
  pub fits : Fits s.accepts

-- Defined behaviour that leaves a sound server.
abbrev pub Ends : Option Server → Type 0
Ends out = (t : Server) × (out ≡ some t) × IsSound t

-- Opening, closing.
open_small :
    (opened : FdSet) (fd : ℕ) (b : Bool)
    → ((f : ℕ) → opened f ≡ true → f < fd_size)
    → fd < fd_size
    → (f : ℕ) → put opened fd b f ≡ true
    → f < fd_size
open_small opened fd b h l f e = elim (eq_or_ne f fd) [
  | inl q ↦ omega (arith, l, q)
  | inr q ↦ h f (sym (put_ne opened fd f b q) ∙ e)
]

module _ (s : Server) (h : IsSound s) where
  drop_client-IsSound :
      (i fd : ℕ) (rest : List Received)
      → fd_at (fds s) i ≡ some fd
      → fd ≢ s.listensock
      → IsSound (drop_client (record s { recvs = rest }) i fd)
  unfolding drop_client
  drop_client-IsSound i fd rest e n = record {
    table =
        subst (λ c. IsTable s.listensock c (put s.opened fd false))
          (sym (map-set (λ x. x.fd) s.fd_array i free_slot))
          (remove-IsTable s.listensock (fds s) s.opened h.table i fd e n);
    size = length-set s.fd_array i free_slot ∙ h.size;
    small = open_small s.opened fd false h.small (h.small fd (h.table.is_open i fd e));
    fits = h.fits;
  }

  -- The client goes to the free place that the search found, which is not the first.
  placed-IsSound :
      (fd pos : ℕ) (ip : Bytes) (port : ℕ) (rest : List Accepted)
      → s.opened fd ≡ false
      → fd < fd_size
      → Fits rest
      → find_free (drop 1 (fds s)) 1 ≡ some pos
      → IsSound (record s {
        opened = put s.opened fd true;
        accepts = rest;
        fd_array =
            set s.fd_array pos
              (record { fd = some fd; event = 1; client_ip = ip; client_port = port });
      })
  placed-IsSound fd pos ip port rest c l r e =
      let (d, p, b, z) = find_free_lem (drop 1 (fds s)) 1 pos e in
      let (g, m) = fd_at-drop (fds s) d b in
      let at : pos ≡ suc d = omega (arith, p) in
      record {
        table =
            subst (λ t. IsTable s.listensock t (put s.opened fd true))
              (sym (map-set (λ x. x.fd) s.fd_array pos _))
              (insert-IsTable s.listensock (fds s) s.opened h.table pos fd c (omega (arith, at, m))
                (ap (fd_at (fds s)) at ∙ sym g ∙ z));
        size = length-set s.fd_array pos _ ∙ h.size;
        small = open_small s.opened fd true h.small l;
        fits = r;
      }

  add_client-IsSound :
      (fd : ℕ) (ip : Bytes) (port : ℕ) (rest : List Accepted)
      → fd < fd_size
      → Fits rest
      → IsSound (add_client (record s { accepts = rest }) fd ip port)
  unfolding add_client
  add_client-IsSound fd ip port rest l r = elim (Bool-cases (s.opened fd)) [
    | inl a ↦ rw a (record { table = h.table; size = h.size; small = h.small; fits = r })
    | inr a ↦ rw a (elim (Option-cases (find_free (drop 1 (fds s)) 1)) [
      | inl e ↦ rw e (record {
        table = subst (IsTable s.listensock (fds s)) (sym (put_undo s.opened fd a)) h.table;
        size = h.size;
        small = λ f q. h.small f (subst (λ o. o f ≡ true) (put_undo s.opened fd a) q);
        fits = r;
      })
      | inr (pos, e) ↦ rw e (placed-IsSound fd pos ip port rest a l r e)
    ])
  ]

  accepter-IsSound : IsSound (accepter s)
  unfolding accepter
  accepter-IsSound = elim (List-cases s.accepts) [
    | inl e ↦
        rw e
          (record { table = h.table; size = h.size; small = h.small; fits = subst Fits e h.fits })
    | inr (accept_failed, rest, e) ↦ rw e (record {
      table = h.table;
      size = h.size;
      small = h.small;
      fits = Fits-failed (subst Fits e h.fits);
    })
    | inr (accepted fd ip port, rest, e) ↦
        let (l, r) = Fits-accepted (subst Fits e h.fits) in
        rw e (add_client-IsSound fd ip port rest l r)
  ]

  -- `IOService` of a client's place: the descriptor is closed and forgotten together, or stays.
  io_service-Ends :
      (i fd : ℕ) → fd_at (fds s) i ≡ some fd → fd ≢ s.listensock → Ends (io_service s i fd)
  unfolding io_service
  io_service-Ends i fd a n = elim (List-cases s.recvs) [
    | inl e ↦ rw e (_, refl, drop_client-IsSound i fd [] a n)
    | inr (recv_failed, rest, e) ↦ rw e (_, refl, drop_client-IsSound i fd rest a n)
    | inr (received all, rest, e) ↦ elim (List-cases (taken all)) [
      | inl q ↦ rw (io_service, e, q) (_, refl, drop_client-IsSound i fd rest a n)
      | inr (b, bytes, q) ↦
          let (text, r) = answer-some b bytes in
          rw (io_service, e, q, r)
            (_, refl, record { table = h.table; size = h.size; small = h.small; fits = h.fits })
    ]
  ]

  handle_slot-Ends :
      (rdfds wtfds : FdSet) (i : ℕ) → i < fd_size → Ends (handle_slot s rdfds wtfds i)
  unfolding handle_slot
  handle_slot-Ends rdfds wtfds i l = elim (Option-cases (get_elem? s.fd_array i)) [
    | inl e ↦ absurd (get_elem?-ne_none s.fd_array i (omega (arith, l, h.size)) e)
    | inr (x, e) ↦ elim (Option-cases x.fd) [
      | inl f ↦ rw (handle_slot, e, f) (s, refl, h)
      | inr (fd, f) ↦ elim (Bool-cases (reads x.event && rdfds fd)) [
        | inl g ↦ elim (Bool-cases (fd == s.listensock)) [
          | inl q ↦ rw (handle_slot, e, f, g, q) (_, refl, accepter-IsSound)
          | inr q ↦
              rw (handle_slot, e, f, g, q)
                (io_service-Ends i fd (fd_at-map (λ x. x.fd) s.fd_array i x e ∙ f)
                  (ne_of_test fd s.listensock q))
        ]
        | inr g ↦ elim (Bool-cases (writes x.event && wtfds fd)) [
          | inl q ↦ rw (handle_slot, e, f, g, q) (s, refl, h)
          | inr q ↦ rw (handle_slot, e, f, g, q) (s, refl, h)
        ]
      ]
    ]
  ]

pub handler_event-Ends :
    (n i : ℕ) (s : Server) (rdfds wtfds : FdSet)
    → i + n ≤ fd_size
    → IsSound s
    → Ends (handler_event n i s rdfds wtfds)
unfolding handler_event
handler_event-Ends zero i s rdfds wtfds l h = (s, refl, h)
handler_event-Ends (suc n) i s rdfds wtfds l h =
    let (t, e, k) = handle_slot-Ends s h rdfds wtfds i (omega (arith, l)) in
    rw (handler_event, e) (handler_event-Ends n (i + 1) t rdfds wtfds (omega (arith, l)) k)
