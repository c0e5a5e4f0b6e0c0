-- ===== src/Multiplex/Poll/Rounds.antt =====
-- `init_server` and `start_server` of 8.7/pollServer/PollServer.hpp.
use mathlib.Core.Option.{none-ne-some, some-injective}
use my_linux.Base.{
  ==_iff, ℕ, zero, suc, ◌+◌, ◌≤◌, ◌≡◌, refl, ap, sym, subst, ◌∙◌, Option, none, some, List, [], ◌∷◌,
  map, length-set, length-map, length-replicate, replicate, arith,
}
use my_linux.Multiplex.{Accepted, Received, fd_at, IsTable}
use my_linux.Multiplex.Poll.{
  PollFd, PollServer, free_fd, array_size, init_poll, watch_listensock, handle_places, Polled,
  poll_timeout, poll_failed, poll_ready, with_events, poll_round, poll_rounds, start_poll,
}
use my_linux.Multiplex.Poll.Table.{NoSingles, IsPolled, Ends, handle_place-Ends}

handle_places-Ends :
    (n i : ℕ) (s : PollServer) → i + n ≤ array_size → IsPolled s → Ends (handle_places n i s)
unfolding handle_places
handle_places-Ends zero i s l h = (s, refl, h)
handle_places-Ends (suc n) i s l h =
    let (t, e, k) = handle_place-Ends s h i (omega (arith, l)) in
    rw (handle_places, e) (handle_places-Ends n (i + 1) t (omega (arith, l)) k)

events_fds :
    (r : ℕ → ℕ) (xs : List PollFd) → map (λ x. x.fd) (map (with_events r) xs) ≡ map (λ x. x.fd) xs
events_fds r [] = refl
events_fds r (x ∷ xs) = ap (◌∷◌ x.fd) (events_fds r xs)

events-IsPolled :
    (r : ℕ → ℕ) (s : PollServer)
    → IsPolled s
    → IsPolled (record s { fd_array = map (with_events r) s.fd_array })
events-IsPolled r s h = record {
  table = subst (λ c. IsTable s.listensock c s.opened) (sym (events_fds r s.fd_array)) h.table;
  size = length-map s.fd_array (with_events r) ∙ h.size;
  pairs = h.pairs;
}

poll_round-Ends : (s : PollServer) (result : Polled) → IsPolled s → Ends (poll_round s result)
unfolding poll_round
poll_round-Ends s poll_timeout h = (_, refl, events-IsPolled (λ f. 0) s h)
poll_round-Ends s poll_failed h = (s, refl, h)
poll_round-Ends s (poll_ready r) h =
    handle_places-Ends array_size 0 _ (omega arith) (events-IsPolled r s h)

poll_rounds-Ends :
    (s : PollServer) (results : List Polled) → IsPolled s → Ends (poll_rounds s results)
unfolding poll_rounds
poll_rounds-Ends s [] h = (s, refl, h)
poll_rounds-Ends s (result ∷ results) h =
    let (t, e, k) = poll_round-Ends s result h in rw (poll_rounds, e) (poll_rounds-Ends t results k)

free_column : (n i : ℕ) → fd_at (map (λ x. x.fd) (replicate n free_fd)) i ≡ none
free_column zero i = refl
free_column (suc n) zero = refl
free_column (suc n) (suc i) = free_column n i

started-IsPolled :
    (listen : ℕ) (accepts : List Accepted) (recvs : List Received)
    → NoSingles recvs
    → IsPolled (watch_listensock (init_poll listen accepts recvs))
unfolding watch_listensock init_poll
started-IsPolled listen accepts recvs p = record {
  table = record {
    first = refl;
    unique = λ i j f a b. only i f a ∙ sym (only j f b);
    is_open = λ i f a.
        (==_iff f listen).1
          (sym (some-injective listen f (ap (fd_at column) (sym (only i f a)) ∙ a)));
    found = λ f e. (0, ap some (sym ((==_iff f listen).0 e)));
  };
  size =
      length-set (replicate array_size free_fd) 0 (record free_fd { fd = some listen; events = 1 })
      ∙ length-replicate array_size free_fd;
  pairs = p;
}
  where
    column : List (Option ℕ)
    column = some listen ∷ map (λ x. x.fd) (replicate 4095 free_fd)

    only : (i f : ℕ) → fd_at column i ≡ some f → i ≡ 0
    only zero f e = refl
    only (suc i) f e = absurd (none-ne-some f (sym (free_column 4095 i) ∙ e))

-- Whatever accept and poll return and in whatever order, and whatever recv returns but a message of
-- just one byte, the poll server never writes outside its buffer, and at every moment between two rounds
-- the array holds exactly the open descriptors, each once, the listening socket first.
pub start_poll-Ends :
    (listen : ℕ) (accepts : List Accepted) (recvs : List Received) (results : List Polled)
    → NoSingles recvs
    → (t : PollServer) × (start_poll (init_poll listen accepts recvs) results ≡ some t) × IsPolled t
unfolding start_poll
start_poll-Ends listen accepts recvs results p =
    poll_rounds-Ends _ results (started-IsPolled listen accepts recvs p)
