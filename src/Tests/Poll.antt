-- ===== src/Tests/Poll.antt =====
-- The poll server of 8.7/pollServer/PollServer.hpp at concrete inputs.
use my_linux.Base.{◌≡◌, refl, none, some, List, [], ◌∷◌, ◌==◌, if◌then◌else◌, arith}
use my_linux.Multiplex.{Accepted, accepted, Received, received}
use my_linux.Multiplex.Poll.{
  PollServer, init_poll, Polled, poll_timeout, poll_ready, start_poll, poll_io_service,
}
use my_linux.Multiplex.Poll.Table.{none_left, brings, IsPolled}
use my_linux.Multiplex.Poll.Rounds.{start_poll-Ends}
use my_linux.Multiplex.Poll.Faults.{poll_io_service_single}

abbrev guest : List Accepted
guest = accepted 4 [] 5000 ∷ []

abbrev spoken : List Received
spoken = received (104 ∷ 105 ∷ 13 ∷ 10 ∷ []) ∷ received [] ∷ []

abbrev polls : List Polled
polls =
    poll_ready (λ f. if f == 3 then 1 else 0)
    ∷ poll_timeout
    ∷ poll_ready (λ f. if f == 4 then 1 else 0)
    ∷ []

start_poll-Ends_example :
    (t : PollServer) × (start_poll (init_poll 3 guest spoken) polls ≡ some t) × IsPolled t
start_poll-Ends_example =
    start_poll-Ends 3 guest spoken polls
      (brings (λ e. omega (arith, e)) (brings (λ e. omega (arith, e)) none_left))

single_byte : poll_io_service (init_poll 3 [] (received (10 ∷ []) ∷ [])) 1 4 ≡ none
unfolding init_poll
single_byte = poll_io_service_single (init_poll 3 [] (received (10 ∷ []) ∷ [])) 1 4 10 [] refl
