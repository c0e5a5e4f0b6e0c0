-- ===== src/Multiplex/Poll/Faults.antt =====
-- A message of one byte to the server of 8.7/pollServer/PollServer.hpp.
use my_linux.Base.{ℕ, ◌∷◌, ◌≡◌, refl, none, List, []}
use my_linux.Multiplex.{Received, received, taken}
use my_linux.Multiplex.Poll.{PollServer, poll_answer, poll_io_service}

-- When a message of one byte arrives, the service stores a NUL in front of its buffer, which is undefined
-- behaviour, whatever the state of the server.
pub poll_io_service_single :
    (s : PollServer) (i fd b : ℕ) (rest : List Received)
    → s.recvs ≡ received (b ∷ []) ∷ rest
    → poll_io_service s i fd ≡ none
unfolding poll_io_service poll_answer taken
poll_io_service_single s i fd b rest e = rw (poll_io_service, e) refl
