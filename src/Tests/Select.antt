-- ===== src/Tests/Select.antt =====
-- The select server of 8.6/selectServer.2/SelectServer.hpp at concrete inputs.
use mathlib.Core.Option.{some-injective, none-ne-some}
use my_linux.Base.{
  ℕ, suc, zero, ◌≤◌, ◌≡◌, ◌≢◌, refl, true, false, List, [], ◌∷◌, get_elem?, some, arith, ◌==◌,
}
use my_linux.Text.{codes}
use my_linux.Multiplex.{accepted, Accepted, Received, received, FdSet}
use my_linux.Multiplex.Select.{
  Slot, Server, free_slot, reads, writes, init_server, add_listensock, fill_sets, Selected, timeout,
  failed, ready, start_server, io_service,
}
use my_linux.Multiplex.Select.Slots.{none_left, gives}
use my_linux.Multiplex.Select.Services.{IsSound}
use my_linux.Multiplex.Select.Rounds.{started-IsSound, start_server-Ends, fill_sets_waits}
use my_linux.Multiplex.Select.Answers.{io_service_answers}

-- One client comes, speaks and leaves.
abbrev visit : List Accepted
visit = accepted 4 [] 5000 ∷ []

abbrev said : List Received
said = received (104 ∷ 105 ∷ 10 ∷ []) ∷ received [] ∷ []

abbrev turns : List Selected
turns =
    ready (λ f. f == 3) (λ f. false)
    ∷ timeout
    ∷ ready (λ f. f == 4) (λ f. false)
    ∷ failed
    ∷ ready (λ f. f == 4) (λ f. false)
    ∷ []

start_server-Ends_example :
    (t : Server) × (start_server (init_server 3 visit said) turns ≡ some t) × IsSound t
start_server-Ends_example =
    start_server-Ends 3 visit said turns (omega arith) (gives (omega arith) none_left)

abbrev started : Server
started = add_listensock (init_server 3 visit said)

fill_sets_waits_example :
    (rdfds wtfds : FdSet) × (maxfd : ℕ) × (fill_sets started.fd_array
        (λ f. false)
        (λ f. false)
        started.listensock
      ≡ some (rdfds, wtfds, maxfd))
    × ((i fd : ℕ) (x : Slot)
        → get_elem? started.fd_array i ≡ some x
        → x.fd ≡ some fd
        → (fd ≤ maxfd)
          × (reads x.event ≡ true → rdfds fd ≡ true)
          × (writes x.event ≡ true → wtfds fd ≡ true))
fill_sets_waits_example =
    fill_sets_waits started
      (started-IsSound 3 visit said (omega arith) (gives (omega arith) none_left))

abbrev slot : ℕ → Slot
slot fd = record { fd = some fd; event = 1; client_ip = []; client_port = 5000 }

abbrev serving : ℕ → Server
serving fd = record {
  listensock = 3;
  fd_array = slot 3 ∷ slot fd ∷ free_slot ∷ [];
  opened = λ f. true;
  accepts = [];
  recvs = said;
  outputs = [];
}

no_nul : (j b : ℕ) → get_elem? (104 ∷ 105 ∷ []) j ≡ some b → b ≢ 0
no_nul zero b e f = omega (arith, some-injective 104 b e, f)
no_nul (suc zero) b e f = omega (arith, some-injective 105 b e, f)
no_nul (suc (suc j)) b e f = none-ne-some b e

io_service_answers_example :
    io_service (serving 4) 1 4
    ≡ some (record (serving 4) {
      recvs = received [] ∷ [];
      outputs = (4, codes "hi server echo: ") ∷ [];
    })
io_service_answers_example =
    io_service_answers (serving 4) 1 4 10 (104 ∷ 105 ∷ []) (received [] ∷ []) (omega arith) no_nul
      refl
