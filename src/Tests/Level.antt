-- ===== src/Tests/Level.antt =====
-- The epoll server of 8.7/epollServer.1/epollServer.hpp at concrete inputs.
use my_linux.Base.{ℕ, ◌≡◌, List, [], ◌∷◌, arith}
use my_linux.Multiplex.{Accepted, accepted, Received, received}
use my_linux.Multiplex.Poll.Table.{none_left, brings}
use my_linux.Multiplex.Level.{LevelServer, goes, init_level, start_level}
use my_linux.Multiplex.Level.Watched.{IsWatched, start_level-Goes}

abbrev arrivals : List Accepted
arrivals = accepted 5 [] 5000 ∷ []

abbrev messages : List Received
messages = received (104 ∷ 105 ∷ 13 ∷ 10 ∷ []) ∷ received [] ∷ []

abbrev wakeups : List (List (ℕ × ℕ))
wakeups = ((3, 1) ∷ []) ∷ [] ∷ ((5, 1) ∷ []) ∷ ((5, 1) ∷ []) ∷ []

start_level-Goes_example :
    (t : LevelServer) × (start_level (λ text. text) (init_level 3 arrivals messages) wakeups
      ≡ goes t)
    × IsWatched t
start_level-Goes_example =
    start_level-Goes (λ text. text) 3 arrivals messages wakeups
      (brings (λ e. omega (arith, e)) (brings (λ e. omega (arith, e)) none_left))
