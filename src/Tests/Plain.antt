-- ===== src/Tests/Plain.antt =====
-- The two select servers (8.6/selectServer.1, 8.6/selectServer.2) at concrete inputs.
use mathlib.Core.Option
use my_linux.Base.{◌≡◌, refl, List, [], ◌∷◌, map, some, true, false, ◌==◌}
use my_linux.Text.{codes, c_string}
use my_linux.Multiplex.{accepted, Accepted, Received, received, terminated_back}
use my_linux.Multiplex.Select.{Selected, timeout, failed, ready, init_server, start_server}
use my_linux.Multiplex.Plain.{init_plain, start_plain, plain_answer}
use my_linux.Multiplex.Plain.Agreement.{view}
use my_linux.Multiplex.Plain.Rounds.{reads_of, start_plain-eq-start_server}

abbrev visit : List Accepted
visit = accepted 4 [] 5000 ∷ []

abbrev said : List Received
said = received (104 ∷ 105 ∷ 10 ∷ []) ∷ received [] ∷ []

abbrev turns : List Selected
turns =
    ready (λ f. f == 3) (λ f. true)
    ∷ timeout
    ∷ ready (λ f. f == 4) (λ f. f == 4)
    ∷ failed
    ∷ ready (λ f. f == 4) (λ f. false)
    ∷ []

start_plain-eq-start_server_example :
    start_plain (init_plain 3 visit said) (map reads_of turns)
    ≡ Option.map view (start_server (init_server 3 visit said) turns)
start_plain-eq-start_server_example = start_plain-eq-start_server 3 visit said turns

plain_answer_cuts : plain_answer (104 ∷ 105 ∷ 10 ∷ []) ≡ some (codes "hi server echo: ")
unfolding plain_answer c_string terminated_back
plain_answer_cuts = refl
