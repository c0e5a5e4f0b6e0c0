-- ===== src/Tests/TcpServer.antt =====
-- The service of 7.19/tcp_socket/tcp_server.hpp at concrete inputs.
use my_linux.Base.{◌≡◌, refl, none, List, [], ◌∷◌, ◌++◌, map, replicate, arith}
use my_linux.Text.{Bytes, codes, c_string}
use my_linux.Text.Find.{has_no-Lacks}
use my_linux.Multiplex.{received}
use my_linux.TcpServer.{closed, read_2048, respond_to, service}
use my_linux.TcpServer.Answers.{AllTexts, hangs_up, service_answers}

abbrev twice : Bytes → Bytes
twice text = text ++ text

abbrev said : List Bytes
said = codes "hi" ∷ codes "there" ∷ []

said-AllTexts : AllTexts said
said-AllTexts = (
  (omega arith, omega arith, has_no-Lacks 0 (codes "hi") refl),
  ((omega arith, omega arith, has_no-Lacks 0 (codes "there") refl), tt),
)

service_answers_example :
    service twice (map received said ++ (received [] ∷ [])) [] ≡ closed (codes "hihitherethere")
service_answers_example =
    service_answers twice said (received [] ∷ []) closed [] said-AllTexts (hangs_up [])

service_runs : service twice (received (codes "hi") ∷ []) [] ≡ closed (codes "hihi")
unfolding service read_2048 respond_to c_string
service_runs = refl

-- A full buffer has no place for the terminator.
respond_to_full : respond_to twice (replicate 2048 b'x') ≡ none
unfolding respond_to
respond_to_full = refl
