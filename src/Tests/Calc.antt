-- ===== src/Tests/Calc.antt =====
-- `calculateHandler` of 8.11/epollServer.2/main.cc at concrete requests.
use my_linux.Base.{◌<◌, ◌≡◌, refl, none, some, arith}
use my_linux.Base.Int.{ℤ, pos, negsuc, ◌+ℤ◌, ◌*ℤ◌}
use my_linux.Protocol.Message.{Request, Response}
use my_linux.Calc.{quot, answer, refusal, calculate_handler}
use my_linux.Calc.Division.{magnitude, calculate_handler_division}
use my_linux.Calc.Codes.{Explains, calculate_handler_codes, calculate_handler_defined}

abbrev by_zero : Request
by_zero = record { x = pos 8; y = pos 0; op = b'/' }

handler_runs :
    (calculate_handler (record { x = negsuc 6; y = pos 2; op = b'/' }) ≡ some (answer (negsuc 2)))
    × (calculate_handler (record { x = negsuc 6; y = pos 2; op = b'%' }) ≡ some (answer (negsuc 0)))
    × (calculate_handler (record { x = pos 2147483647; y = pos 1; op = b'+' }) ≡ none)
    × (calculate_handler by_zero ≡ some (refusal 1))
unfolding calculate_handler ◌+ℤ◌
handler_runs = (refl, refl, refl, refl)

calculate_handler_division_example :
    (q r : ℤ) × (calculate_handler (record { x = negsuc 6; y = pos 2; op = b'/' })
      ≡ some (answer q))
    × (calculate_handler (record { x = negsuc 6; y = pos 2; op = b'%' }) ≡ some (answer r))
    × ((q *ℤ pos 2) +ℤ r ≡ negsuc 6)
    × (magnitude r < 2)
unfolding quot
calculate_handler_division_example = calculate_handler_division (negsuc 6) (pos 2) refl refl

calculate_handler_codes_example : Explains by_zero (refusal 1)
unfolding calculate_handler
calculate_handler_codes_example = calculate_handler_codes by_zero (refusal 1) refl

calculate_handler_defined_example : (resp : Response) × (calculate_handler by_zero ≡ some resp)
calculate_handler_defined_example = calculate_handler_defined by_zero (omega arith) (omega arith)
