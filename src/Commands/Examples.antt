-- ===== src/Commands/Examples.antt =====
-- The theorems on requests at inputs: a bridge that answers every request after 10 ticks, and one that is
-- busy at first.
use hueplusplus.Base.{[], ◌∷◌, ◌+◌, ◌<◌, ◌≤◌, ◌≡◌, ◌≢◌, refl, ok, arith, ◌↔◌, ◌⊎◌}
use hueplusplus.Json.Value.{obj, stop, nothing, values_lib}
use hueplusplus.Commands.{
  response, busy, Network, Line, get, put, run_with_timeout, request, handle_error, create,
  combined_path, find_error,
}
use hueplusplus.Commands.Delay.{
  start, first_call, after, run_with_timeout-starts, run_with_timeout-spacing,
  run_with_timeout-too_soon,
}
use hueplusplus.Commands.Replies.{NoError, handle_error-ok_iff}

methods : Unit {0}
unfolding run_with_timeout request handle_error create combined_path find_error
methods = tt

abbrev quick : Network values_lib
quick = record { call = λ n t method uri body. (response (obj stop), t + 10); wake = λ t. t }

abbrev overloaded : Network values_lib
overloaded = record { call = λ n t method uri body. (busy, t + 10); wake = λ t. t }

-- The next request may be sent now, and only in 70 ticks.
abbrev free_line : Line
free_line = record { time = 1000; timeout = 900; calls = 0; starts = [] }

abbrev taken_line : Line
taken_line = record { time = 1000; timeout = 1070; calls = 0; starts = [] }

-- With a delay of 100 ticks, the second request is sent 30 ticks after the first.
first_start : start values_lib quick get [] nothing taken_line ≡ 1070
first_start = refl

next_start :
    start values_lib quick get [] nothing (after values_lib quick get [] nothing 100 taken_line)
    ≡ 1100
unfolding methods
next_start = refl

run_with_timeout-starts_example :
    ((first_call values_lib overloaded put [] nothing free_line).0 ≢ busy
      → (after values_lib overloaded put [] nothing 100 free_line).starts ≡ 1000 ∷ [])
    × ((first_call values_lib overloaded put [] nothing free_line).0 ≡ busy
        → (after values_lib overloaded put [] nothing 100 free_line).starts ≡ 1110 ∷ 1000 ∷ [])
    × (((1000 < 900) × (start values_lib overloaded put [] nothing free_line ≡ 900))
        ⊎ ((900 ≤ 1000) × (start values_lib overloaded put [] nothing free_line ≡ 1000)))
run_with_timeout-starts_example =
    run_with_timeout-starts values_lib overloaded put [] nothing 100 free_line

run_with_timeout-spacing_example :
    1100
    ≤ start values_lib quick get [] nothing (after values_lib quick put [] nothing 100 free_line)
unfolding methods
run_with_timeout-spacing_example =
    run_with_timeout-spacing values_lib quick put get [] [] nothing nothing (λ t. ground arith) 100
      free_line (obj stop) (omega arith) refl

run_with_timeout-too_soon_example :
    start values_lib quick get [] nothing (after values_lib quick put [] nothing 100 taken_line)
    < 1170
unfolding methods
run_with_timeout-too_soon_example =
    run_with_timeout-too_soon values_lib quick put get [] [] nothing nothing (λ t. ground arith) 100
      taken_line (obj stop) (omega arith) refl (omega arith) refl

handle_error-ok_iff_example :
    (handle_error values_lib (obj stop) ≡ ok (obj stop))
    ↔ ((obj stop ≡ obj stop) × NoError values_lib (obj stop))
handle_error-ok_iff_example = handle_error-ok_iff values_lib (obj stop) (obj stop)
