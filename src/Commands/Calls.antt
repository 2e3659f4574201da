-- ===== src/Commands/Calls.antt =====
-- A request calls the HTTP handler.
use hueplusplus.Base.{ℕ, ◌+◌, ◌<◌, ◌≤◌, ◌≡◌, refl, Bytes, arith}
use hueplusplus.Json.{JsonLib}
use hueplusplus.Commands.{
  Network, Line, Reply, response, busy, system_failure, failure, Method, attempt, first, second,
  wait, run_with_timeout, request, combined_path, sleep_until,
}

module _ (J : JsonLib) (N : Network J) where
  wait_calls : (line : Line) → (wait J N line).calls ≡ line.calls
  wait_calls line = ground arith

  second_calls : (d : ℕ) (r : Reply J × Line) → (second J N d r).1.calls ≡ r.1.calls
  second_calls d (response v, w) = refl
  second_calls d (busy, w) = refl
  second_calls d (system_failure, w) = refl
  second_calls d (failure e, w) = refl

  first_calls :
      (method : Method) (uri : Bytes) (body : J.Json) (d now : ℕ) (r : Reply J × Line)
      → r.1.calls ≤ (first J N method uri body d now r).1.calls
  first_calls method uri body d now (response v, w) = omega arith
  first_calls method uri body d now (busy, w) =
      omega (arith, second_calls d (attempt J N method uri body (sleep_until J N (w.time + d) w)))
  first_calls method uri body d now (system_failure, w) = omega arith
  first_calls method uri body d now (failure e, w) = omega arith

  -- A request is at least one call of the handler.
  pub request_calls :
      (method : Method) (username path : Bytes) (body : J.Json) (d : ℕ) (line : Line)
      → line.calls < (request J N method username path body d line).1.calls
  unfolding request run_with_timeout
  request_calls method username path body d line = omega (
    arith,
    wait_calls line,
    first_calls method (combined_path username path) body d line.time
        (attempt J N method (combined_path username path) body (wait J N line)),
  )
