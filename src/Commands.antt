-- ===== src/Commands.antt =====
-- `HueCommandAPI` of src/HueCommandAPI.cpp, and `HueAPIResponseException::Create` of
-- src/HueException.cpp: requests to the bridge, their delays, their repetition, and error replies. The
-- HTTP handler is a parameter. One thread makes the calls.
pub mod Delay
pub mod Replies
pub mod Calls
mod Examples
use hueplusplus.Base.{
  ℕ, suc, ◌+◌, List, [], ◌∷◌, ◌++◌, Bool, true, false, not, Option, none, some, Bytes, codes, ltb,
  ◌==◌, if◌then◌else◌, Result, ok, err, Error, ◌>>=◌,
}
use hueplusplus.Base.Int.{ℤ, negsuc}
use hueplusplus.Std.Number.{stoi}
use hueplusplus.Json.{JsonLib, has, value_or, at_key, or_throw}

pub data Method : Type 0 where
  get put post delete : Method

-- How one call of the handler ends: with a response, with a `std::system_error` of the two codes
-- `connection_reset` and `timed_out`, with another one, or with another exception.
pub data Reply (J : JsonLib) : Type 0 where
  response : J.Json → Reply J
  busy system_failure : Reply J
  failure : Error → Reply J

-- A call of the handler, by its number and the time when it begins, with its reply and the time when it
-- ends; and the time when a thread wakes up that sleeps until a time.
pub record Network (J : JsonLib) : Type 0 where
  pub call : ℕ → ℕ → Method → Bytes → J.Json → Reply J × ℕ
  pub wake : ℕ → ℕ

-- The time, the time before which the next request waits, and when each request was sent, the latest
-- first. Times are ticks of the steady clock.
pub record Line : Type 0 where
  pub time : ℕ
  pub timeout : ℕ
  pub calls : ℕ
  pub starts : List ℕ

-- `combinedPath`
unfoldable pub combined_path : Bytes → Bytes → Bytes
combined_path username [] = codes "/api/" ++ username
combined_path username (c ∷ path) =
    codes "/api/" ++ (username ++ ((if not (c == b'/') then codes "/" else []) ++ (c ∷ path)))

module _ (J : JsonLib) where
  -- What the exception carries.
  pub record ApiError : Type 0 where
    pub error : ℤ
    pub address : Bytes
    pub description : Bytes

  abbrev number_or_text : J.Json → Result ℤ
  number_or_text v =
      if J.is_integer v
      then or_throw (J.to_int v)
      else if J.is_text v
      then or_throw (J.to_text v) >>= stoi
      else ok (negsuc 0)

  abbrev error_code : Option J.Json → Result ℤ
  error_code none = ok (negsuc 0)
  error_code (some v) = number_or_text v

  -- `HueAPIResponseException::Create`
  unfoldable pub create : J.Json → Result ApiError
  create reply = do
    error ← at_key J reply (codes "error")
    code ← error_code (J.find error (codes "type"))
    address ← value_or J J.to_text error (codes "address") []
    description ← value_or J J.to_text error (codes "description") []
    ok (record { error = code; address = address; description = description })

  -- `throw HueAPIResponseException::Create(…)`, where `Create` may throw itself.
  abbrev pub throw_api {ℓ} : {A : Type ℓ} → Result ApiError → Result A
  throw_api (ok e) = err Error.api_response_exception
  throw_api (err e) = err e

  -- `std::find_if` for an element with an error
  unfoldable pub find_error : List J.Json → Option J.Json
  find_error [] = none
  find_error (v ∷ vs) = if has J v (codes "error") then some v else find_error vs

  abbrev throw_found : Option J.Json → J.Json → Result J.Json
  throw_found none reply = ok reply
  throw_found (some v) reply = throw_api (create v)

  -- `HandleError`
  unfoldable pub handle_error : J.Json → Result J.Json
  handle_error reply =
      if has J reply (codes "error")
      then throw_api (create reply)
      else if J.is_array reply
      then throw_found (find_error (J.elements reply)) reply
      else ok reply

module _ (J : JsonLib) (N : Network J) where
  -- `std::this_thread::sleep_until`
  abbrev pub sleep_until : ℕ → Line → Line
  sleep_until t line = record line { time = N.wake t }

  -- One call of the functor.
  abbrev pub attempt : Method → Bytes → J.Json → Line → Reply J × Line
  attempt method uri body line =
      let (reply, end) = N.call line.calls line.time method uri body in
      (reply, record line { time = end; calls = suc line.calls; starts = line.time ∷ line.starts })

  abbrev pub wait : Line → Line
  wait line = if ltb line.time line.timeout then sleep_until line.timeout line else line

  -- After the second attempt nothing is caught.
  abbrev pub second : ℕ → Reply J × Line → Result J.Json × Line
  second min_delay (response v, line) = (ok v, record line { timeout = line.time + min_delay })
  second min_delay (busy, line) = (err Error.system_error, line)
  second min_delay (system_failure, line) = (err Error.system_error, line)
  second min_delay (failure e, line) = (err e, line)

  -- `now` is the time when the call was made.
  abbrev pub first : Method → Bytes → J.Json → ℕ → ℕ → Reply J × Line → Result J.Json × Line
  first method uri body min_delay now (response v, line) =
      (ok v, record line { timeout = now + min_delay })
  first method uri body min_delay now (busy, line) =
      second min_delay (attempt method uri body (sleep_until (line.time + min_delay) line))
  first method uri body min_delay now (system_failure, line) = (err Error.system_error, line)
  first method uri body min_delay now (failure e, line) = (err e, line)

  -- `RunWithTimeout`
  unfoldable pub run_with_timeout : Method → Bytes → J.Json → ℕ → Line → Result J.Json × Line
  run_with_timeout method uri body min_delay line =
      first method uri body min_delay line.time (attempt method uri body (wait line))

  abbrev handled : Result J.Json × Line → Result J.Json × Line
  handled (r, line) = (r >>= handle_error J, line)

  -- `PUTRequest`, `GETRequest`, `DELETERequest` and `POSTRequest`
  unfoldable pub request : Method → Bytes → Bytes → J.Json → ℕ → Line → Result J.Json × Line
  request method username path body min_delay line =
      handled (run_with_timeout method (combined_path username path) body min_delay line)
