-- ===== src/Bridge.antt =====
-- `Bridge` of src/Bridge.cpp, with `safeGetMember` of include/hueplusplus/Utils.h: how a user name is requested,
-- and how a stream is started and stopped. The lists of devices are not modelled.
pub mod Finder
pub mod Username
mod Examples
use hueplusplus.Base.{
  ℕ, zero, suc, ◌-◌, List, [], ◌∷◌, ◌++◌, Bool, true, false, ◌||◌, not, Option, none, some, Bytes,
  codes, ltb, ◌==◌, length, if◌then◌else◌, Result, ok, err, Error, ◌>>=◌,
}
use hueplusplus.Base.Int.{ℤ, pos, eqb_ℤ}
use hueplusplus.Json.{JsonLib, has, or_throw}
use hueplusplus.Commands.{ApiError, create}
use hueplusplus.Cache.{Surroundings, own, refresh}

pub record Bridge : Type 0 where
  pub ip : Bytes
  pub port : ℤ
  pub username : Bytes
  pub clientkey : Bytes

-- The HTTP handler: the answer to the n-th POST of a request, the answers to PUT, and what a cache
-- for a user meets. The clock is read before the first POST and after each.
pub record Handler (J : JsonLib) : Type 0 where
  pub post : ℕ → Bytes → ℤ → Bytes → J.Json → Result J.Json
  pub put : Bytes → ℤ → Bytes → J.Json → Result J.Json
  pub clock : ℕ → ℕ
  pub state_of : Bytes → Surroundings J

-- A key of `safeGetMember`
pub data Key : Type 0 where
  name : Bytes → Key
  index : ℕ → Key

module _ (J : JsonLib) where
  abbrev pub nth : List J.Json → ℕ → J.Json
  nth [] i = J.null
  nth (v ∷ vs) zero = v
  nth (v ∷ vs) (suc i) = nth vs i

  abbrev pub child : J.Json → Key → J.Json
  child j (name key) = elim (J.find j key) [ none ↦ J.null | some v ↦ v ]
  child j (index i) = if J.is_array j then nth (J.elements j) i else J.null

  -- `safeGetMember`
  unfoldable pub safe_get_member : J.Json → List Key → J.Json
  safe_get_member j [] = j
  safe_get_member j (key ∷ keys) = safe_get_member (child j key) keys

-- How one pass through the loop of `requestUsername` ends.
pub data Attempt : Type 0 where
  again : Attempt
  ended : Result (Unit {0}) → Bridge → Attempt

-- What `requestUsername` gives back or throws, the bridge after it, and how often it asked.
pub record Requested : Type 0 where
  pub result : Result Bytes
  pub bridge : Bridge
  pub attempts : ℕ

module _ (J : JsonLib) (H : Handler J) (refresh_duration : ℤ) where
  -- `jsonKey`
  abbrev pub with_key : Bridge → J.Json → Attempt
  with_key b key = if J.is_null key then ended (ok tt) b else elim (J.to_text key) [
    | none ↦ ended (err Error.json_exception) b
    | some k ↦ ended (ok tt) (record b { clientkey = k })
  ]

  abbrev pub connected : Bridge → J.Json → Result (Unit {0}) → Attempt
  connected b key (err e) = ended (err e) b
  connected b key (ok _) = with_key b key

  -- The refresh at the end of `setHttpHandler`, which makes a new cache.
  abbrev pub set_http_handler : Bridge → Result (Unit {0})
  set_http_handler b =
      (refresh J (H.state_of b.username) (own J [] refresh_duration J.null (pos 0)) []
        (record { readings = 0; sent = [] })).result

  abbrev pub accepted : Bridge → J.Json → J.Json → Attempt
  accepted b user key = elim (J.to_text user) [
    | none ↦ ended (err Error.json_exception) b
    | some u ↦
        connected (record b { username = u }) key (set_http_handler (record b { username = u }))
  ]

  -- All errors but 101, that the button is not pressed, end the loop.
  abbrev pub by_code : Bridge → Result (ApiError J) → Attempt
  by_code b (err e) = ended (err e) b
  by_code b (ok e) =
      if eqb_ℤ e.error (pos 101) then again else ended (err Error.api_response_exception) b

  abbrev pub refused_by : Bridge → J.Json → Attempt
  refused_by b v = if has J v (codes "error") then by_code b (create J v) else again

  abbrev pub refused : Bridge → J.Json → Attempt
  refused b answer =
      if length (J.elements answer) == 0
      then again
      else if J.is_array answer
      then refused_by b (nth J (J.elements answer) 0)
      else ended (err Error.json_exception) b

  -- One pass through the loop, with the answer to its POST.
  unfoldable pub attempt : Bridge → Result J.Json → Attempt
  attempt b (err e) = ended (err e) b
  attempt b (ok answer) =
      let user =
        safe_get_member J answer
          (index 0 ∷ name (codes "success") ∷ name (codes "username") ∷ []) in
      let key =
        safe_get_member J answer
          (index 0 ∷ name (codes "success") ∷ name (codes "clientkey") ∷ []) in
      if J.is_null user then refused b answer else accepted b user key

  -- The body of the request
  abbrev username_request : J.Json
  username_request =
      J.set (J.set J.object (codes "devicetype") (J.of_text (codes "HuePlusPlus#User")))
        (codes "generateclientkey") (J.of_bool true)

  abbrev pub answer_to : Bridge → ℕ → Result J.Json
  answer_to b n = H.post n b.ip b.port (codes "/api") username_request

  module _ (timeout : ℕ) where
    -- How the loop goes on behind a pass, with what it gives if it goes on.
    abbrev pub go_on : ℕ → Bridge → Option Requested → Attempt → Option Requested
    go_on n b rest (ended r after) =
        some (record { result = r >>= λ _. ok after.username; bridge = after; attempts = suc n })
    go_on n b rest again =
        if ltb (H.clock (suc n) - H.clock 0) timeout
        then rest
        else some (record { result = ok b.username; bridge = b; attempts = suc n })

    -- The loop, from its n-th pass on; `none` if the fuel is spent.
    unfoldable pub ask : ℕ → ℕ → Bridge → Option Requested
    ask zero n b = none
    ask (suc fuel) n b = let rest = ask fuel (suc n) b in go_on n b rest (attempt b (answer_to b n))

    -- `requestUsername`
    unfoldable pub request_username : ℕ → Bridge → Option Requested
    request_username fuel b = ask fuel 0 b

  abbrev stream_request : Bool → J.Json
  stream_request on =
      J.set J.object (codes "stream") (J.set J.object (codes "active") (J.of_bool on))

  abbrev stream_uri : Bridge → Bytes → Bytes
  stream_uri b group = codes "/api/" ++ (b.username ++ (codes "/groups/" ++ group))

  abbrev active_key : Bytes → Bytes
  active_key group = codes "/groups/" ++ (group ++ codes "/stream/active")

  -- `startStreaming`
  unfoldable pub start_streaming : Bridge → Bytes → Result Bool
  start_streaming b group =
      if length b.clientkey == 0
      then err Error.hue_exception
      else H.put b.ip b.port (stream_uri b group) (stream_request true) >>= λ answer. ok (
          J.equal
            (safe_get_member J answer
              (index 0 ∷ name (codes "success") ∷ name (active_key group) ∷ []))
            (J.of_bool true))

  -- `answer[0]` of a variable value
  abbrev first_of : J.Json → Result J.Json
  first_of answer =
      if J.is_array answer || J.is_null answer
      then ok (nth J (J.elements answer) 0)
      else err Error.json_exception

  abbrev is_stopped : Bytes → J.Json → Bool
  is_stopped group v = elim (J.find v (codes "success")) [
    | none ↦ false
    | some s ↦ elim (J.find s (active_key group)) [
      | none ↦ false
      | some a ↦ J.equal a (J.of_bool false)
    ]
  ]

  -- `stopStreaming`
  unfoldable pub stop_streaming : Bridge → Bytes → Result Bool
  stop_streaming b group =
      H.put b.ip b.port (stream_uri b group) (stream_request false) >>= λ answer.
      first_of answer >>= λ v. ok (is_stopped group v)
