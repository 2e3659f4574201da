-- ===== src/Bridge/Username.antt =====
-- How the loop of `requestUsername` ends.
use hueplusplus.Base.{
  ℕ, zero, suc, ◌+◌, ◌-◌, ◌*◌, ◌<◌, ◌≤◌, List, [], ◌∷◌, ◌≡◌, refl, subst, ◌∙◌, Bool, true, false,
  ltb, Bytes, codes, Option, some, Result, ok, err, Error, ◌>>=◌, arith, if◌then◌else◌,
}
use hueplusplus.Base.Int.{ℤ, pos}
use hueplusplus.Json.{JsonLib, has}
use hueplusplus.Commands.{ApiError, create}
use hueplusplus.Bridge.{
  Bridge, Handler, Attempt, Requested, name, index, safe_get_member, attempt, answer_to,
  set_http_handler, go_on, ask, request_username, again, ended,
}

module _ (J : JsonLib) where
  abbrev pub member_of : J.Json → Bytes → J.Json
  member_of answer key = safe_get_member J answer (index 0 ∷ name (codes "success") ∷ name key ∷ [])

  -- The answer is an error with the code 101: the button is not pressed.
  abbrev pub IsWaiting : Result J.Json → Type 0
  IsWaiting r =
      (answer : J.Json) × (v : J.Json) × (vs : List J.Json) × (e : ApiError J) × (r ≡ ok answer)
      × (J.is_null (member_of answer (codes "username")) ≡ true)
      × (J.is_array answer ≡ true)
      × (J.elements answer ≡ v ∷ vs)
      × (has J v (codes "error") ≡ true)
      × (create J v ≡ ok e)
      × (e.error ≡ pos 101)

  -- The answer has a user name and a client key.
  abbrev pub IsPressed : Bytes → Bytes → Result J.Json → Type 0
  IsPressed username key r =
      (answer : J.Json) × (r ≡ ok answer)
      × (J.is_null (member_of answer (codes "username")) ≡ false)
      × (J.to_text (member_of answer (codes "username")) ≡ some username)
      × (J.is_null (member_of answer (codes "clientkey")) ≡ false)
      × (J.to_text (member_of answer (codes "clientkey")) ≡ some key)

module _ (J : JsonLib) (H : Handler J) (refresh_duration : ℤ) where
  waiting_again :
      (b : Bridge) (r : Result J.Json) → IsWaiting J r → attempt J H refresh_duration b r ≡ again
  unfolding attempt
  waiting_again b r (answer, v, vs, e, here, no_user, array, listed, error, created, code) =
      ground (arith, here, no_user, listed, array, error, created, code)

  pub unconnected_ended :
      (b : Bridge) (r : Result J.Json) (username key : Bytes) (e : Error)
      → IsPressed J username key r
      → set_http_handler J H refresh_duration (record b { username = username }) ≡ err e
      → attempt J H refresh_duration b r ≡ ended (err e) (record b { username = username })
  unfolding attempt
  unconnected_ended b r username key e (answer, here, user, text, has_key, key_text) connects =
      ground (arith, here, user, text, connects, has_key, key_text)

  pressed_ended :
      (b : Bridge) (r : Result J.Json) (username key : Bytes)
      → IsPressed J username key r
      → set_http_handler J H refresh_duration (record b { username = username }) ≡ ok tt
      → attempt J H refresh_duration b r
        ≡ ended (ok tt) (record b { username = username; clientkey = key })
  unfolding attempt
  pressed_ended b r username key (answer, here, user, text, has_key, key_text) connects =
      ground (arith, here, user, text, connects, has_key, key_text)

  module _ (timeout : ℕ) where
    ask_again :
        (fuel n : ℕ) (b : Bridge)
        → attempt J H refresh_duration b (answer_to J H refresh_duration b n) ≡ again
        → ltb (H.clock (suc n) - H.clock 0) timeout ≡ true
        → ask J H refresh_duration timeout (suc fuel) n b
          ≡ ask J H refresh_duration timeout fuel (suc n) b
    unfolding ask
    ask_again fuel n b waits early = rw (waits, early)

    ask_ended :
        (fuel n : ℕ) (b after : Bridge) (r : Result (Unit {0}))
        → attempt J H refresh_duration b (answer_to J H refresh_duration b n) ≡ ended r after
        → ask J H refresh_duration timeout (suc fuel) n b
          ≡ some
              (record { result = r >>= λ _. ok after.username; bridge = after; attempts = suc n })
    unfolding ask
    ask_ended fuel n b after r ends = rw ends

    -- A pass that lets the loop go on.
    abbrev GoesOn : Bridge → ℕ → Type 0
    GoesOn b n =
        (attempt J H refresh_duration b (answer_to J H refresh_duration b n) ≡ again)
        × (ltb (H.clock (suc n) - H.clock 0) timeout ≡ true)

    -- The passes from the n-th on, up to one that ends the loop.
    ask_until :
        (k fuel n last : ℕ) (b after : Bridge) (r : Result (Unit {0}))
        → n + k ≡ last
        → k < fuel
        → ((i : ℕ) → n ≤ i → i < last → GoesOn b i)
        → attempt J H refresh_duration b (answer_to J H refresh_duration b last) ≡ ended r after
        → ask J H refresh_duration timeout fuel n b
          ≡ some (record {
            result = r >>= λ _. ok after.username;
            bridge = after;
            attempts = suc last;
          })
    ask_until k zero n last b after r sum room waits ends = absurd (omega arith)
    ask_until zero (suc fuel) n last b after r sum room waits ends =
        subst
          (λ m.
            ask J H refresh_duration timeout (suc fuel) m b
            ≡ some (record {
              result = r >>= λ _. ok after.username;
              bridge = after;
              attempts = suc last;
            }))
          (omega (arith, sum)) (ask_ended fuel last b after r ends)
    ask_until (suc k) (suc fuel) n last b after r sum room waits ends =
        let (waits_now, early) = waits n (omega arith) (omega arith) in
        ask_again fuel n b waits_now early
        ∙ ask_until k fuel (suc n) last b after r (omega arith) (omega arith)
            (λ i below above. waits i (omega arith) above) ends

    module _ (interval : ℕ) (ticks : (n : ℕ) → H.clock n + interval ≤ H.clock (suc n)) where
      elapsed : (n : ℕ) → H.clock 0 + n * interval ≤ H.clock n
      elapsed zero = omega arith
      elapsed (suc n) = omega (arith, elapsed n, ticks n)

      ask_ends :
          (fuel n : ℕ) (b : Bridge)
          → 0 < fuel
          → timeout ≤ (n + fuel) * interval
          → (r : Requested) × (ask J H refresh_duration timeout fuel n b ≡ some r)
      unfolding ask
      ask_ends zero n b room enough = absurd (omega arith)
      ask_ends (suc fuel) n b room enough =
          by_attempt (attempt J H refresh_duration b (answer_to J H refresh_duration b n))
            (ask_ends fuel (suc n) b)
        where
          by_clock :
              (early : Bool) (rest : Option Requested)
              → ltb (H.clock (suc n) - H.clock 0) timeout ≡ early
              → (early ≡ true → (r : Requested) × (rest ≡ some r))
              → (r : Requested) × ((if early
                    then rest
                    else some (record { result = ok b.username; bridge = b; attempts = suc n }))
                  ≡ some r)
          by_clock true rest e later = later refl
          by_clock false rest e later = (_, refl)

          at_last : n + suc fuel ≡ suc n → timeout ≤ suc n * interval
          at_last e = subst (λ m. timeout ≤ m * interval) e enough

          -- Where the loop goes on, fuel is left.
          left : (f : ℕ) → f ≡ fuel → ltb (H.clock (suc n) - H.clock 0) timeout ≡ true → 0 < f
          left zero e early =
              absurd (ground (arith, early, elapsed (suc n), at_last (omega (arith, e))))
          left (suc f) e early = omega arith

          by_attempt :
              (a : Attempt)
              → (0 < fuel
                  → timeout ≤ (suc n + fuel) * interval
                  → (r : Requested) × (ask J H refresh_duration timeout fuel (suc n) b ≡ some r))
              → (r : Requested) × (go_on J H refresh_duration timeout n b
                    (ask J H refresh_duration timeout fuel (suc n) b)
                    a
                  ≡ some r)
          by_attempt (ended r after) later = (_, refl)
          by_attempt again later =
              by_clock (ltb (H.clock (suc n) - H.clock 0) timeout) _ refl
                (λ early. later (left fuel refl early) (omega arith))

  -- If the clock goes on by the interval of the attempts or more from each reading to the next, as
  -- after a sleep, then requestUsername ends: fuel for as many attempts as there are intervals in
  -- the timeout, and for one at least, is enough.
  pub request_username-ends :
      (timeout interval fuel : ℕ) (b : Bridge)
      → ((n : ℕ) → H.clock n + interval ≤ H.clock (suc n))
      → 0 < fuel
      → timeout ≤ fuel * interval
      → (r : Requested) × (request_username J H refresh_duration timeout fuel b ≡ some r)
  unfolding request_username
  request_username-ends timeout interval fuel b ticks room enough =
      ask_ends timeout interval ticks fuel 0 b room
        (subst (λ m. timeout ≤ m * interval) (omega arith) enough)

  -- If the first answers say that the button is not pressed, each with time left behind it, the
  -- next one has a user name and a client key, and the refresh with the new user name does not
  -- throw, then requestUsername gives the user name back, and the bridge has both.
  pub request_username-pressed :
      (timeout fuel last : ℕ) (b : Bridge) (username key : Bytes)
      → last < fuel
      → ((i : ℕ)
          → i < last
          → IsWaiting J (answer_to J H refresh_duration b i)
            × (ltb (H.clock (suc i) - H.clock 0) timeout ≡ true))
      → IsPressed J username key (answer_to J H refresh_duration b last)
      → set_http_handler J H refresh_duration (record b { username = username }) ≡ ok tt
      → request_username J H refresh_duration timeout fuel b
        ≡ some (record {
          result = ok username;
          bridge = record b { username = username; clientkey = key };
          attempts = suc last;
        })
  unfolding request_username
  request_username-pressed timeout fuel last b username key room waits pressed connects =
      ask_until timeout last fuel 0 last b (record b { username = username; clientkey = key })
        (ok tt) (omega arith) room
        (λ i below above. (waiting_again b _ (waits i above).0, (waits i above).1))
        (pressed_ended b _ username key pressed connects)

  -- If the first answers say that the button is not pressed, each with time left behind it, the
  -- next one has a user name and a client key, but the refresh with the new user name throws, then
  -- requestUsername throws that too, and the bridge has the user name, but not the client key of
  -- the answer.
  pub request_username-unconnected :
      (timeout fuel last : ℕ) (b : Bridge) (username key : Bytes) (e : Error)
      → last < fuel
      → ((i : ℕ)
          → i < last
          → IsWaiting J (answer_to J H refresh_duration b i)
            × (ltb (H.clock (suc i) - H.clock 0) timeout ≡ true))
      → IsPressed J username key (answer_to J H refresh_duration b last)
      → set_http_handler J H refresh_duration (record b { username = username }) ≡ err e
      → request_username J H refresh_duration timeout fuel b
        ≡ some (record {
          result = err e;
          bridge = record b { username = username };
          attempts = suc last;
        })
  unfolding request_username
  request_username-unconnected timeout fuel last b username key e room waits pressed fails =
      ask_until timeout last fuel 0 last b (record b { username = username }) (err e) (omega arith)
        room (λ i below above. (waiting_again b _ (waits i above).0, (waits i above).1))
        (unconnected_ended b _ username key e pressed fails)
