-- ===== src/Rules/Setters.antt =====
-- `Rule` of src/Rule.cpp: its setters, which refresh the cache of the rule, and its getters of single entries.
use hueplusplus.Base.{
  List, [], map, Bool, Bytes, codes, bytes_eq, ◌++◌, ◌||◌, ◌≡◌, length, ◌∷◌, ok, err, false, Result,
  if◌then◌else◌, ◌>>=◌,
}
use hueplusplus.Base.Action.{Action, and_then}
use hueplusplus.Base.Int.{ℤ, pos, eqb_ℤ}
use hueplusplus.Std.Number.{to_string}
use hueplusplus.Json.{JsonLib, at_key, or_throw, value_or}
use hueplusplus.Cache.{Info, World, Surroundings, cached}
use hueplusplus.Cache.Holder.{Holder, on_line, refresh_held, get_held}
use hueplusplus.Cache.Fresh.{refresh_held-fresh}
use hueplusplus.Commands.{Line, request, put}
use hueplusplus.Lights.{Site}
use hueplusplus.Time.Timestamp.{Zone, TimeLibrary, parse_utc_timestamp}
use hueplusplus.Rules.{Condition, to_json, pushed, text_at}

-- The setters of a rule. An action is its JSON value.
pub data Change (J : JsonLib) : Type 0 where
  set_name : Bytes → Change J
  set_enabled : Bool → Change J
  set_conditions : List Condition → Change J
  set_actions : List J.Json → Change J

module _ (J : JsonLib) where
  -- The body of the request.
  unfoldable pub body_of : Change J → J.Json
  body_of (set_name text) = J.set J.object (codes "name") (J.of_text text)
  body_of (set_enabled enabled) =
      J.set J.object (codes "status")
        (J.of_text (if enabled then codes "enabled" else codes "disabled"))
  body_of (set_conditions conditions) =
      J.set J.object (codes "conditions") (pushed J (map (to_json J) conditions))
  body_of (set_actions actions) = J.set J.object (codes "actions") (pushed J actions)

  abbrev pub get_name : J.Json → Result Bytes
  get_name state = text_at J state (codes "name")

  abbrev pub get_owner : J.Json → Result Bytes
  get_owner state = text_at J state (codes "owner")

  abbrev pub get_times_triggered : J.Json → Result ℤ
  get_times_triggered state = at_key J state (codes "timestriggered") >>= λ v. or_throw (J.to_int v)

  abbrev pub is_enabled : J.Json → Result Bool
  is_enabled state = text_at J state (codes "status") >>= λ s. ok (bytes_eq s (codes "enabled"))

  -- A time of the state, with TZ before and after it
  abbrev time_of : TimeLibrary → Zone → Result Bytes → Result ℤ × Zone
  time_of C tz (err e) = (err e, tz)
  time_of C tz (ok s) = parse_utc_timestamp C tz s

  abbrev pub get_created : TimeLibrary → Zone → J.Json → Result ℤ × Zone
  get_created C tz state = time_of C tz (text_at J state (codes "created"))

  abbrev time_or_epoch : TimeLibrary → Zone → Result Bytes → Result ℤ × Zone
  time_or_epoch C tz (err e) = (err e, tz)
  time_or_epoch C tz (ok s) =
      if bytes_eq s [] || bytes_eq s (codes "none")
      then (ok (pos 0), tz)
      else parse_utc_timestamp C tz s

  abbrev pub get_last_triggered : TimeLibrary → Zone → J.Json → Result ℤ × Zone
  get_last_triggered C tz state =
      time_or_epoch C tz (value_or J J.to_text state (codes "lasttriggered") (codes "none"))

module _ (J : JsonLib) (S : Site J) (W : Surroundings J) (id : ℤ) where
  abbrev pub send_put_request : J.Json → Line → Result J.Json × Line
  send_put_request body line =
      request J S.network put S.username (codes "/rules/" ++ to_string id) body S.min_delay line

  -- `refresh`
  abbrev pub refresh : Bool → Action (Holder J) (Unit {0})
  refresh is_forced =
      if is_forced
      then refresh_held J W
      else (λ s. and_then (λ v. λ after. (ok tt, after)) (get_held J W s))

  -- The setters
  unfoldable pub change : Change J → Action (Holder J) (Unit {0})
  change c s = and_then (λ reply. refresh Bool.true) (on_line J (send_put_request (body_of J c)) s)

  -- A setter of a rule with a cache of its own, whose request is answered, asks the bridge once for the
  -- state of the rule; if that is answered and the clock is not at its epoch, the setter returns, and the
  -- constant getters read the answer.
  pub change-fresh :
      (c : Change J) (i : Info J) (w : World) (line : Line) (reply v : J.Json)
      → (send_put_request (body_of J c) line).0 ≡ ok reply
      → W.answer (length w.sent) i.path ≡ ok v
      → eqb_ℤ (W.now w.readings) (pos 0) ≡ false
      → let after = change c (record { top = i; bases = []; world = w; line = line }) in
        (after.0 ≡ ok tt)
        × (after.1.world.sent ≡ i.path ∷ w.sent)
        × (cached J after.1.top after.1.bases ≡ ok v)
  unfolding change
  change-fresh c i w line reply v replied answer clock =
      refresh_held-fresh J W (send_put_request (body_of J c)) i w line reply v replied answer clock
