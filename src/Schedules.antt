-- ===== src/Schedules.antt =====
-- `Schedule` and `CreateSchedule` of src/Schedule.cpp, with the time patterns of Time.
pub mod RoundTrip
mod Examples
use hueplusplus.Base.{
  Bool, List, [], ◌∷◌, ◌++◌, Bytes, codes, bytes_eq, Result, ok, err, ◌>>=◌, if◌then◌else◌,
}
use hueplusplus.Base.Action.{Action, lift, and_then}
use hueplusplus.Base.Int.{ℤ}
use hueplusplus.Std.Number.{to_string}
use hueplusplus.Json.{JsonLib, at_key, or_throw}
use hueplusplus.Cache.{Surroundings}
use hueplusplus.Cache.Holder.{Holder, on_line, refresh_held}
use hueplusplus.Commands.{request, put}
use hueplusplus.Lights.{Site}
use hueplusplus.Time.Timestamp.{Zone, TimeLibrary, parse_timestamp}
use hueplusplus.Time.Pattern.{TimePattern, to_text, parse}

-- The setters of `Schedule` and `CreateSchedule`. `recycle` is one of the latter only.
pub data Change (J : JsonLib) : Type 0 where
  name description : Bytes → Change J
  command : J.Json → Change J
  time : TimePattern → Change J
  enabled autodelete : Bool → Change J

module _ (J : JsonLib) where
  -- `at(key).get<…>()`
  abbrev text_in : J.Json → Bytes → Result Bytes
  text_in state key = at_key J state key >>= λ v. or_throw (J.to_text v)

  abbrev pub get_name : J.Json → Result Bytes
  get_name state = text_in state (codes "name")

  abbrev pub get_description : J.Json → Result Bytes
  get_description state = text_in state (codes "description")

  abbrev pub get_command : J.Json → Result J.Json
  get_command state = at_key J state (codes "command")

  abbrev pub is_enabled : J.Json → Result Bool
  is_enabled state = text_in state (codes "status") >>= λ s. ok (bytes_eq s (codes "enabled"))

  abbrev pub get_autodelete : J.Json → Result Bool
  get_autodelete state = at_key J state (codes "autodelete") >>= λ v. or_throw (J.to_bool v)

module _ (J : JsonLib) (C : TimeLibrary) (tz : Zone) where
  abbrev pub get_time : J.Json → Result TimePattern
  get_time state = text_in J state (codes "localtime") >>= parse C tz

  abbrev pub get_created : J.Json → Result ℤ
  get_created state = text_in J state (codes "created") >>= parse_timestamp C tz

  abbrev pub get_start_time : J.Json → Result ℤ
  get_start_time state = text_in J state (codes "starttime") >>= parse_timestamp C tz

  abbrev pub time_entry : Bytes → Bytes × J.Json
  time_entry s = (codes "localtime", J.of_text s)

  -- The entry that a setter writes. The text of a time pattern may throw.
  unfoldable pub entry : Change J → Result (Bytes × J.Json)
  entry (name s) = ok (codes "name", J.of_text s)
  entry (description s) = ok (codes "description", J.of_text s)
  entry (command action) = ok (codes "command", action)
  entry (time p) = to_text C tz p >>= λ s. ok (time_entry s)
  entry (enabled on) =
      ok (codes "status", J.of_text (if on then codes "enabled" else codes "disabled"))
  entry (autodelete on) = ok (codes "autodelete", J.of_bool on)

  -- A setter of `CreateSchedule`, and setters in their order
  abbrev pub write : J.Json → Change J → Result J.Json
  write json c = entry c >>= λ e. ok (J.set json e.0 e.1)

  unfoldable pub write_all : List (Change J) → J.Json → Result J.Json
  write_all [] json = ok json
  write_all (c ∷ cs) json = write json c >>= λ json'. write_all cs json'

  abbrev pub set_recycle : Bool → J.Json → J.Json
  set_recycle on json = J.set json (codes "recycle") (J.of_bool on)

module _ (J : JsonLib) (C : TimeLibrary) (tz : Zone) (S : Site J) (W : Surroundings J)
    (id : ℤ) where
  -- `sendPutRequest`
  abbrev send_put_request : J.Json → Action (Holder J) J.Json
  send_put_request body =
      on_line J
        (request J S.network put S.username (codes "/schedules/" ++ to_string id) body S.min_delay)

  -- The setters of `Schedule`
  unfoldable pub change : Change J → Action (Holder J) (Unit {0})
  change c s =
      and_then (λ body. λ s'. and_then (λ reply. refresh_held J W) (send_put_request body s'))
        (write J C tz J.object c, s)
