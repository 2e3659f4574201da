-- ===== src/Sensors/Kinds.antt =====
-- What src/CLIPSensors.cpp and src/ZLLSensors.cpp share: entries of the state and the configuration of a sensor,
-- requests to change one of them, and the time of the last update, which src/Sensor.cpp has too.
pub mod Clip
pub mod Zgp
pub mod Switch
pub mod Presence
pub mod Temperature
pub mod LightLevel
pub mod Updated
pub mod Echo
mod Examples
use hueplusplus.Base.{
  ◌∷◌, ◌++◌, Bool, Bytes, codes, bytes_eq, if◌then◌else◌, Option, none, some, Result, ok, err,
  Error, ◌>>=◌,
}
use hueplusplus.Base.Int.{ℤ, pos}
use hueplusplus.Std.Number.{to_string}
use hueplusplus.Json.{JsonLib, at_key, or_throw, has}
use hueplusplus.Commands.{Line}
use hueplusplus.Lights.{Site}
use hueplusplus.Devices.{send_put_request}
use hueplusplus.Time.Timestamp.{Zone, TimeLibrary, parse_utc_timestamp}

-- `"/sensors/" + std::to_string(getId()) + "/state/" + key`
abbrev pub entry_address : ℤ → Bytes → Bytes
entry_address id key = codes "/sensors/" ++ (to_string id ++ (codes "/state/" ++ key))

module _ (J : JsonLib) where
  -- `at(entry).at(key).get<…>()`
  abbrev pub get_in {ℓ} : {A : Type ℓ} → Bytes → (J.Json → Option A) → Bytes → J.Json → Result A
  get_in entry to key state = at_key J state entry >>= λ e. at_key J e key >>= λ v. or_throw (to v)

  -- `at("config").count("battery") != 0`, and for `url`
  abbrev pub count_in_config : Bytes → J.Json → Result Bool
  count_in_config key state = at_key J state (codes "config") >>= λ c. ok (has J c key)

  abbrev parsed : TimeLibrary → Zone → Option Bytes → Result ℤ × Zone
  parsed C tz none = (err Error.json_exception, tz)
  parsed C tz (some s) =
      if bytes_eq s (codes "none") then (ok (pos 0), tz) else parse_utc_timestamp C tz s

  abbrev updated_in : TimeLibrary → Zone → Option J.Json → Result ℤ × Zone
  updated_in C tz none = (ok (pos 0), tz)
  updated_in C tz (some v) = if J.is_text v then parsed C tz (J.to_text v) else (ok (pos 0), tz)

  -- `getLastUpdated`, with TZ before and after it
  unfoldable pub last_updated : TimeLibrary → Zone → J.Json → Result ℤ × Zone
  last_updated C tz state = elim (at_key J state (codes "state")) [
    | err e ↦ (err e, tz)
    | ok s ↦ updated_in C tz (J.find s (codes "lastupdated"))
  ]

  -- The setters give no value.
  abbrev pub dropped : Result J.Json × Line → Result (Unit {0}) × Line
  dropped (reply, after) = (reply >>= λ _. ok tt, after)

module _ (J : JsonLib) (S : Site J) (path : Bytes) where
  -- `sendPutRequest("/" + entry, {{key, v}})`
  abbrev pub put_in : Bytes → Bytes → J.Json → Line → Result (Unit {0}) × Line
  put_in entry key v line =
      dropped J (send_put_request J S path (b'/' ∷ entry) (J.set J.object key v) line)
