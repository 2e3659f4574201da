-- ===== src/Sensors/Kinds/LightLevel.antt =====
-- `ZLLLightLevel` of src/ZLLSensors.cpp.
use hueplusplus.Base.{Bool, Bytes, codes, Result}
use hueplusplus.Base.Int.{ℤ}
use hueplusplus.Json.{JsonLib}
use hueplusplus.Commands.{Line}
use hueplusplus.Lights.{Site}
use hueplusplus.Time.Timestamp.{Zone, TimeLibrary}
use hueplusplus.Sensors.Kinds.{get_in, count_in_config, last_updated, put_in, entry_address}
use hueplusplus.Rules.Helper.{Helper, of_int, of_bool}

-- The conditions of a sensor, of its id.
abbrev pub make_condition_dark : ℤ → Helper of_bool
make_condition_dark id = record { address = entry_address id (codes "dark") }

abbrev pub make_condition_daylight : ℤ → Helper of_bool
make_condition_daylight id = record { address = entry_address id (codes "daylight") }

abbrev pub make_condition_light_level : ℤ → Helper of_int
make_condition_light_level id = record { address = entry_address id (codes "lightlevel") }

module _ (J : JsonLib) where
  abbrev pub is_on : J.Json → Result Bool
  is_on = get_in J (codes "config") J.to_bool (codes "on")

  abbrev pub has_battery_state : J.Json → Result Bool
  has_battery_state = count_in_config J (codes "battery")

  abbrev pub get_battery_state : J.Json → Result ℤ
  get_battery_state = get_in J (codes "config") J.to_int (codes "battery")

  abbrev pub is_reachable : J.Json → Result Bool
  is_reachable = get_in J (codes "config") J.to_bool (codes "reachable")

  abbrev pub get_dark_threshold : J.Json → Result ℤ
  get_dark_threshold = get_in J (codes "config") J.to_int (codes "tholddark")

  abbrev pub get_threshold_offset : J.Json → Result ℤ
  get_threshold_offset = get_in J (codes "config") J.to_int (codes "tholdoffset")

  abbrev pub get_light_level : J.Json → Result ℤ
  get_light_level = get_in J (codes "state") J.to_int (codes "lightlevel")

  abbrev pub is_dark : J.Json → Result Bool
  is_dark = get_in J (codes "state") J.to_bool (codes "dark")

  abbrev pub is_daylight : J.Json → Result Bool
  is_daylight = get_in J (codes "state") J.to_bool (codes "daylight")

  abbrev pub get_last_updated : TimeLibrary → Zone → J.Json → Result ℤ × Zone
  get_last_updated = last_updated J

module _ (J : JsonLib) (S : Site J) (path : Bytes) where
  abbrev pub set_on : Bool → Line → Result (Unit {0}) × Line
  set_on on = put_in J S path (codes "config") (codes "on") (J.of_bool on)

  abbrev pub set_dark_threshold : ℤ → Line → Result (Unit {0}) × Line
  set_dark_threshold threshold =
      put_in J S path (codes "config") (codes "tholddark") (J.of_int threshold)

  abbrev pub set_threshold_offset : ℤ → Line → Result (Unit {0}) × Line
  set_threshold_offset offset =
      put_in J S path (codes "config") (codes "tholdoffset") (J.of_int offset)
