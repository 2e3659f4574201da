-- ===== src/Sensors/Kinds/Clip.antt =====
-- `BaseCLIP` and its subclasses in src/CLIPSensors.cpp.
use hueplusplus.Base.{Bool, Bytes, codes, Result}
use hueplusplus.Base.Int.{ℤ}
use hueplusplus.Json.{JsonLib}
use hueplusplus.Commands.{Line}
use hueplusplus.Lights.{Site}
use hueplusplus.Time.Timestamp.{Zone, TimeLibrary}
use hueplusplus.Sensors.Kinds.{get_in, count_in_config, last_updated, put_in, entry_address}
use hueplusplus.Rules.Helper.{Helper, of_int, of_bool}

-- `makeCondition` of the four kinds that have it, of the id of the sensor.
abbrev pub open_condition : ℤ → Helper of_bool
open_condition id = record { address = entry_address id (codes "open") }

abbrev pub humidity_condition : ℤ → Helper of_int
humidity_condition id = record { address = entry_address id (codes "humidity") }

abbrev pub flag_condition : ℤ → Helper of_bool
flag_condition id = record { address = entry_address id (codes "flag") }

abbrev pub status_condition : ℤ → Helper of_int
status_condition id = record { address = entry_address id (codes "status") }

module _ (J : JsonLib) where
  abbrev pub is_on : J.Json → Result Bool
  is_on = get_in J (codes "config") J.to_bool (codes "on")

  abbrev pub has_battery_state : J.Json → Result Bool
  has_battery_state = count_in_config J (codes "battery")

  abbrev pub get_battery_state : J.Json → Result ℤ
  get_battery_state = get_in J (codes "config") J.to_int (codes "battery")

  abbrev pub is_reachable : J.Json → Result Bool
  is_reachable = get_in J (codes "config") J.to_bool (codes "reachable")

  abbrev pub has_url : J.Json → Result Bool
  has_url = count_in_config J (codes "url")

  abbrev pub get_url : J.Json → Result Bytes
  get_url = get_in J (codes "config") J.to_text (codes "url")

  abbrev pub get_last_updated : TimeLibrary → Zone → J.Json → Result ℤ × Zone
  get_last_updated = last_updated J

  abbrev pub get_button_event : J.Json → Result ℤ
  get_button_event = get_in J (codes "state") J.to_int (codes "buttonevent")

  abbrev pub is_open : J.Json → Result Bool
  is_open = get_in J (codes "state") J.to_bool (codes "open")

  abbrev pub get_presence : J.Json → Result Bool
  get_presence = get_in J (codes "state") J.to_bool (codes "presence")

  abbrev pub get_temperature : J.Json → Result ℤ
  get_temperature = get_in J (codes "state") J.to_int (codes "temperature")

  abbrev pub get_humidity : J.Json → Result ℤ
  get_humidity = get_in J (codes "state") J.to_int (codes "humidity")

  abbrev pub get_dark_threshold : J.Json → Result ℤ
  get_dark_threshold = get_in J (codes "config") J.to_int (codes "tholddark")

  abbrev pub get_threshold_offset : J.Json → Result ℤ
  get_threshold_offset = get_in J (codes "config") J.to_int (codes "tholdoffset")

  abbrev pub get_light_level : J.Json → Result ℤ
  get_light_level = get_in J (codes "state") J.to_int (codes "lightlevel")

  abbrev pub is_dark : J.Json → Result Bool
  is_dark = get_in J (codes "state") J.to_bool (codes "dark")

  abbrev pub is_daylight : J.Json → Result Bool
  is_daylight = get_in J (codes "state") J.to_bool (codes "daylight")

  abbrev pub get_flag : J.Json → Result Bool
  get_flag = get_in J (codes "state") J.to_bool (codes "flag")

  abbrev pub get_status : J.Json → Result ℤ
  get_status = get_in J (codes "state") J.to_int (codes "status")

module _ (J : JsonLib) (S : Site J) (path : Bytes) where
  abbrev pub set_on : Bool → Line → Result (Unit {0}) × Line
  set_on on = put_in J S path (codes "config") (codes "on") (J.of_bool on)

  abbrev pub set_battery_state : ℤ → Line → Result (Unit {0}) × Line
  set_battery_state percent = put_in J S path (codes "config") (codes "battery") (J.of_int percent)

  abbrev pub set_url : Bytes → Line → Result (Unit {0}) × Line
  set_url url = put_in J S path (codes "config") (codes "url") (J.of_text url)

  abbrev pub set_button_event : ℤ → Line → Result (Unit {0}) × Line
  set_button_event code = put_in J S path (codes "state") (codes "buttonevent") (J.of_int code)

  abbrev pub set_open : Bool → Line → Result (Unit {0}) × Line
  set_open opened = put_in J S path (codes "state") (codes "open") (J.of_bool opened)

  abbrev pub set_presence : Bool → Line → Result (Unit {0}) × Line
  set_presence presence = put_in J S path (codes "state") (codes "presence") (J.of_bool presence)

  abbrev pub set_temperature : ℤ → Line → Result (Unit {0}) × Line
  set_temperature temperature =
      put_in J S path (codes "state") (codes "temperature") (J.of_int temperature)

  abbrev pub set_humidity : ℤ → Line → Result (Unit {0}) × Line
  set_humidity humidity = put_in J S path (codes "state") (codes "humidity") (J.of_int humidity)

  abbrev pub set_dark_threshold : ℤ → Line → Result (Unit {0}) × Line
  set_dark_threshold threshold =
      put_in J S path (codes "config") (codes "tholddark") (J.of_int threshold)

  abbrev pub set_threshold_offset : ℤ → Line → Result (Unit {0}) × Line
  set_threshold_offset offset =
      put_in J S path (codes "config") (codes "tholdoffset") (J.of_int offset)

  abbrev pub set_light_level : ℤ → Line → Result (Unit {0}) × Line
  set_light_level level = put_in J S path (codes "state") (codes "lightlevel") (J.of_int level)

  abbrev pub set_flag : Bool → Line → Result (Unit {0}) × Line
  set_flag flag = put_in J S path (codes "state") (codes "flag") (J.of_bool flag)

  abbrev pub set_status : ℤ → Line → Result (Unit {0}) × Line
  set_status status = put_in J S path (codes "state") (codes "status") (J.of_int status)
