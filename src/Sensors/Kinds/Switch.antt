-- ===== src/Sensors/Kinds/Switch.antt =====
-- `ZLLSwitch` of src/ZLLSensors.cpp.
use hueplusplus.Base.{Bool, Bytes, codes, Result, ok, ◌>>=◌}
use hueplusplus.Base.Int.{ℤ}
use hueplusplus.Json.{JsonLib}
use hueplusplus.Commands.{Line}
use hueplusplus.Lights.{Site}
use hueplusplus.Sensors.{Alert, alert_to_string, alert_from_string}
use hueplusplus.Time.Timestamp.{Zone, TimeLibrary}
use hueplusplus.Sensors.Kinds.{get_in, count_in_config, last_updated, put_in}

module _ (J : JsonLib) where
  abbrev pub is_on : J.Json → Result Bool
  is_on = get_in J (codes "config") J.to_bool (codes "on")

  abbrev pub has_battery_state : J.Json → Result Bool
  has_battery_state = count_in_config J (codes "battery")

  abbrev pub get_battery_state : J.Json → Result ℤ
  get_battery_state = get_in J (codes "config") J.to_int (codes "battery")

  abbrev pub get_last_alert : J.Json → Result Alert
  get_last_alert state =
      get_in J (codes "config") J.to_text (codes "alert") state >>= λ s. ok (alert_from_string s)

  abbrev pub is_reachable : J.Json → Result Bool
  is_reachable = get_in J (codes "config") J.to_bool (codes "reachable")

  abbrev pub get_button_event : J.Json → Result ℤ
  get_button_event = get_in J (codes "state") J.to_int (codes "buttonevent")

  abbrev pub get_last_updated : TimeLibrary → Zone → J.Json → Result ℤ × Zone
  get_last_updated = last_updated J

module _ (J : JsonLib) (S : Site J) (path : Bytes) where
  abbrev pub set_on : Bool → Line → Result (Unit {0}) × Line
  set_on on = put_in J S path (codes "config") (codes "on") (J.of_bool on)

  abbrev pub send_alert : Alert → Line → Result (Unit {0}) × Line
  send_alert type =
      put_in J S path (codes "config") (codes "alert") (J.of_text (alert_to_string type))
