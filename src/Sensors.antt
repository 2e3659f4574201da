-- ===== src/Sensors.antt =====
-- `Sensor`, `CreateSensor` and `DaylightSensor` of src/Sensor.cpp. What `BaseDevice` reads is in Devices.
pub mod Settings
pub mod Conditions
pub mod Kinds
use hueplusplus.Base.{
  Bool, true, false, List, [], ◌∷◌, ◌++◌, Bytes, codes, bytes_eq, length, ◌==◌, Option, none, some,
  or_default, Result, ok, err, ◌>>=◌, if◌then◌else◌,
}
use hueplusplus.Base.Int.{ℤ, pos}
use hueplusplus.Json.{JsonLib, has, value_or, at_key, or_throw}
use hueplusplus.Bridge.{Key, name, safe_get_member}
use hueplusplus.Commands.{Line}
use hueplusplus.Lights.{Site}
use hueplusplus.Devices.{send_put_request}
use hueplusplus.Time.Timestamp.{Zone, TimeLibrary, parse_utc_timestamp}

-- `Alert`
pub data Alert : Type 0 where
  no_alert select lselect : Alert

unfoldable pub alert_to_string : Alert → Bytes
alert_to_string lselect = codes "lselect"
alert_to_string select = codes "select"
alert_to_string no_alert = codes "none"

unfoldable pub alert_from_string : Bytes → Alert
alert_from_string s =
    if bytes_eq s (codes "select")
    then select
    else if bytes_eq s (codes "lselect")
    then lselect
    else no_alert

-- The setters of the configuration, those of `DaylightSensor` among them.
pub data Change (J : JsonLib) : Type 0 where
  set_on : Bool → Change J
  set_battery_state : ℤ → Change J
  send_alert : Alert → Change J
  set_user_test : Bool → Change J
  set_url : Bytes → Change J
  set_led_indication : Bool → Change J
  set_sunrise_offset set_sunset_offset : ℤ → Change J
  set_coordinates : Bytes → Bytes → Change J
  set_config_attribute : Bytes → J.Json → Change J

module _ (J : JsonLib) where
  abbrev config : J.Json → Result J.Json
  config state = at_key J state (codes "config")

  abbrev has_in_config : Bytes → J.Json → Result Bool
  has_in_config key state = config state >>= λ c. ok (has J c key)

  -- `at(key).get<…>()` of the configuration
  abbrev pub in_config {ℓ} : {A : Type ℓ} → (J.Json → Option A) → Bytes → J.Json → Result A
  in_config to key state = config state >>= λ c. at_key J c key >>= λ v. or_throw (to v)

  abbrev pub has_on : J.Json → Result Bool
  has_on = has_in_config (codes "on")

  abbrev pub is_on : J.Json → Result Bool
  is_on = in_config J.to_bool (codes "on")

  abbrev pub has_battery_state : J.Json → Result Bool
  has_battery_state = has_in_config (codes "battery")

  abbrev pub get_battery_state : J.Json → Result ℤ
  get_battery_state = in_config J.to_int (codes "battery")

  abbrev pub has_alert : J.Json → Result Bool
  has_alert = has_in_config (codes "alert")

  abbrev pub get_last_alert : J.Json → Result Alert
  get_last_alert state = in_config J.to_text (codes "alert") state >>= λ s. ok (alert_from_string s)

  abbrev pub has_reachable : J.Json → Result Bool
  has_reachable = has_in_config (codes "reachable")

  abbrev pub is_reachable : J.Json → Result Bool
  is_reachable state = config state >>= λ c. value_or J J.to_bool c (codes "reachable") true

  abbrev pub has_user_test : J.Json → Result Bool
  has_user_test = has_in_config (codes "usertest")

  abbrev pub has_url : J.Json → Result Bool
  has_url = has_in_config (codes "url")

  abbrev pub get_url : J.Json → Result Bytes
  get_url = in_config J.to_text (codes "url")

  abbrev pub has_led_indication : J.Json → Result Bool
  has_led_indication = has_in_config (codes "ledindication")

  abbrev pub get_led_indication : J.Json → Result Bool
  get_led_indication = in_config J.to_bool (codes "ledindication")

  -- The loop of `getPendingConfig`
  unfoldable pub pending_texts : List J.Json → Result (List Bytes)
  pending_texts [] = ok []
  pending_texts (v ∷ vs) = do s ← or_throw (J.to_text v); ss ← pending_texts vs; ok (s ∷ ss)

  abbrev pending_in : Option J.Json → Result (List Bytes)
  pending_in none = ok []
  pending_in (some v) = if J.is_array v then pending_texts (J.elements v) else ok []

  abbrev pub get_pending_config : J.Json → Result (List Bytes)
  get_pending_config state = config state >>= λ c. pending_in (J.find c (codes "pending"))

  abbrev pub get_state : J.Json → Result J.Json
  get_state state = at_key J state (codes "state")

  -- `is_boolean() && get<bool>()` of an entry of the capabilities
  abbrev capability : Bytes → J.Json → Bool
  capability key state =
      or_default (J.to_bool (safe_get_member J state (name (codes "capabilities") ∷ name key ∷ [])))
        false

  abbrev pub is_certified : J.Json → Bool
  is_certified = capability (codes "certified")

  abbrev pub is_primary : J.Json → Bool
  is_primary = capability (codes "primary")

  -- Of `DaylightSensor`
  abbrev pub is_configured : J.Json → Result Bool
  is_configured = in_config J.to_bool (codes "configured")

  abbrev pub get_sunrise_offset : J.Json → Result ℤ
  get_sunrise_offset = in_config J.to_int (codes "sunriseoffset")

  abbrev pub get_sunset_offset : J.Json → Result ℤ
  get_sunset_offset = in_config J.to_int (codes "sunsetoffset")

  abbrev pub is_daylight : J.Json → Result Bool
  is_daylight state =
      get_state state >>= λ s. at_key J s (codes "daylight") >>= λ v. or_throw (J.to_bool v)

  abbrev single : Bytes → J.Json → J.Json
  single key v = J.set J.object key v

  abbrev coordinate : Bytes → J.Json
  coordinate s = if length s == 0 then J.null else J.of_text s

  -- The body of a setter.
  unfoldable pub body_of : Change J → J.Json
  body_of (set_on on) = single (codes "on") (J.of_bool on)
  body_of (set_battery_state percent) = single (codes "battery") (J.of_int percent)
  body_of (send_alert type) = single (codes "alert") (J.of_text (alert_to_string type))
  body_of (set_user_test enabled) = single (codes "usertest") (J.of_bool enabled)
  body_of (set_url url) = single (codes "url") (J.of_text url)
  body_of (set_led_indication on) = single (codes "ledindication") (J.of_bool on)
  body_of (set_sunrise_offset minutes) = single (codes "sunriseoffset") (J.of_int minutes)
  body_of (set_sunset_offset minutes) = single (codes "sunsetoffset") (J.of_int minutes)
  body_of (set_coordinates latitude longitude) =
      J.set (single (codes "lat") (coordinate latitude)) (codes "long") (coordinate longitude)
  body_of (set_config_attribute key v) = single key v

  -- `CreateSensor`
  unfoldable pub create_sensor : Bytes → Bytes → Bytes → Bytes → Bytes → Bytes → J.Json
  create_sensor text modelid swversion type uniqueid manufacturername =
      let named =
        J.set (single (codes "name") (J.of_text text)) (codes "modelid") (J.of_text modelid) in
      let typed =
        J.set (J.set named (codes "swversion") (J.of_text swversion)) (codes "type")
          (J.of_text type) in
      J.set (J.set typed (codes "uniqueid") (J.of_text uniqueid)) (codes "manufacturername")
        (J.of_text manufacturername)

  abbrev pub set_state : J.Json → J.Json → J.Json
  set_state state json = J.set json (codes "state") state

  abbrev pub set_config : J.Json → J.Json → J.Json
  set_config c json = J.set json (codes "config") c

module _ (J : JsonLib) (S : Site J) (path : Bytes) where
  -- The setters of the configuration, and `setStateAttribute`
  abbrev pub change : Change J → Line → Result J.Json × Line
  change c = send_put_request J S path (codes "/config") (body_of J c)

  abbrev pub set_state_attribute : Bytes → J.Json → Line → Result J.Json × Line
  set_state_attribute key v = send_put_request J S path (codes "/state") (single J key v)

  abbrev pub get_state_address : Bytes → Bytes
  get_state_address key = path ++ (codes "/state/" ++ key)
