-- ===== src/Sensors/Kinds/Zgp.antt =====
-- `ZGPSwitch` of src/ZLLSensors.cpp.
use hueplusplus.Base.{Bool, Bytes, codes, Result}
use hueplusplus.Base.Int.{ℤ}
use hueplusplus.Json.{JsonLib}
use hueplusplus.Commands.{Line}
use hueplusplus.Lights.{Site}
use hueplusplus.Sensors.Kinds.{get_in, put_in}

module _ (J : JsonLib) where
  abbrev pub is_on : J.Json → Result Bool
  is_on = get_in J (codes "config") J.to_bool (codes "on")

  abbrev pub get_button_event : J.Json → Result ℤ
  get_button_event = get_in J (codes "state") J.to_int (codes "buttonevent")

module _ (J : JsonLib) (S : Site J) (path : Bytes) where
  abbrev pub set_on : Bool → Line → Result (Unit {0}) × Line
  set_on on = put_in J S path (codes "config") (codes "on") (J.of_bool on)
