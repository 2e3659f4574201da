-- ===== src/Sensors/Conditions.antt =====
-- The conditions that include/hueplusplus/Sensor.h and src/Sensor.cpp make of a sensor, of its id.
use hueplusplus.Base.{codes}
use hueplusplus.Base.Int.{ℤ}
use hueplusplus.Rules.Helper.{Helper, of_int, of_bool, of_time}
use hueplusplus.Sensors.Kinds.{entry_address}

-- `makeConditionLastUpdate`
abbrev pub last_update_condition : ℤ → Helper of_time
last_update_condition id = record { address = entry_address id (codes "lastupdated") }

-- `makeCondition` of a button, of presence, of a temperature and of daylight
abbrev pub button_condition : ℤ → Helper of_int
button_condition id = record { address = entry_address id (codes "buttonevent") }

abbrev pub presence_condition : ℤ → Helper of_bool
presence_condition id = record { address = entry_address id (codes "presence") }

abbrev pub temperature_condition : ℤ → Helper of_int
temperature_condition id = record { address = entry_address id (codes "temperature") }

abbrev pub daylight_condition : ℤ → Helper of_bool
daylight_condition id = record { address = entry_address id (codes "daylight") }
