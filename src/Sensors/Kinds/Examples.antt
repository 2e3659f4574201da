-- ===== src/Sensors/Kinds/Examples.antt =====
-- The theorems on kinds of sensors at inputs.
use hueplusplus.Base.{◌+◌, [], ◌≡◌, true, none, some, codes}
use hueplusplus.Base.Int.{pos}
use hueplusplus.Json.Value.{Value, obj, field, stop, text, values_lib}
use hueplusplus.Json.Value.Laws.{values_laws, text_laws, scalar_laws}
use hueplusplus.Commands.{Line, response}
use hueplusplus.Lights.{Site}
use hueplusplus.Time.Timestamp.{TimeLibrary}
use hueplusplus.Sensors.{select}
use hueplusplus.Sensors.Kinds.{last_updated}
use hueplusplus.Sensors.Kinds.Updated.{reading, last_updated-reading}
use hueplusplus.Sensors.Kinds.Echo.{ClipEchoes, ZllEchoes, clip-Echoes, zll-Echoes}

abbrev site : Site values_lib
site = record {
  network = record { call = λ n t method uri body. (response (obj stop), t + 10); wake = λ t. t };
  username = codes "u";
  min_delay = 100;
  pre_alert_delay = 120;
  post_alert_delay = 1600;
}

abbrev line : Line
line = record { time = 1000; timeout = 0; calls = 0; starts = [] }

clip-Echoes_example :
    ClipEchoes values_lib site (codes "/sensors/2") true (pos 16) (codes "hall") line
clip-Echoes_example =
    clip-Echoes values_lib site (codes "/sensors/2") values_laws text_laws scalar_laws true (pos 16)
      (codes "hall") line

zll-Echoes_example : ZllEchoes values_lib site (codes "/sensors/2") true (pos 16) select line
zll-Echoes_example =
    zll-Echoes values_lib site (codes "/sensors/2") values_laws text_laws scalar_laws true (pos 16)
      select line

-- Where every time is the first second of 1970.
abbrev library : TimeLibrary
library = record { localtime = λ tz t. none; mktime = λ tz tm. pos 1 }

abbrev pressed : Value
pressed = obj (
    field (codes "state")
      (obj (field (codes "lastupdated") (text (codes "1970-01-01T00:00:01")) stop)) stop)

last_updated-reading_example :
    last_updated values_lib library (some (codes "CET")) pressed
    ≡ (reading values_lib library pressed, some (codes "CET"))
last_updated-reading_example = last_updated-reading values_lib library (some (codes "CET")) pressed
