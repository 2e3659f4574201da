-- ===== src/Groups/Examples.antt =====
-- The theorems on groups at inputs: a group is switched on, and renamed.
use hueplusplus.Base.{[], ◌∷◌, ◌<◌, ◌≡◌, refl, bytes_eq, true, false, codes, ok, ◌+◌, Result}
use hueplusplus.Base.Int.{pos}
use hueplusplus.Json.Value.{Value, obj, field, text, stop, values_lib}
use hueplusplus.Json.Value.Laws.{values_laws, entry_laws, scalar_laws}
use hueplusplus.Validation.Examples.{floats}
use hueplusplus.Cache.{Info, Surroundings, duration_max, own, cached}
use hueplusplus.Cache.Holder.{Holder}
use hueplusplus.Commands.{Line, response, request, run_with_timeout, handle_error, find_error}
use hueplusplus.Lights.{Site}
use hueplusplus.Groups.{switch, change_action}
use hueplusplus.Groups.Setters.{set_name, change}
use hueplusplus.Groups.Fresh.{change-fresh}
use hueplusplus.Groups.Sends.{commits, change_action-sends}

abbrev site : Site values_lib
site = record {
  network = record { call = λ n t method uri body. (response (obj stop), t + 10); wake = λ t. t };
  username = codes "u";
  min_delay = 1000;
  pre_alert_delay = 120;
  post_alert_delay = 1600;
}

abbrev line : Line
line = record { time = 1000; timeout = 0; calls = 0; starts = [] }

change_action-sends_example :
    (commits {J = values_lib} (switch true 4) ≡ true
      → line.calls < (change_action values_lib floats site (pos 1) (switch true 4) line).1.calls)
    × (commits {J = values_lib} (switch true 4) ≡ false
        → change_action values_lib floats site (pos 1) (switch true 4) line ≡ (ok tt, line))
change_action-sends_example =
    change_action-sends values_lib floats site (pos 1) values_laws entry_laws scalar_laws
      (switch true 4) line

abbrev named : Value
named = obj (field (codes "name") (text (codes "hall")) stop)

abbrev surroundings : Surroundings values_lib
surroundings = record { now = λ n. pos 1000; answer = λ n path. ok named }

abbrev cell : Info values_lib
cell = own values_lib (codes "/groups/1") duration_max (obj stop) (pos 950)

abbrev renamed : Result (Unit {0}) × Holder values_lib
renamed =
    change values_lib floats site surroundings (pos 1) (set_name (codes "hall"))
      (record { top = cell; bases = []; world = record { readings = 0; sent = [] }; line = line })

change-fresh_example :
    (renamed.0 ≡ ok tt)
    × (renamed.1.world.sent ≡ codes "/groups/1" ∷ [])
    × (cached values_lib renamed.1.top renamed.1.bases ≡ ok named)
unfolding request run_with_timeout handle_error find_error bytes_eq
change-fresh_example =
    change-fresh values_lib floats site surroundings (pos 1) (set_name (codes "hall")) cell
      (record { readings = 0; sent = [] }) line (obj stop) named refl refl refl
