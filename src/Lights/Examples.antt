-- ===== src/Lights/Examples.antt =====
-- The theorems on lights at inputs: a light that shows an xy colour, with an own cache that is never
-- refreshed, and a bridge that confirms the hue and saturation 0 and the alert.
use hueplusplus.Base.{
  [], ◌+◌, ◌≡◌, refl, true, codes, ok, bytes_eq, arith, Bytes, ltb, if◌then◌else◌,
}
use hueplusplus.Base.Int.{pos, pos_part, ◌-ℤ◌}
use hueplusplus.Json.Value.{
  Value, obj, arr, field, stop, cons, nil, flag, int, text, float, values_lib, equal,
}
use hueplusplus.Json.Value.Laws.{values_laws, entry_laws, key_laws, text_laws, scalar_laws}
use hueplusplus.Validation.{
  with_slash, confirms, last_confirms, succeeds, all_succeed, validate_put_reply,
}
use hueplusplus.Validation.Examples.{floats}
use hueplusplus.Std.Text.{begins_with}
use hueplusplus.Std.Number.{decimal, emit, to_string}
use hueplusplus.Settings.{apply}
use hueplusplus.Cache.{Info, World, Surroundings, duration_max, own, is_due, get_value, cached}
use hueplusplus.Commands.{
  Line, response, request, run_with_timeout, handle_error, find_error, combined_path,
}
use hueplusplus.Transaction.{
  with_on, is_redundant, trim_entries, trim_request, change_state, send, commit,
}
use hueplusplus.Lights.{state_entry, Site, CacheOf, simple, transact}
use hueplusplus.Lights.Color.{HueSaturation, set_hue_saturation, set_xy}
use hueplusplus.Lights.Gamut.{shown_as, set_color_rgb}
use hueplusplus.Lights.Gamut.Corrected.{IsGamutOf, set_color_rgb-Corrects}
use hueplusplus.Devices.{gamut_b_temperature}
use hueplusplus.Colors.{Rgb, Shade, gamut_b, to_xy}
use hueplusplus.Colors.Gamut.{Corrects}
use hueplusplus.Colors.Examples.{rounded}
use hueplusplus.Lights.Alerts.{flash, simple_alert_hue_saturation}
use hueplusplus.Lights.Steps.{color_light, flashed_end}
use hueplusplus.Lights.Restoring.{back}
use hueplusplus.Lights.Unrestored.{alert_hue_saturation-unrestored}
use hueplusplus.Lights.Cached.{cached_light}

methods : Unit {0}
unfolding with_slash begins_with confirms last_confirms succeeds all_succeed validate_put_reply
    equal bytes_eq with_on is_redundant trim_entries trim_request change_state send commit request
    run_with_timeout handle_error find_error combined_path is_due get_value cached ◌-ℤ◌ transact
    flash simple_alert_hue_saturation apply decimal emit to_string
methods = tt

abbrev state : Value
state = obj (
    field (codes "on") (flag true) (
      field (codes "bri") (int (pos 100)) (
        field (codes "colormode") (text (codes "xy"))
          (field (codes "xy") (arr (cons (float 3000) (cons (float 4000) nil))) stop))))

abbrev value : Value
value = obj (field (codes "state") state stop)

-- A success object for each value.
abbrev success : Bytes → Value → Value
success path v = obj (field (codes "success") (obj (field path v stop)) stop)

abbrev color_reply : Value
color_reply = arr (
    cons (success (codes "/lights/1/state/hue") (int (pos 0))) (
      cons (success (codes "/lights/1/state/sat") (int (pos 0)))
        (cons (success (codes "/lights/1/state/transitiontime") (int (pos 1))) nil)))

abbrev alert_reply : Value
alert_reply = arr (cons (success (codes "/lights/1/state/alert") (text (codes "select"))) nil)

-- The first request is confirmed as one for a colour, each later one as an alert.
abbrev site : Site values_lib
site = record {
  network = record {
    call = λ n t method uri body. (response (if ltb 0 n then alert_reply else color_reply), t + 10);
    wake = λ t. t;
  };
  username = codes "u";
  min_delay = 100;
  pre_alert_delay = 120;
  post_alert_delay = 1600;
}

abbrev line : Line
line = record { time = 1000; timeout = 0; calls = 0; starts = [] }

abbrev surroundings : Surroundings values_lib
surroundings = record { now = λ n. pos 1000; answer = λ n path. ok value }

abbrev cell : Info values_lib × World
cell = (
  own values_lib (codes "/lights/1") duration_max value (pos 950),
  record { readings = 0; sent = [] },
)

abbrev grey : HueSaturation
grey = record { hue = pos 0; saturation = pos 0 }

abbrev C : CacheOf values_lib
C = cached_light values_lib surroundings

-- Two requests are sent, and none for the old colour.
two_requests :
    (simple_alert_hue_saturation values_lib floats site C grey
      (color_light (pos 1) true true simple)
      (cell, line)).1.1.calls
    ≡ 2
unfolding methods
two_requests = refl

alert_hue_saturation-unrestored_example :
    ((simple_alert_hue_saturation values_lib floats site C grey
        (color_light (pos 1) true true simple)
        (cell, line)).0
      ≡ ok true)
    × ((simple_alert_hue_saturation values_lib floats site C grey
          (color_light (pos 1) true true simple)
          (cell, line)).1.1
        ≡ (flashed_end values_lib floats site C
            (color_light (pos 1) true true simple)
            (set_hue_saturation values_lib floats site C
              (color_light (pos 1) true true simple)
              grey
              1)
            (back values_lib floats 3000 4000 100)
            (state_entry values_lib C (cell, line)).1).1)
unfolding methods
alert_hue_saturation-unrestored_example =
    alert_hue_saturation-unrestored values_lib floats site C values_laws entry_laws key_laws
      text_laws scalar_laws 3000 4000 100 (pos 1) true true simple grey state cell line
      (refl, refl, refl) (refl, refl, refl) refl (omega arith) (refl, refl, refl, refl, refl)
      (value, (refl, refl, omega arith), refl, refl) refl refl

abbrev rgb : Rgb
rgb = record { red = 255; green = 128; blue = 3 }

set_color_rgb-Corrects_example :
    (shade : Shade rounded) × (set_color_rgb values_lib rounded pos pos_part floats site C
        (color_light (pos 1) true true simple)
        gamut_b_temperature
        rgb
        4
        (cell, line)
      ≡ set_xy values_lib floats site C
          (color_light (pos 1) true true simple)
          (shown_as values_lib rounded pos pos_part shade)
          4
          (cell, line))
    × (shade.brightness ≡ (to_xy rounded rgb).brightness)
    × Corrects rounded (gamut_b rounded) (to_xy rounded rgb).xy shade.xy
unfolding IsGamutOf
set_color_rgb-Corrects_example =
    set_color_rgb-Corrects values_lib rounded pos pos_part floats site C
      (color_light (pos 1) true true simple) gamut_b_temperature simple rgb 4 cell line
      (gamut_b rounded) refl refl
