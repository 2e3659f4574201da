-- ===== src/Lights/Steps.antt =====
-- The steps of an alert, and the reading of a colour, of a light whose cache shows its state.
use hueplusplus.Base.{
  ℕ, List, ◌++◌, ◌≡◌, refl, ◌∙◌, Bool, true, false, codes, bytes_eq, some, Result, ok, err,
}
use hueplusplus.Base.Int.{ℤ, pos}
use hueplusplus.Base.Action.{and_then}
use hueplusplus.Json.{JsonLib, TextLaws, ScalarLaws}
use hueplusplus.Validation.{Floats}
use hueplusplus.Settings.{Setting}
use hueplusplus.Commands.{Line}
use hueplusplus.Lights.{
  CacheOf, Site, Light, HueStrategy, Act, state_entry, transact, alert_light, pause,
}
use hueplusplus.Lights.Color.{HueSaturation, XyBrightness, set_hue_saturation, peek_xy}
use hueplusplus.Lights.Alerts.{
  flash, change_back, alert_and_back, simple_alert_hue_saturation, xy_again, on_again,
}
use hueplusplus.Lights.Shown.{Shows, const_state-Shows}

module _ (J : JsonLib) where
  -- The state of a light that is on and shows an xy colour.
  abbrev pub ShowsXy : J.Float → J.Float → ℕ → J.Json → Type 0
  ShowsXy x y b state =
      (J.is_object state ≡ true)
      × (J.find state (codes "colormode") ≡ some (J.of_text (codes "xy")))
      × (J.find state (codes "xy") ≡ some (J.of_floats x y))
      × (J.find state (codes "bri") ≡ some (J.of_int (pos b)))
      × (J.find state (codes "on") ≡ some (J.of_bool true))

-- A light with a strategy for its hue.
abbrev pub color_light : ℤ → Bool → Bool → HueStrategy → Light
color_light id brightness temperature strategy = record {
  id = id;
  has_brightness_control = brightness;
  has_temperature_control = temperature;
  hue_strategy = some strategy;
}

module _ (J : JsonLib) (F : Floats J) (S : Site J) (C : CacheOf J) where
  module _ (light : Light) (change : Act J C Bool) (old : List (Setting J))
      (at : C.Cell × Line) where
    -- The alert behind the change and the first pause, and the time after the second.
    abbrev pub flashed : Result Bool × (C.Cell × Line)
    flashed = alert_light J F S C light (pause J C S.network S.pre_alert_delay (change at).1).1

    abbrev pub flashed_end : C.Cell × Line
    flashed_end = (pause J C S.network S.post_alert_delay flashed.1).1

    by_change :
        (r : Result Bool × (C.Cell × Line))
        → r.0 ≡ ok true
        → and_then (alert_and_back J F S C light old) r
          ≡ and_then
              (change_back J F S C light old)
              (alert_light J F S C light (pause J C S.network S.pre_alert_delay r.1).1)
    by_change (ok true, at) done = refl
    by_change (ok false, at) done = cc
    by_change (err e, at) done = cc

    by_alert :
        (r : Result Bool × (C.Cell × Line))
        → r.0 ≡ ok true
        → and_then (change_back J F S C light old) r
          ≡ transact J F S C light old (pause J C S.network S.post_alert_delay r.1).1
    by_alert (ok true, at) done = refl
    by_alert (ok false, at) done = cc
    by_alert (err e, at) done = cc

    -- Where the change and the alert give true back, the alert ends with the last transaction.
    pub flash-last :
        (change at).0 ≡ ok true
        → flashed.0 ≡ ok true
        → flash J F S C light change old at ≡ transact J F S C light old flashed_end
    unfolding flash
    flash-last changed alerted = by_change (change at) changed ∙ by_alert flashed alerted

  module _ (texts : TextLaws J) (scalars : ScalarLaws J) (x y : J.Float) (b : ℕ) (state : J.Json)
      (shows : ShowsXy J x y b state) (id : ℤ) (brightness temperature : Bool)
      (strategy : HueStrategy) where
    abbrev shown_xy : XyBrightness J
    shown_xy = record { x = x; y = y; brightness = F.over_254 (pos b) }

    peek_xy-Shows :
        (cell : C.Cell) (line : Line)
        → Shows J C state cell
        → peek_xy J F S C (color_light id brightness temperature strategy) (cell, line)
          ≡ (ok shown_xy, (cell, line))
    peek_xy-Shows cell line held = rw (
      const_state-Shows J C state cell line held,
      shows.0,
      shows.2,
      scalars.floats_are_array x y,
      scalars.floats_length x y,
      scalars.first-of_floats x y,
      scalars.second-of_floats x y,
      shows.3,
      scalars.to_int-of_int (pos b),
    )

    pub alert-flash :
        (c : HueSaturation) (cell after : C.Cell) (line : Line)
        → state_entry J C (cell, line) ≡ (ok state, (after, line))
        → Shows J C state after
        → simple_alert_hue_saturation J F S C c
            (color_light id brightness temperature strategy)
            (cell, line)
          ≡ flash J F S C
              (color_light id brightness temperature strategy)
              (set_hue_saturation J F S C (color_light id brightness temperature strategy) c 1)
              (xy_again J F S C shown_xy ++ on_again J F S C true)
              (after, line)
    unfolding simple_alert_hue_saturation bytes_eq
    alert-flash c cell after line read held = rw (
      read,
      shows.0,
      shows.1,
      texts.to_text-of_text (codes "xy"),
      shows.4,
      scalars.to_bool-of_bool true,
      peek_xy-Shows after line held,
    )
