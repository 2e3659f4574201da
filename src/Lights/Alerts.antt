-- ===== src/Lights/Alerts.antt =====
-- The alerts of src/SimpleColorHueStrategy.cpp, src/ExtendedColorHueStrategy.cpp,
-- src/SimpleColorTemperatureStrategy.cpp and src/ExtendedColorTemperatureStrategy.cpp: a light changes its colour, flashes, and changes back.
use hueplusplus.Base.{
  ℕ, ◌%◌, List, [], ◌∷◌, ◌++◌, Bool, false, not, none, some, Bytes, codes, bytes_eq, ok,
  if◌then◌else◌,
}
use hueplusplus.Base.Action.{lift, ◌>>=◌}
use hueplusplus.Json.{JsonLib, or_throw}
use hueplusplus.Validation.{Floats}
use hueplusplus.Settings.{
  Setting, set_on, set_brightness, set_color_hue_saturation, set_color_xy_brightness,
  set_color_temperature, set_transition,
}
use hueplusplus.Lights.{
  CacheOf, Site, Light, Act, simple, extended, transact, alert_light, pause, state_entry, const_at,
  unsigned_of,
}
use hueplusplus.Lights.Brightness
use hueplusplus.Lights.Temperature
use hueplusplus.Lights.Color.{
  HueSaturation, XyBrightness, set_hue_saturation, set_xy, peek_hue_saturation, peek_xy,
}

module _ (J : JsonLib) (F : Floats J) (S : Site J) (C : CacheOf J) where
  -- The steps behind the reading of the state: `change`, a pause, the alert, a pause, and a transaction
  -- with the old values. They end with the first that gives false back.
  abbrev pub change_back : Light → List (Setting J) → Bool → Act J C Bool
  change_back light old alerted =
      if alerted
      then (pause J C S.network S.post_alert_delay >>= λ _. transact J F S C light old)
      else lift (ok false)

  abbrev pub alert_and_back : Light → List (Setting J) → Bool → Act J C Bool
  alert_and_back light old changed =
      if changed
      then (pause J C S.network S.pre_alert_delay >>= λ _.
          alert_light J F S C light >>= change_back light old)
      else lift (ok false)

  unfoldable pub flash : Light → Act J C Bool → List (Setting J) → Act J C Bool
  flash light change old = change >>= alert_and_back light old

  -- The colour mode of a state, and whether the light is on.
  abbrev mode_of : J.Json → Act J C (Bytes × Bool)
  mode_of state = do
    colormode ← lift (const_at J state (codes "colormode"))
    mode ← lift (or_throw (J.to_text colormode))
    on ← lift (const_at J state (codes "on"))
    b ← lift (or_throw (J.to_bool on))
    lift (ok (mode, b))

  abbrev temperature_of : J.Json → Act J C ℕ
  temperature_of state = lift (const_at J state (codes "ct")) >>= λ ct. lift (unsigned_of J 16 ct)

  -- `oldBrightness`, a `uint8_t`
  abbrev old_brightness : Light → Act J C ℕ
  old_brightness light = Brightness.peek J F S C light >>= λ b. lift (ok (b % 256))

  abbrev pub hue_saturation_again : HueSaturation → List (Setting J)
  hue_saturation_again c = set_color_hue_saturation c.hue c.saturation ∷ []

  abbrev pub xy_again : XyBrightness J → List (Setting J)
  xy_again c = set_color_xy_brightness c.x c.y c.brightness ∷ []

  -- `setOn(on).setTransition(1)`
  abbrev pub on_again : Bool → List (Setting J)
  on_again on = set_on on ∷ set_transition 1 ∷ []

  -- `SimpleColorHueStrategy::alertHueSaturation`
  unfoldable pub simple_alert_hue_saturation : HueSaturation → Light → Act J C Bool
  simple_alert_hue_saturation c light = do
    state ← state_entry J C
    (mode, on) ← mode_of state
    if bytes_eq mode (codes "hs")
        then (peek_hue_saturation J F S C light >>= λ old.
            flash light (set_hue_saturation J F S C light c 1)
              (hue_saturation_again old ++ on_again on))
        else if bytes_eq mode (codes "xy")
        then (peek_xy J F S C light >>= λ old.
            flash light (set_hue_saturation J F S C light c 1) (xy_again old ++ on_again on))
        else lift (ok false)

  -- `SimpleColorHueStrategy::alertXY`
  unfoldable pub simple_alert_xy : XyBrightness J → Light → Act J C Bool
  simple_alert_xy c light = do
    state ← state_entry J C
    (mode, on) ← mode_of state
    if bytes_eq mode (codes "hs")
        then (peek_hue_saturation J F S C light >>= λ old. old_brightness light >>= λ bri.
            flash light (set_xy J F S C light c 1)
              (hue_saturation_again old ++ (set_brightness bri ∷ on_again on)))
        else if bytes_eq mode (codes "xy")
        then (peek_xy J F S C light >>= λ old.
            flash light (set_xy J F S C light c 1) (xy_again old ++ on_again on))
        else lift (ok false)

  -- `ExtendedColorHueStrategy::alertHueSaturation`
  unfoldable pub extended_alert_hue_saturation : HueSaturation → Light → Act J C Bool
  extended_alert_hue_saturation c light = do
    state ← state_entry J C
    (mode, on) ← mode_of state
    if not (bytes_eq mode (codes "ct"))
        then simple_alert_hue_saturation c light
        else (temperature_of state >>= λ ct.
            flash light (set_hue_saturation J F S C light c 1)
              (set_color_temperature ct ∷ on_again on))

  -- `ExtendedColorHueStrategy::alertXY`
  unfoldable pub extended_alert_xy : XyBrightness J → Light → Act J C Bool
  extended_alert_xy c light = do
    state ← state_entry J C
    (mode, on) ← mode_of state
    if not (bytes_eq mode (codes "ct"))
        then simple_alert_xy c light
        else (temperature_of state >>= λ ct. old_brightness light >>= λ bri.
            flash light (set_xy J F S C light c 1)
              (set_color_temperature ct ∷ set_brightness bri ∷ on_again on))

  -- `alertHueSaturation` of a light
  abbrev pub alert_hue_saturation : Light → HueSaturation → Act J C Bool
  alert_hue_saturation light c = elim light.hue_strategy [
    | none ↦ lift (ok false)
    | some simple ↦ simple_alert_hue_saturation c light
    | some extended ↦ extended_alert_hue_saturation c light
  ]

  -- `alertXY` of a light
  abbrev pub alert_xy : Light → XyBrightness J → Act J C Bool
  alert_xy light c = elim light.hue_strategy [
    | none ↦ lift (ok false)
    | some simple ↦ simple_alert_xy c light
    | some extended ↦ extended_alert_xy c light
  ]

  -- `SimpleColorTemperatureStrategy::alertTemperature`
  unfoldable pub strategy_alert_temperature : ℕ → Light → Act J C Bool
  strategy_alert_temperature mired light = do
    state ← state_entry J C
    (mode, on) ← mode_of state
    if bytes_eq mode (codes "ct")
        then (temperature_of state >>= λ ct.
            flash light (Temperature.set J F S C light mired 1)
              (set_color_temperature ct ∷ on_again on))
        else lift (ok false)

  -- `ExtendedColorTemperatureStrategy::alertTemperature`
  unfoldable pub extended_alert_temperature : ℕ → Light → Act J C Bool
  extended_alert_temperature mired light = do
    state ← state_entry J C
    (mode, on) ← mode_of state
    if bytes_eq mode (codes "ct")
        then strategy_alert_temperature mired light
        else if bytes_eq mode (codes "hs")
        then (peek_hue_saturation J F S C light >>= λ old.
            flash light (Temperature.set J F S C light mired 1)
              (hue_saturation_again old ++ on_again on))
        else if bytes_eq mode (codes "xy")
        then (peek_xy J F S C light >>= λ old.
            flash light (Temperature.set J F S C light mired 1) (xy_again old ++ on_again on))
        else lift (ok false)

  -- `alertTemperature` of a light, whose strategy may be of the extended class
  abbrev pub alert_temperature : Light → Bool → ℕ → Act J C Bool
  alert_temperature light is_extended mired =
      if light.has_temperature_control
      then if is_extended
        then extended_alert_temperature mired light
        else strategy_alert_temperature mired light
      else lift (ok false)
