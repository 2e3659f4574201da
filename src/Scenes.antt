-- ===== src/Scenes.antt =====
-- `LightState` and `LightStateBuilder` of src/Scene.cpp. The requests for a new scene and the class `Scene` are in
-- the children.
pub mod Create
pub mod Stored
pub mod Scene
pub mod Exclusive
pub mod Reads
pub mod Told
pub mod Refines
mod Examples
use hueplusplus.Base.{
  Bool, true, false, ◌&&◌, List, [], ◌∷◌, Bytes, codes, bytes_eq, if◌then◌else◌, Result, ok, ◌>>=◌,
}
use hueplusplus.Base.Int.{ℤ, pos}
use hueplusplus.Json.{JsonLib, has, value_or, at_key, or_throw}
use hueplusplus.Validation.{Floats}
use hueplusplus.Lights.{const_float_at}
use hueplusplus.Lights.Color.{HueSaturation, XyBrightness}

-- The setters of `LightStateBuilder`
pub data Call (J : JsonLib) : Type 0 where
  set_on : Bool → Call J
  set_brightness : ℤ → Call J
  set_hue_sat : HueSaturation → Call J
  set_xy : J.Float → J.Float → Call J
  set_ct : ℤ → Call J
  set_color_loop : Bool → Call J
  set_transition_time : ℤ → Call J

module _ (J : JsonLib) where
  -- A light state is its JSON value.
  abbrev pub is_on : J.Json → Result Bool
  is_on state = value_or J J.to_bool state (codes "on") false

  abbrev pub has_brightness : J.Json → Bool
  has_brightness state = has J state (codes "bri")

  abbrev pub get_brightness : J.Json → Result ℤ
  get_brightness state = value_or J J.to_int state (codes "bri") (pos 0)

  abbrev pub has_hue_sat : J.Json → Bool
  has_hue_sat state = has J state (codes "hue") && has J state (codes "sat")

  abbrev pub get_hue_sat : J.Json → Result HueSaturation
  get_hue_sat state = do
    hue ← value_or J J.to_int state (codes "hue") (pos 0)
    sat ← value_or J J.to_int state (codes "sat") (pos 0)
    ok (record { hue = hue; saturation = sat })

  abbrev pub has_xy : J.Json → Bool
  has_xy state = has J state (codes "xy")

  abbrev pub get_xy : Floats J → J.Json → Result (XyBrightness J)
  get_xy F state = do
    xy ← at_key J state (codes "xy")
    x ← const_float_at J xy 0
    y ← const_float_at J xy 1
    bri ← at_key J state (codes "bri")
    b ← or_throw (J.to_int bri)
    ok (record { x = x; y = y; brightness = F.over_255 b })

  abbrev pub has_ct : J.Json → Bool
  has_ct state = has J state (codes "ct")

  abbrev pub get_ct : J.Json → Result ℤ
  get_ct state = value_or J J.to_int state (codes "ct") (pos 0)

  abbrev pub has_effect : J.Json → Bool
  has_effect state = has J state (codes "effect")

  abbrev pub get_color_loop : J.Json → Result Bool
  get_color_loop state = value_or J J.to_text state (codes "effect") [] >>= λ effect.
      ok (bytes_eq effect (codes "colorloop"))

  abbrev pub get_transition_time : J.Json → Result ℤ
  get_transition_time state = value_or J J.to_int state (codes "transitiontime") (pos 4)

  -- What a setter does to the state of the builder.
  unfoldable pub apply : Call J → J.Json → J.Json
  apply (set_on on) state = J.set state (codes "on") (J.of_bool on)
  apply (set_brightness b) state = J.set state (codes "bri") (J.of_int b)
  apply (set_hue_sat c) state =
      J.set (J.set state (codes "hue") (J.of_int c.hue)) (codes "sat") (J.of_int c.saturation)
  apply (set_xy x y) state = J.set state (codes "xy") (J.of_floats x y)
  apply (set_ct mired) state = J.set state (codes "ct") (J.of_int mired)
  apply (set_color_loop on) state =
      J.set state (codes "effect") (J.of_text (if on then codes "colorloop" else codes "none"))
  apply (set_transition_time t) state = J.set state (codes "transitiontime") (J.of_int t)

  -- The setters in their order, and `create()`
  unfoldable pub build : List (Call J) → J.Json → J.Json
  build [] state = state
  build (call ∷ calls) state = build calls (apply call state)

  abbrev pub create : List (Call J) → J.Json
  create calls = build calls J.null
