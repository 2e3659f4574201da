-- ===== src/Lights/Color.antt =====
-- The setters and getters of src/SimpleColorHueStrategy.cpp, and those of the colour of `Light` of
-- include/hueplusplus/Light.h. Both classes of strategy share them.
use hueplusplus.Base.{ℕ, [], ◌∷◌, Bool, false, none, some, codes, ok}
use hueplusplus.Base.Action.{lift, ◌>>=◌}
use hueplusplus.Base.Int.{ℤ, pos}
use hueplusplus.Json.{JsonLib, or_throw}
use hueplusplus.Validation.{Floats}
use hueplusplus.Settings.{
  set_color_hue, set_color_saturation, set_color_hue_saturation, set_color_xy_brightness,
  set_color_loop, set_transition,
}
use hueplusplus.Lights.{
  CacheOf, Site, Light, Act, transact, state_entry, const_state, const_member, const_at,
  const_float_at,
}

pub record HueSaturation : Type 0 where
  pub hue : ℤ
  pub saturation : ℤ

pub record XyBrightness (J : JsonLib) : Type 0 where
  pub x : J.Float
  pub y : J.Float
  pub brightness : J.Float

module _ (J : JsonLib) (F : Floats J) (S : Site J) (C : CacheOf J) where
  -- The methods of the strategy.
  abbrev strategy_set_hue : ℕ → ℕ → Light → Act J C Bool
  strategy_set_hue hue transition light =
      transact J F S C light (set_color_hue hue ∷ set_transition transition ∷ [])

  abbrev strategy_set_saturation : ℕ → ℕ → Light → Act J C Bool
  strategy_set_saturation sat transition light =
      transact J F S C light (set_color_saturation sat ∷ set_transition transition ∷ [])

  abbrev strategy_set_hue_saturation : HueSaturation → ℕ → Light → Act J C Bool
  strategy_set_hue_saturation c transition light =
      transact J F S C light
        (set_color_hue_saturation c.hue c.saturation ∷ set_transition transition ∷ [])

  abbrev strategy_set_xy : XyBrightness J → ℕ → Light → Act J C Bool
  strategy_set_xy c transition light =
      transact J F S C light
        (set_color_xy_brightness c.x c.y c.brightness ∷ set_transition transition ∷ [])

  abbrev strategy_set_loop : Bool → Light → Act J C Bool
  strategy_set_loop on light = transact J F S C light (set_color_loop on ∷ [])

  abbrev hue_saturation_in : J.Json → Act J C HueSaturation
  hue_saturation_in state = do
    hue ← lift (const_at J state (codes "hue"))
    h ← lift (or_throw (J.to_int hue))
    sat ← lift (const_at J state (codes "sat"))
    s ← lift (or_throw (J.to_int sat))
    lift (ok (record { hue = h; saturation = s }))

  abbrev xy_in : J.Json → Act J C (XyBrightness J)
  xy_in state = do
    xy ← lift (const_at J state (codes "xy"))
    x ← lift (const_float_at J xy 0)
    y ← lift (const_float_at J xy 1)
    bri ← lift (const_at J state (codes "bri"))
    b ← lift (or_throw (J.to_int bri))
    lift (ok (record { x = x; y = y; brightness = F.over_254 b }))

  abbrev strategy_get_hue_saturation : Act J C HueSaturation
  strategy_get_hue_saturation = state_entry J C >>= hue_saturation_in

  -- It reads the cache once for each number, which gives the same value.
  abbrev strategy_peek_hue_saturation : Act J C HueSaturation
  strategy_peek_hue_saturation = do
    hue ← const_member J C (codes "hue")
    h ← lift (or_throw (J.to_int hue))
    sat ← const_member J C (codes "sat")
    s ← lift (or_throw (J.to_int sat))
    lift (ok (record { hue = h; saturation = s }))

  abbrev strategy_get_xy : Act J C (XyBrightness J)
  strategy_get_xy = state_entry J C >>= xy_in

  abbrev strategy_peek_xy : Act J C (XyBrightness J)
  strategy_peek_xy = const_state J C >>= xy_in

  -- A call of the strategy, or a value where there is none.
  abbrev with_strategy : {A : Type 0} → Light → A → Act J C A → Act J C A
  with_strategy light default call = elim light.hue_strategy [
    | none ↦ lift (ok default)
    | some _ ↦ call
  ]

  abbrev no_hue_saturation : HueSaturation
  no_hue_saturation = record { hue = pos 0; saturation = pos 0 }

  abbrev no_xy : XyBrightness J
  no_xy = record { x = F.zero; y = F.zero; brightness = F.zero }

  -- `setColorHue`, `setColorSaturation`, `setColorHueSaturation`, `setColorXY` and `setColorLoop`
  abbrev pub set_hue : Light → ℕ → ℕ → Act J C Bool
  set_hue light hue transition = with_strategy light false (strategy_set_hue hue transition light)

  abbrev pub set_saturation : Light → ℕ → ℕ → Act J C Bool
  set_saturation light sat transition =
      with_strategy light false (strategy_set_saturation sat transition light)

  abbrev pub set_hue_saturation : Light → HueSaturation → ℕ → Act J C Bool
  set_hue_saturation light c transition =
      with_strategy light false (strategy_set_hue_saturation c transition light)

  abbrev pub set_xy : Light → XyBrightness J → ℕ → Act J C Bool
  set_xy light c transition = with_strategy light false (strategy_set_xy c transition light)

  abbrev pub set_loop : Light → Bool → Act J C Bool
  set_loop light on = with_strategy light false (strategy_set_loop on light)

  -- `getColorHueSaturation` and `getColorXY`, and those of a constant light
  abbrev pub get_hue_saturation : Light → Act J C HueSaturation
  get_hue_saturation light = with_strategy light no_hue_saturation strategy_get_hue_saturation

  abbrev pub peek_hue_saturation : Light → Act J C HueSaturation
  peek_hue_saturation light = with_strategy light no_hue_saturation strategy_peek_hue_saturation

  abbrev pub get_xy : Light → Act J C (XyBrightness J)
  get_xy light = with_strategy light no_xy strategy_get_xy

  abbrev pub peek_xy : Light → Act J C (XyBrightness J)
  peek_xy light = with_strategy light no_xy strategy_peek_xy
