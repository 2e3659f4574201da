-- ===== src/Lights/Gamut.antt =====
-- `Light::getColorGamut` of src/Light.cpp and `Light::setColorRGB` of include/hueplusplus/Light.h. The floats of
-- colours and those of JSON are one type in the code; here they are converted.
pub mod Corrected
use hueplusplus.Base.{
  ◌≢◌, ◌⊎◌, inl, inr, refl, sym, true, length, ℕ, List, [], ◌∷◌, ◌≡◌, ap, ◌∙◌, Bool, false,
  if◌then◌else◌, none, some, codes, Result, ok, err, Error, ◌>>=◌, arith,
}
use hueplusplus.Base.Action.{lift, and_then}
use hueplusplus.Json.{JsonLib, or_throw}
use hueplusplus.Validation.{Floats}
use hueplusplus.Commands.{Line}
use hueplusplus.Bridge.{name, safe_get_member}
use hueplusplus.Lights.{CacheOf, Site, Light, HueStrategy, Act, peek_value}
use hueplusplus.Lights.Color.{XyBrightness, set_xy}
use hueplusplus.Devices.{
  ColorType, undefined, no_color, temperature, gamut_other, gamut_a_temperature,
  gamut_b_temperature, gamut_c_temperature, gamut_other_temperature,
}
use hueplusplus.Colors.{
  FloatOps, Rgb, Xy, Shade, ColorGamut, gamut_a, gamut_b, gamut_c, max_gamut, to_xy, to_xy_in,
}
use hueplusplus.Colors.Gamut.{Corrects, to_xy_in-Corrects}

module _ (J : JsonLib) (O : FloatOps) (of_json : J.Float → O.Float)
    (to_json : O.Float → J.Float) where
  -- `{corner.at(0), corner.at(1)}`
  abbrev corner_of : J.Json → Result (Xy O)
  corner_of corner = do
    x ← or_throw (J.float_at corner 0)
    y ← or_throw (J.float_at corner 1)
    ok (record { x = of_json x; y = of_json y })

  -- The gamut of three corners, in an array of three.
  abbrev pub corners : List J.Json → Result (ColorGamut O)
  corners [] = ok (max_gamut O)
  corners (r ∷ []) = ok (max_gamut O)
  corners (r ∷ g ∷ []) = ok (max_gamut O)
  corners (r ∷ g ∷ b ∷ []) = do
    red ← corner_of r
    green ← corner_of g
    blue ← corner_of b
    ok (record { red_corner = red; green_corner = green; blue_corner = blue })
  corners (r ∷ g ∷ b ∷ more ∷ rest) = ok (max_gamut O)

  -- The default of the `switch`.
  abbrev pub other_gamut : J.Json → Result (ColorGamut O)
  other_gamut value =
      let gamut =
        safe_get_member J value
          (name (codes "capabilities") ∷ name (codes "control") ∷ name (codes "colorgamut") ∷ []) in
      if J.is_array gamut then corners (J.elements gamut) else ok (max_gamut O)

  abbrev pub shown_as : Shade O → XyBrightness J
  shown_as s = record { x = to_json s.xy.x; y = to_json s.xy.y; brightness = to_json s.brightness }

module _ (J : JsonLib) (O : FloatOps) (of_json : J.Float → O.Float) (to_json : O.Float → J.Float)
    (F : Floats J) (S : Site J) (C : CacheOf J) where
  unfoldable pub get_color_gamut : ColorType → Act J C (ColorGamut O)
  get_color_gamut ColorType.gamut_a = lift (ok (gamut_a O))
  get_color_gamut gamut_a_temperature = lift (ok (gamut_a O))
  get_color_gamut ColorType.gamut_b = lift (ok (gamut_b O))
  get_color_gamut gamut_b_temperature = lift (ok (gamut_b O))
  get_color_gamut ColorType.gamut_c = lift (ok (gamut_c O))
  get_color_gamut gamut_c_temperature = lift (ok (gamut_c O))
  get_color_gamut undefined = lift (ok (max_gamut O))
  get_color_gamut no_color =
      λ s. and_then (λ v. lift (other_gamut J O of_json to_json v)) (peek_value J C s)
  get_color_gamut temperature =
      λ s. and_then (λ v. lift (other_gamut J O of_json to_json v)) (peek_value J C s)
  get_color_gamut gamut_other =
      λ s. and_then (λ v. lift (other_gamut J O of_json to_json v)) (peek_value J C s)
  get_color_gamut gamut_other_temperature =
      λ s. and_then (λ v. lift (other_gamut J O of_json to_json v)) (peek_value J C s)

  unfoldable pub set_color_rgb : Light → ColorType → Rgb → ℕ → Act J C Bool
  set_color_rgb light type c transition s = elim light.hue_strategy [
    | none ↦ (ok false, s)
    | some _ ↦
        and_then
          (λ g. set_xy J F S C light (shown_as J O of_json to_json (to_xy_in O g c)) transition)
          (get_color_gamut type s)
  ]
