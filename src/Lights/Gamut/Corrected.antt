-- ===== src/Lights/Gamut/Corrected.antt =====
-- The gamut of a light by the type of its colour, and the colour that `Light::setColorRGB` of
-- include/hueplusplus/Light.h asks for.
use hueplusplus.Base.{
  ◌≢◌, ◌⊎◌, inl, inr, refl, sym, true, length, ℕ, List, [], ◌∷◌, ◌≡◌, ap, ◌∙◌, Bool, false,
  if◌then◌else◌, none, some, codes, ok, err, Error, arith,
}
use hueplusplus.Base.Action.{lift, and_then}
use hueplusplus.Json.{JsonLib}
use hueplusplus.Validation.{Floats}
use hueplusplus.Commands.{Line}
use hueplusplus.Bridge.{name, safe_get_member}
use hueplusplus.Lights.{CacheOf, Site, Light, HueStrategy, peek_value}
use hueplusplus.Lights.Color.{set_xy}
use hueplusplus.Devices.{
  ColorType, undefined, no_color, temperature, gamut_other, gamut_a_temperature,
  gamut_b_temperature, gamut_c_temperature, gamut_other_temperature,
}
use hueplusplus.Colors.{FloatOps, Rgb, Xy, Shade, ColorGamut, max_gamut, to_xy, to_xy_in}
use hueplusplus.Colors.Gamut.{Corrects, to_xy_in-Corrects}
use hueplusplus.Lights.Gamut.{
  corner_of, corners, other_gamut, shown_as, get_color_gamut, set_color_rgb,
}

module _ (J : JsonLib) (O : FloatOps) (of_json : J.Float → O.Float) (to_json : O.Float → J.Float)
    (F : Floats J) (S : Site J) (C : CacheOf J) where
  abbrev at_places : ℕ → ℕ → ℕ → ℕ → ℕ → ℕ → ColorGamut O
  at_places rx ry gx gy bx by = record {
    red_corner = record { x = O.literal rx 4; y = O.literal ry 4 };
    green_corner = record { x = O.literal gx 4; y = O.literal gy 4 };
    blue_corner = record { x = O.literal bx 4; y = O.literal by 4 };
  }

  -- A corner as an array of two numbers at least.
  abbrev IsCorner : J.Json → Xy O → Type 0
  IsCorner corner p =
      (x : J.Float) × (y : J.Float) × (J.float_at corner 0 ≡ some x)
      × (J.float_at corner 1 ≡ some y)
      × (p ≡ record { x = of_json x; y = of_json y })

  abbrev reported : J.Json → J.Json
  reported value =
      safe_get_member J value
        (name (codes "capabilities") ∷ name (codes "control") ∷ name (codes "colorgamut") ∷ [])

  -- The value has a gamut of three corners, or none, which stands for the largest one.
  abbrev Reports : J.Json → ColorGamut O → Type 0
  Reports value g =
      ((red : J.Json) × (green : J.Json) × (blue : J.Json) × (J.is_array (reported value) ≡ true)
        × (J.elements (reported value) ≡ red ∷ green ∷ blue ∷ [])
        × IsCorner red g.red_corner
        × IsCorner green g.green_corner
        × IsCorner blue g.blue_corner)
      ⊎ (((J.is_array (reported value) ≡ false) ⊎ (length (J.elements (reported value)) ≢ 3))
          × (g ≡ at_places 10000 0 0 10000 0 0))

  -- The gamut of a light by the type of its colour: A, B, C, the largest one, or what the cached
  -- value says.
  unfoldable pub IsGamutOf : ColorType → C.Cell → ColorGamut O → Type 0
  IsGamutOf ColorType.gamut_a cell g = g ≡ at_places 7040 2960 2151 7106 1380 800
  IsGamutOf gamut_a_temperature cell g = g ≡ at_places 7040 2960 2151 7106 1380 800
  IsGamutOf ColorType.gamut_b cell g = g ≡ at_places 6750 3220 4090 5180 1670 400
  IsGamutOf gamut_b_temperature cell g = g ≡ at_places 6750 3220 4090 5180 1670 400
  IsGamutOf ColorType.gamut_c cell g = g ≡ at_places 6920 3080 1700 7000 1530 480
  IsGamutOf gamut_c_temperature cell g = g ≡ at_places 6920 3080 1700 7000 1530 480
  IsGamutOf undefined cell g = g ≡ at_places 10000 0 0 10000 0 0
  IsGamutOf no_color cell g = (value : J.Json) × (C.peek cell ≡ ok value) × Reports value g
  IsGamutOf temperature cell g = (value : J.Json) × (C.peek cell ≡ ok value) × Reports value g
  IsGamutOf gamut_other cell g = (value : J.Json) × (C.peek cell ≡ ok value) × Reports value g
  IsGamutOf gamut_other_temperature cell g =
      (value : J.Json) × (C.peek cell ≡ ok value) × Reports value g

  corner_known :
      (corner : J.Json) (p : Xy O) → IsCorner corner p → corner_of J O of_json to_json corner ≡ ok p
  corner_known corner p (x, y, first, second, e) = rw first (rw second (ap ok (sym e)))

  not_three : (l : List J.Json) → length l ≢ 3 → corners J O of_json to_json l ≡ ok (max_gamut O)
  not_three [] n = refl
  not_three (r ∷ []) n = refl
  not_three (r ∷ g ∷ []) n = refl
  not_three (r ∷ g ∷ b ∷ []) n = absurd (n refl)
  not_three (r ∷ g ∷ b ∷ more ∷ rest) n = refl

  three :
      (r g b : J.Json) (gamut : ColorGamut O)
      → IsCorner r gamut.red_corner
      → IsCorner g gamut.green_corner
      → IsCorner b gamut.blue_corner
      → corners J O of_json to_json (r ∷ g ∷ b ∷ []) ≡ ok gamut
  three r g b gamut red green blue = rw (corner_known r gamut.red_corner red) (
      rw (corner_known g gamut.green_corner green)
        (rw (corner_known b gamut.blue_corner blue) refl))

  reported_known :
      (value : J.Json) (g : ColorGamut O)
      → Reports value g
      → other_gamut J O of_json to_json value ≡ ok g
  reported_known value g (inl (r, u, b, array, all, red, green, blue)) =
      rw array (rw all (three r u b g red green blue))
  reported_known value g (inr (inl array, e)) = rw array (ap ok (sym e))
  reported_known value g (inr (inr count, e)) = by_array (J.is_array (reported value))
    where
      by_array :
          (b : Bool)
          → (if b
              then corners J O of_json to_json (J.elements (reported value))
              else ok (max_gamut O))
            ≡ ok g
      by_array true = not_three (J.elements (reported value)) count ∙ ap ok (sym e)
      by_array false = ap ok (sym e)

  peeked :
      (cell : C.Cell) (line : Line) (g : ColorGamut O)
      → ((value : J.Json) × (C.peek cell ≡ ok value) × Reports value g)
      → and_then (λ v. lift (other_gamut J O of_json to_json v)) (peek_value J C (cell, line))
        ≡ (ok g, (cell, line))
  peeked cell line g (value, known, told) = rw known (rw (reported_known value g told) refl)

  gamut_known :
      (type : ColorType) (cell : C.Cell) (line : Line) (g : ColorGamut O)
      → IsGamutOf type cell g
      → get_color_gamut J O of_json to_json F S C type (cell, line) ≡ (ok g, (cell, line))
  unfolding get_color_gamut IsGamutOf
  gamut_known ColorType.gamut_a cell line g e = ap (λ k. (ok k, (cell, line))) (sym e)
  gamut_known gamut_a_temperature cell line g e = ap (λ k. (ok k, (cell, line))) (sym e)
  gamut_known ColorType.gamut_b cell line g e = ap (λ k. (ok k, (cell, line))) (sym e)
  gamut_known gamut_b_temperature cell line g e = ap (λ k. (ok k, (cell, line))) (sym e)
  gamut_known ColorType.gamut_c cell line g e = ap (λ k. (ok k, (cell, line))) (sym e)
  gamut_known gamut_c_temperature cell line g e = ap (λ k. (ok k, (cell, line))) (sym e)
  gamut_known undefined cell line g e = ap (λ k. (ok k, (cell, line))) (sym e)
  gamut_known no_color cell line g e = peeked cell line g e
  gamut_known temperature cell line g e = peeked cell line g e
  gamut_known gamut_other cell line g e = peeked cell line g e
  gamut_known gamut_other_temperature cell line g e = peeked cell line g e

  -- The gamut of a light is A, B, C or the largest one, as the type of its colour says, or, for the
  -- other types, the one of the three corners in its cached value, or the largest one if there are
  -- not three. setColorRGB of a light that has a strategy for colours and such a gamut is
  -- setColorXY with a colour that has the brightness of toXY; its point is that of toXY if this is
  -- on the outer side of no edge of the gamut; else it is a corner that has the point of toXY on
  -- the outer side of both its edges, or the foot of its perpendicular on the line through the one
  -- edge that has it on its outer side.
  pub set_color_rgb-Corrects :
      (light : Light) (type : ColorType) (h : HueStrategy) (c : Rgb) (transition : ℕ)
      (cell : C.Cell) (line : Line) (g : ColorGamut O)
      → light.hue_strategy ≡ some h
      → IsGamutOf type cell g
      → (shade : Shade O) × (set_color_rgb J O of_json to_json F S C light type c transition
            (cell, line)
          ≡ set_xy J F S C light (shown_as J O of_json to_json shade) transition (cell, line))
        × (shade.brightness ≡ (to_xy O c).brightness)
        × Corrects O g (to_xy O c).xy shade.xy
  unfolding set_color_rgb
  set_color_rgb-Corrects light type h c transition cell line g strategy gamut = (
    to_xy_in O g c,
    ap
          (λ o. elim o [
            | none ↦ (ok false, (cell, line))
            | some _ ↦
                and_then
                  (λ g.
                    set_xy J F S C light (shown_as J O of_json to_json (to_xy_in O g c)) transition)
                  (get_color_gamut J O of_json to_json F S C type (cell, line))
          ])
          strategy
        ∙ ap
            (and_then (λ g.
              set_xy J F S C light (shown_as J O of_json to_json (to_xy_in O g c)) transition))
            (gamut_known type cell line g gamut),
    (to_xy_in-Corrects O g c).0,
    (to_xy_in-Corrects O g c).1,
  )

  -- setColorRGB sends nothing if the gamut cannot be read.
  pub set_color_rgb-silent :
      (light : Light) (type : ColorType) (c : Rgb) (transition : ℕ) (cell : C.Cell) (line : Line)
      (e : Error)
      → get_color_gamut J O of_json to_json F S C type (cell, line) ≡ (err e, (cell, line))
      → (set_color_rgb J O of_json to_json F S C light type c transition (cell, line)).1
        ≡ (cell, line)
  unfolding set_color_rgb
  set_color_rgb-silent light type c transition cell line e gamut = grind arith
