-- ===== src/Settings/Examples.antt =====
-- The theorems on setters at an input: a hue and a saturation outside their ranges, and an increment.
use hueplusplus.Base.{[], ◌∷◌, codes, arith, some, ◌≡◌, refl, bytes_eq}
use hueplusplus.Base.Int.{pos, negsuc}
use hueplusplus.Json.Value.{values_lib, int}
use hueplusplus.Json.Value.Laws.{values_laws}
use hueplusplus.Validation.Examples.{floats}
use hueplusplus.Settings.{apply, set_color_hue, set_color_hue_saturation, increment_hue}
use hueplusplus.Settings.Range.{InRange, requested, requested-InRange}

methods : Unit {0}
unfolding apply bytes_eq
methods = tt

hue :
    values_lib.find
      (apply values_lib floats (set_color_hue_saturation (pos 70000) (negsuc 4)) values_lib.object)
      (codes "hue")
    ≡ some (int (pos 65535))
unfolding methods
hue = refl

requested-InRange_example : InRange values_lib (
    requested values_lib floats
      (set_color_hue_saturation (pos 70000) (negsuc 4)
        ∷ set_color_hue 900
        ∷ increment_hue (negsuc 99999)
        ∷ [])
      values_lib.object)
requested-InRange_example =
    requested-InRange values_lib values_laws floats
      (set_color_hue_saturation (pos 70000) (negsuc 4)
        ∷ set_color_hue 900
        ∷ increment_hue (negsuc 99999)
        ∷ [])
      (tt, (omega arith, (tt, tt)))
