-- ===== src/Validation/Near.antt =====
-- Numbers that are almost the same, as `floatEquals` of include/hueplusplus/Utils.h compares them.
use hueplusplus.Base.{ℕ, ◌≡◌, true, some}
use hueplusplus.Json.{JsonLib}
use hueplusplus.Validation.{Floats}

module _ (J : JsonLib) (F : Floats J) where
  -- Two arrays have numbers at an index that are at most 0.0001 apart.
  abbrev pub NearAt : J.Json → J.Json → ℕ → Type 0
  NearAt a b i =
      (x : J.Float) × (y : J.Float) × (J.float_at a i ≡ some x)
      × (J.float_at b i ≡ some y)
      × (F.le (F.abs (F.sub x y)) F.ten_thousandth ≡ true)

  -- Two colours, by their numbers.
  abbrev pub NearXy : J.Json → J.Json → Type 0
  NearXy a b = NearAt a b 0 × NearAt a b 1
