-- ===== src/Lights/Brightness.antt =====
-- src/SimpleBrightnessStrategy.cpp and the brightness of `Light` of include/hueplusplus/Light.h.
use hueplusplus.Base.{ℕ, ◌%◌, [], ◌∷◌, Bool, false, codes, if◌then◌else◌, ok}
use hueplusplus.Base.Action.{lift, ◌>>=◌}
use hueplusplus.Json.{JsonLib}
use hueplusplus.Validation.{Floats}
use hueplusplus.Settings.{set_brightness, set_transition}
use hueplusplus.Lights.{
  CacheOf, Site, Light, Act, transact, state_member, const_member, unsigned_of,
}

module _ (J : JsonLib) (F : Floats J) (S : Site J) (C : CacheOf J) where
  -- The setter of the transaction takes a `uint8_t`.
  abbrev strategy_set : ℕ → ℕ → Light → Act J C Bool
  strategy_set bri transition light =
      transact J F S C light (set_brightness (bri % 256) ∷ set_transition transition ∷ [])

  -- `setBrightness`
  abbrev pub set : Light → ℕ → ℕ → Act J C Bool
  set light bri transition =
      if light.has_brightness_control then strategy_set bri transition light else lift (ok false)

  abbrev strategy_get : Act J C ℕ
  strategy_get = state_member J C (codes "bri") >>= λ v. lift (unsigned_of J 32 v)

  abbrev strategy_peek : Act J C ℕ
  strategy_peek = const_member J C (codes "bri") >>= λ v. lift (unsigned_of J 32 v)

  -- `getBrightness()`
  abbrev pub get : Light → Act J C ℕ
  get light = if light.has_brightness_control then strategy_get else lift (ok 0)

  -- `getBrightness() const`
  abbrev pub peek : Light → Act J C ℕ
  peek light = if light.has_brightness_control then strategy_peek else lift (ok 0)
