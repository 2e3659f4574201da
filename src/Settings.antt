-- ===== src/Settings.antt =====
-- The setters of `StateTransaction` of src/StateTransaction.cpp: what each writes into the request.
pub mod Range
mod Examples
use hueplusplus.Base.{ℕ, min, max, Bool, Bytes, codes, ◌==◌, if◌then◌else◌}
use hueplusplus.Base.Int.{ℤ, pos, negsuc, min_ℤ, max_ℤ}
use hueplusplus.Json.{JsonLib}
use hueplusplus.Validation.{Floats}

-- The methods with their arguments: a `uint8_t`, `uint16_t` or `unsigned int` is a natural number, an `int` an integer.
pub data Setting (J : JsonLib) : Type 0 where
  set_on : Bool → Setting J
  set_brightness : ℕ → Setting J
  set_color_saturation : ℕ → Setting J
  set_color_hue : ℕ → Setting J
  -- `setColor` of a `HueSaturation`, an `XY` and an `XYBrightness`
  set_color_hue_saturation : ℤ → ℤ → Setting J
  set_color_xy : J.Float → J.Float → Setting J
  set_color_xy_brightness : J.Float → J.Float → J.Float → Setting J
  set_color_temperature : ℕ → Setting J
  set_color_loop : Bool → Setting J
  increment_brightness : ℤ → Setting J
  increment_saturation : ℤ → Setting J
  increment_hue : ℤ → Setting J
  increment_color_temperature : ℤ → Setting J
  increment_color_xy : J.Float → J.Float → Setting J
  set_transition : ℕ → Setting J
  alert : Setting J
  long_alert : Setting J
  stop_alert : Setting J

module _ (J : JsonLib) (F : Floats J) where
  -- `std::max(low, std::min(x, high))` of floats
  abbrev clamp_float : J.Float → J.Float → J.Float → J.Float
  clamp_float low high x = let y = if F.lt high x then high else x in if F.lt low y then y else low

  abbrev pub clamp : ℤ → ℤ → ℤ → ℤ
  clamp low high z = max_ℤ low (min_ℤ z high)

  abbrev set_xy : J.Float → J.Float → J.Json → J.Json
  set_xy x y request =
      J.set request (codes "xy")
        (J.of_floats (clamp_float F.zero F.one x) (clamp_float F.zero F.one y))

  -- A setter's change of the request.
  unfoldable pub apply : Setting J → J.Json → J.Json
  apply (set_on on) request = J.set request (codes "on") (J.of_bool on)
  apply (set_brightness b) request = J.set request (codes "bri") (J.of_int (pos (min b 254)))
  apply (set_color_saturation s) request = J.set request (codes "sat") (J.of_int (pos (min s 254)))
  apply (set_color_hue h) request = J.set request (codes "hue") (J.of_int (pos h))
  apply (set_color_hue_saturation h s) request =
      J.set (J.set request (codes "hue") (J.of_int (clamp (pos 0) (pos 65535) h))) (codes "sat")
        (J.of_int (clamp (pos 0) (pos 254) s))
  apply (set_color_xy x y) request = set_xy x y request
  apply (set_color_xy_brightness x y b) request =
      set_xy x y (J.set request (codes "bri") (J.of_int (clamp (pos 0) (pos 254) (F.round_254 b))))
  apply (set_color_temperature mired) request =
      J.set request (codes "ct") (J.of_int (pos (max 153 (min mired 500))))
  apply (set_color_loop on) request =
      J.set request (codes "effect") (J.of_text (if on then codes "colorloop" else codes "none"))
  apply (increment_brightness i) request =
      J.set request (codes "bri_inc") (J.of_int (clamp (negsuc 253) (pos 254) i))
  apply (increment_saturation i) request =
      J.set request (codes "sat_inc") (J.of_int (clamp (negsuc 253) (pos 254) i))
  apply (increment_hue i) request =
      J.set request (codes "hue_inc") (J.of_int (clamp (negsuc 65533) (pos 65534) i))
  apply (increment_color_temperature i) request =
      J.set request (codes "ct_inc") (J.of_int (clamp (negsuc 65533) (pos 65534) i))
  apply (increment_color_xy x y) request =
      J.set request (codes "xy_inc")
        (J.of_floats (clamp_float F.minus_half F.half x) (clamp_float F.minus_half F.half y))
  apply (set_transition t) request =
      if t == 4 then request else J.set request (codes "transitiontime") (J.of_int (pos t))
  apply alert request = J.set request (codes "alert") (J.of_text (codes "select"))
  apply long_alert request = J.set request (codes "alert") (J.of_text (codes "lselect"))
  apply stop_alert request = J.set request (codes "alert") (J.of_text (codes "none"))
