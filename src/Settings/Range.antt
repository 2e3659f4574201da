-- ===== src/Settings/Range.antt =====
-- The numbers that setters write stand in the ranges of the bridge.
use hueplusplus.Base.{
  List, [], ◌∷◌, ◌≡◌, refl, subst, ap, Bool, true, false, Bytes, codes, bytes_eq, ◌<◌, min, max,
  Option, none, some, if◌then◌else◌, arith, ◌==◌, ◌||◌, Bool-cases, ◌⊎◌, inl, inr,
}
use hueplusplus.Base.Keys.{bytes_eq_iff}
use hueplusplus.Base.Int.{ℤ, pos, negsuc, ◌≤ℤ◌}
use hueplusplus.Json.{JsonLib, ObjectLaws, takes_keys}
use hueplusplus.Validation.{Floats}
use hueplusplus.Settings.{
  Setting, apply, clamp, set_on, set_brightness, set_color_saturation, set_color_hue,
  set_color_hue_saturation, set_color_xy, set_color_xy_brightness, set_color_temperature,
  set_color_loop, increment_brightness, increment_saturation, increment_hue,
  increment_color_temperature, increment_color_xy, set_transition, alert, long_alert, stop_alert,
}

-- The range of a key, for keys of numbers.
abbrev pub range : Bytes → Option (ℤ × ℤ)
range key =
    if bytes_eq (codes "bri") key
    then some (pos 0, pos 254)
    else if bytes_eq (codes "sat") key
    then some (pos 0, pos 254)
    else if bytes_eq (codes "hue") key
    then some (pos 0, pos 65535)
    else if bytes_eq (codes "ct") key
    then some (pos 153, pos 500)
    else if bytes_eq (codes "bri_inc") key
    then some (negsuc 253, pos 254)
    else if bytes_eq (codes "sat_inc") key
    then some (negsuc 253, pos 254)
    else if bytes_eq (codes "hue_inc") key
    then some (negsuc 65533, pos 65534)
    else if bytes_eq (codes "ct_inc") key
    then some (negsuc 65533, pos 65534)
    else none

clamp_between :
    (J : JsonLib) (F : Floats J) (low high z : ℤ)
    → low ≤ℤ high
    → (low ≤ℤ clamp J F low high z) × (clamp J F low high z ≤ℤ high)
clamp_between J F low high z h = ground arith

module _ (J : JsonLib) where
  abbrev pub Between : Option (ℤ × ℤ) → J.Json → Type 0
  Between none v = Unit {0}
  Between (some (low, high)) v = (z : ℤ) × (v ≡ J.of_int z) × (low ≤ℤ z) × (z ≤ℤ high)

  -- A request is an object, and the number of each key with a range is an integer in that range.
  abbrev pub InRange : J.Json → Type 0
  InRange request =
      (J.is_object request ≡ true)
      × ((key : Bytes) (v : J.Json) → J.find request key ≡ some v → Between (range key) v)

  clamped :
      (F : Floats J) (low high z : ℤ)
      → low ≤ℤ high
      → Between (some (low, high)) (J.of_int (clamp J F low high z))
  clamped F low high z h = (
    clamp J F low high z,
    refl,
    (clamp_between J F low high z h).0,
    (clamp_between J F low high z h).1,
  )

  -- The argument is a value of its type: only the hue has no range of its own.
  abbrev pub Fits : Setting J → Type 0
  Fits (set_color_hue h) = h < 65536
  Fits _ = Unit {0}

  abbrev pub AllFit : List (Setting J) → Type 0
  AllFit [] = Unit {0}
  AllFit (s ∷ ss) = Fits s × AllFit ss

  -- The request of a transaction after calls of setters, in their order.
  abbrev pub requested : Floats J → List (Setting J) → J.Json → J.Json
  requested F [] request = request
  requested F (s ∷ ss) request = requested F ss (apply J F s request)

  module _ (laws : ObjectLaws J) where
    set_key :
        (request : J.Json) (k : Bytes) (v : J.Json)
        → Between (range k) v
        → InRange request
        → InRange (J.set request k v)
    set_key request k v here (object, all) = (
      laws.set_is request k v takes,
      λ key w found. by_key key w found (Bool-cases (bytes_eq k key)),
    )
      where
        takes : takes_keys J request ≡ true
        takes = ap (λ b. b || J.is_null request) object

        by_key :
            (key : Bytes) (w : J.Json)
            → J.find (J.set request k v) key ≡ some w
            → (bytes_eq k key ≡ true) ⊎ (bytes_eq k key ≡ false)
            → Between (range key) w
        by_key key w found (inl same) =
            subst (λ x. Between (range x) w) ((bytes_eq_iff k key).0 same)
              (subst (λ x. Between (range k) x)
                (ground (arith, laws.find-set request k key v takes)) here)
        by_key key w found (inr other) =
            all key w (ground (arith, laws.find-set request k key v takes))

    object-InRange : InRange J.object
    object-InRange = (laws.object_is, λ key v found. ground (arith, laws.find-object key))

    module _ (F : Floats J) where
      -- Every setter, called with values of its parameter types, keeps a request in range.
      apply-InRange :
          (setting : Setting J) (request : J.Json)
          → Fits setting
          → InRange request
          → InRange (apply J F setting request)
      unfolding apply bytes_eq
      apply-InRange (set_on on) request fits h = set_key request (codes "on") _ tt h
      apply-InRange (set_brightness b) request fits h =
          set_key request (codes "bri") _ (pos (min b 254), refl, omega arith, omega arith) h
      apply-InRange (set_color_saturation s) request fits h =
          set_key request (codes "sat") _ (pos (min s 254), refl, omega arith, omega arith) h
      apply-InRange (set_color_hue hue) request fits h =
          set_key request (codes "hue") _ (pos hue, refl, omega arith, omega arith) h
      apply-InRange (set_color_hue_saturation hue s) request fits h =
          set_key _ (codes "sat") _ (clamped F (pos 0) (pos 254) s (omega arith))
            (set_key request (codes "hue") _ (clamped F (pos 0) (pos 65535) hue (omega arith)) h)
      apply-InRange (set_color_xy x y) request fits h = set_key request (codes "xy") _ tt h
      apply-InRange (set_color_xy_brightness x y b) request fits h = set_key _ (codes "xy") _ tt (
          set_key request (codes "bri") _
            (clamped F (pos 0) (pos 254) (F.round_254 b) (omega arith)) h)
      apply-InRange (set_color_temperature mired) request fits h =
          set_key request (codes "ct") _
            (pos (max 153 (min mired 500)), refl, omega arith, omega arith) h
      apply-InRange (set_color_loop on) request fits h = set_key request (codes "effect") _ tt h
      apply-InRange (increment_brightness i) request fits h =
          set_key request (codes "bri_inc") _ (clamped F (negsuc 253) (pos 254) i (omega arith)) h
      apply-InRange (increment_saturation i) request fits h =
          set_key request (codes "sat_inc") _ (clamped F (negsuc 253) (pos 254) i (omega arith)) h
      apply-InRange (increment_hue i) request fits h =
          set_key request (codes "hue_inc") _ (clamped F (negsuc 65533) (pos 65534) i (omega arith))
            h
      apply-InRange (increment_color_temperature i) request fits h =
          set_key request (codes "ct_inc") _ (clamped F (negsuc 65533) (pos 65534) i (omega arith))
            h
      apply-InRange (increment_color_xy x y) request fits h =
          set_key request (codes "xy_inc") _ tt h
      apply-InRange (set_transition t) request fits h = by_default (t == 4)
        where
          by_default :
              (b : Bool)
              → InRange
                  (if b then request else J.set request (codes "transitiontime") (J.of_int (pos t)))
          by_default true = h
          by_default false = set_key request (codes "transitiontime") _ tt h
      apply-InRange alert request fits h = set_key request (codes "alert") _ tt h
      apply-InRange long_alert request fits h = set_key request (codes "alert") _ tt h
      apply-InRange stop_alert request fits h = set_key request (codes "alert") _ tt h

      later-InRange :
          (ss : List (Setting J)) (request : J.Json)
          → AllFit ss
          → InRange request
          → InRange (requested F ss request)
      later-InRange [] request fits h = h
      later-InRange (s ∷ ss) request (fits, later) h =
          later-InRange ss (apply J F s request) later (apply-InRange s request fits h)

      -- Whatever setters a new transaction is given, in which order and with which values of their
      -- parameter types: brightness and saturation in its request are integers from 0 to 254, the
      -- hue from 0 to 65535, the colour temperature from 153 to 500, the increments of brightness
      -- and saturation from -254 to 254, those of hue and colour temperature from -65534 to 65534.
      -- The JSON library keeps the laws of objects.
      pub requested-InRange :
          (ss : List (Setting J)) → AllFit ss → InRange (requested F ss J.object)
      requested-InRange ss fits = later-InRange ss J.object fits object-InRange
