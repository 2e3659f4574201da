-- ===== src/Scenes/Told.antt =====
-- The abstract view of a `LightStateBuilder` of src/Scene.cpp, the last value of each setter, and the getters of
-- `LightState` on a state with its entries.
use hueplusplus.Base.{
  is_some, or_default, ◌≡◌, refl, ap, ◌∙◌, Bool, true, false, ◌&&◌, List, [], ◌∷◌, Bytes, codes,
  bytes_eq, Option, none, some, ok, if◌then◌else◌,
}
use hueplusplus.Base.Int.{ℤ, pos}
use hueplusplus.Json.{JsonLib, TextLaws, ScalarLaws, has, value_or, or_throw}
use hueplusplus.Lights.Color.{HueSaturation}
use hueplusplus.Scenes.{
  Call, set_on, set_brightness, set_hue_sat, set_xy, set_ct, set_color_loop, set_transition_time,
  is_on, has_brightness, get_brightness, has_hue_sat, get_hue_sat, has_xy, has_ct, get_ct,
  has_effect, get_color_loop, get_transition_time,
}

-- What a builder was told.
pub record Told (J : JsonLib) : Type 0 where
  pub on : Option Bool
  pub brightness : Option ℤ
  pub hue_sat : Option HueSaturation
  pub xy : Option (J.Float × J.Float)
  pub ct : Option ℤ
  pub color_loop : Option Bool
  pub transition : Option ℤ

abbrev pub nothing_told : (J : JsonLib) → Told J
nothing_told J = record {
  on = none;
  brightness = none;
  hue_sat = none;
  xy = none;
  ct = none;
  color_loop = none;
  transition = none;
}

module _ {J : JsonLib} where
  abbrev pub tell : Call J → Told J → Told J
  tell (set_on b) t = record t { on = some b }
  tell (set_brightness b) t = record t { brightness = some b }
  tell (set_hue_sat c) t = record t { hue_sat = some c }
  tell (set_xy x y) t = record t { xy = some (x, y) }
  tell (set_ct mired) t = record t { ct = some mired }
  tell (set_color_loop b) t = record t { color_loop = some b }
  tell (set_transition_time time) t = record t { transition = some time }

  abbrev pub tell_all : List (Call J) → Told J → Told J
  tell_all [] t = t
  tell_all (call ∷ calls) t = tell_all calls (tell call t)

abbrev pub stored : {A B : Type 0} → (A → B) → Option A → Option B
stored f none = none
stored f (some a) = some (f a)

abbrev pub effect_text : Bool → Bytes
effect_text b = if b then codes "colorloop" else codes "none"

module _ (J : JsonLib) where
  -- The getters of a state give what was told, and the defaults of the class for the rest.
  abbrev pub Reads : J.Json → Told J → Type 0
  Reads state t =
      (is_on J state ≡ ok (or_default t.on false))
      × (has_brightness J state ≡ is_some t.brightness)
      × (get_brightness J state ≡ ok (or_default t.brightness (pos 0)))
      × (has_hue_sat J state ≡ is_some t.hue_sat)
      × (get_hue_sat J state
          ≡ ok (or_default t.hue_sat (record { hue = pos 0; saturation = pos 0 })))
      × (has_xy J state ≡ is_some t.xy)
      × (has_ct J state ≡ is_some t.ct)
      × (get_ct J state ≡ ok (or_default t.ct (pos 0)))
      × (has_effect J state ≡ is_some t.color_loop)
      × (get_color_loop J state ≡ ok (or_default t.color_loop false))
      × (get_transition_time J state ≡ ok (or_default t.transition (pos 4)))

  -- The entries of a state are those of what was told.
  abbrev pub Shows : J.Json → Told J → Type 0
  Shows state t =
      (J.find state (codes "on") ≡ stored J.of_bool t.on)
      × (J.find state (codes "bri") ≡ stored J.of_int t.brightness)
      × (J.find state (codes "hue") ≡ stored (λ c. J.of_int c.hue) t.hue_sat)
      × (J.find state (codes "sat") ≡ stored (λ c. J.of_int c.saturation) t.hue_sat)
      × (J.find state (codes "xy") ≡ stored (λ c. J.of_floats c.0 c.1) t.xy)
      × (J.find state (codes "ct") ≡ stored J.of_int t.ct)
      × (J.find state (codes "effect") ≡ stored (λ b. J.of_text (effect_text b)) t.color_loop)
      × (J.find state (codes "transitiontime") ≡ stored J.of_int t.transition)

module _ (J : JsonLib) where
  value_or-stored :
      {A : Type 0} (to : J.Json → Option A) (of : A → J.Json) (s : J.Json) (k : Bytes) (a : A)
      (o : Option A)
      → ((x : A) → to (of x) ≡ some x)
      → J.is_object s ≡ true
      → J.find s k ≡ stored of o
      → value_or J to s k a ≡ ok (or_default o a)
  value_or-stored to of s k a none back object found = rw (object, found) refl
  value_or-stored to of s k a (some x) back object found = rw (object, found) (ap or_throw (back x))

  has-stored :
      {A : Type 0} (of : A → J.Json) (s : J.Json) (k : Bytes) (o : Option A)
      → J.find s k ≡ stored of o
      → has J s k ≡ is_some o
  has-stored of s k none found = ap (λ r. elim r [ none ↦ false | some _ ↦ true ]) found
  has-stored of s k (some x) found = ap (λ r. elim r [ none ↦ false | some _ ↦ true ]) found

module _ (J : JsonLib) (texts : TextLaws J) (scalars : ScalarLaws J) where
  hue_sat-stored :
      (s : J.Json) (o : Option HueSaturation)
      → J.is_object s ≡ true
      → J.find s (codes "hue") ≡ stored (λ c. J.of_int c.hue) o
      → J.find s (codes "sat") ≡ stored (λ c. J.of_int c.saturation) o
      → (has_hue_sat J s ≡ is_some o)
        × (get_hue_sat J s ≡ ok (or_default o (record { hue = pos 0; saturation = pos 0 })))
  hue_sat-stored s none object hue sat = (
    ap (λ b. b && has J s (codes "sat"))
        (has-stored J (λ (c : HueSaturation). J.of_int c.hue) s (codes "hue") none hue),
    rw (object, hue, sat) refl,
  )
  hue_sat-stored s (some c) object hue sat = (
    ap (λ b. b && has J s (codes "sat"))
          (has-stored J (λ (c : HueSaturation). J.of_int c.hue) s (codes "hue") (some c) hue)
        ∙ has-stored J (λ (c : HueSaturation). J.of_int c.saturation) s (codes "sat") (some c) sat,
    rw (object, hue, sat, scalars.to_int-of_int c.hue, scalars.to_int-of_int c.saturation) refl,
  )

  color_loop-stored :
      (s : J.Json) (o : Option Bool)
      → J.is_object s ≡ true
      → J.find s (codes "effect") ≡ stored (λ b. J.of_text (effect_text b)) o
      → get_color_loop J s ≡ ok (or_default o false)
  unfolding bytes_eq
  color_loop-stored s none object effect = rw (object, effect) refl
  color_loop-stored s (some true) object effect =
      rw (object, effect, texts.to_text-of_text (codes "colorloop")) refl
  color_loop-stored s (some false) object effect =
      rw (object, effect, texts.to_text-of_text (codes "none")) refl

  pub Shows-Reads : (s : J.Json) (t : Told J) → J.is_object s ≡ true → Shows J s t → Reads J s t
  Shows-Reads s t object (on, bri, hue, sat, xy, ct, effect, time) =
      let (has_color, color) = hue_sat-stored s t.hue_sat object hue sat in
      (
        value_or-stored J J.to_bool J.of_bool s (codes "on") false t.on scalars.to_bool-of_bool
            object on,
        has-stored J J.of_int s (codes "bri") t.brightness bri,
        value_or-stored J J.to_int J.of_int s (codes "bri") (pos 0) t.brightness
            scalars.to_int-of_int object bri,
        has_color,
        color,
        has-stored J (λ c. J.of_floats c.0 c.1) s (codes "xy") t.xy xy,
        has-stored J J.of_int s (codes "ct") t.ct ct,
        value_or-stored J J.to_int J.of_int s (codes "ct") (pos 0) t.ct scalars.to_int-of_int object
            ct,
        has-stored J (λ b. J.of_text (effect_text b)) s (codes "effect") t.color_loop effect,
        color_loop-stored s t.color_loop object effect,
        value_or-stored J J.to_int J.of_int s (codes "transitiontime") (pos 4) t.transition
            scalars.to_int-of_int object time,
      )
