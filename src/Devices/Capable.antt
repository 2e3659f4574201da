-- ===== src/Devices/Capable.antt =====
-- The strategies of a light and its type of colour.
use hueplusplus.Base.{
  is_some, ◌≡◌, refl, subst, Bool, true, false, ◌||◌, Option, none, some, Bytes, codes, bytes_eq,
  arith, ok, err, Result, ◌⊎◌, map, Error, ◌>>=◌, List, [], ◌∷◌, if◌then◌else◌,
}
use hueplusplus.Json.{JsonLib, or_throw, at_key, value_or}
use hueplusplus.Bridge.{Key, name, safe_get_member}
use hueplusplus.Lights.{simple, extended}
use hueplusplus.Devices.{
  ColorType, undefined, no_color, temperature, gamut_a, gamut_b, gamut_c, gamut_other,
  gamut_a_temperature, gamut_b_temperature, gamut_c_temperature, gamut_other_temperature, Made,
  lower, by_gamut, by_model, get_color_type, equip, create_light, of_colors, extended_temperature,
  simple_temperature,
}

-- The names of the types: what they say of the control of temperature and of colour.
abbrev pub tells_temperature : ColorType → Bool
tells_temperature temperature = true
tells_temperature gamut_a_temperature = true
tells_temperature gamut_b_temperature = true
tells_temperature gamut_c_temperature = true
tells_temperature gamut_other_temperature = true
tells_temperature undefined = false
tells_temperature no_color = false
tells_temperature gamut_a = false
tells_temperature gamut_b = false
tells_temperature gamut_c = false
tells_temperature gamut_other = false

abbrev pub tells_color : ColorType → Bool
tells_color gamut_a_temperature = true
tells_color gamut_b_temperature = true
tells_color gamut_c_temperature = true
tells_color gamut_other_temperature = true
tells_color gamut_a = true
tells_color gamut_b = true
tells_color gamut_c = true
tells_color gamut_other = true
tells_color temperature = false
tells_color undefined = false
tells_color no_color = false

-- A type of colour that stands for given controls, or is unknown for a light with colours.
abbrev pub Tells : Bool → Bool → ColorType → Type 0
Tells of_temperature of_color c =
    ((tells_temperature c ≡ of_temperature) × (tells_color c ≡ of_color))
    ⊎ ((c ≡ undefined) × (of_color ≡ true))

-- The control of brightness comes with every other.
abbrev pub Capable : Made → Type 0
Capable m =
    Tells (is_some m.temperature_strategy) (is_some m.hue_strategy) m.color_type
    × ((is_some m.temperature_strategy || is_some m.hue_strategy ≡ true)
        → m.has_brightness_control ≡ true)

abbrev gamut_path : List Key
gamut_path =
    name (codes "capabilities") ∷ name (codes "control") ∷ name (codes "colorgamuttype") ∷ []

-- A result that has a property where it is no exception.
data Gives {A : Type 0} (P : A → Type 0) : Result A → Type 0 where
  given : (a : A) → P a → Gives P (ok a)
  thrown : (e : Error) → Gives P (err e)

gives_only : {A : Type 0} (P : A → Type 0) (a : A) → Gives P (ok a) → P a
gives_only P a (given b p) = p

by_test :
    {A : Type 0} {P : A → Type 0} {x y : Result A} (b : Bool)
    → Gives P x
    → Gives P y
    → Gives P (if b then x else y)
by_test true p q = p
by_test false p q = q

Gives-bind :
    {A B : Type 0} (P : A → Type 0) (Q : B → Type 0) (r : Result A) (f : A → Result B)
    → Gives P r
    → ((a : A) → P a → Gives Q (f a))
    → Gives Q (r >>= f)
Gives-bind P Q (ok a) f g next = next a (gives_only P a g)
Gives-bind P Q (err e) f g next = thrown e

Gives-all : {A : Type 0} (r : Result A) → Gives (λ a. Unit {0}) r
Gives-all (ok a) = given a tt
Gives-all (err e) = thrown e

by_gamut-Tells : (ct : Bool) (g : Bytes) → Tells ct true (by_gamut ct g)
unfolding by_gamut
by_gamut-Tells true g = ground arith
by_gamut-Tells false g = ground arith

by_model-Tells : (ct : Bool) (m : Bytes) → Tells ct true (by_model ct m)
unfolding by_model
by_model-Tells true m = ground arith
by_model-Tells false m = ground arith

module _ (J : JsonLib) where
  get_color_type-Tells :
      (state : J.Json) (ct : Bool) → Gives (Tells ct true) (get_color_type J state ct)
  unfolding get_color_type
  get_color_type-Tells state ct =
      by_test (J.is_text gamut) (then_text (J.to_text gamut) (by_gamut ct) (by_gamut-Tells ct)) (
        Gives-bind (λ v. Unit {0}) (Tells ct true) (at_key J state (codes "modelid"))
          (λ v. or_throw (J.to_text v) >>= λ m. ok (by_model ct m))
          (Gives-all (at_key J state (codes "modelid")))
          (λ v _. then_text (J.to_text v) (by_model ct) (by_model-Tells ct)))
    where
      gamut : J.Json
      gamut = safe_get_member J state gamut_path

      then_text :
          (o : Option Bytes) (f : Bytes → ColorType)
          → ((s : Bytes) → Tells ct true (f s))
          → Gives (Tells ct true) (or_throw o >>= λ s. ok (f s))
      then_text none f tells = thrown _
      then_text (some s) f tells = given _ (tells s)

  equip-Capable : (state : J.Json) (type : Bytes) → Gives Capable (equip J state type)
  unfolding equip
  equip-Capable state type =
      by_test (bytes_eq type (codes "on/off light") || bytes_eq type (codes "on/off plug-in unit"))
        (given
          (record {
            has_brightness_control = false;
            temperature_strategy = none;
            hue_strategy = none;
            color_type = no_color;
          })
          (ground arith))
        (by_test
          (bytes_eq type (codes "dimmable light") || bytes_eq type (codes "dimmable plug-in unit"))
          (given
            (record {
              has_brightness_control = true;
              temperature_strategy = none;
              hue_strategy = none;
              color_type = no_color;
            })
            (ground arith))
          (by_test (bytes_eq type (codes "color temperature light"))
            (given
              (record {
                has_brightness_control = true;
                temperature_strategy = some simple_temperature;
                hue_strategy = none;
                color_type = temperature;
              })
              (ground arith))
            (by_test (bytes_eq type (codes "color light"))
              (Gives-bind (Tells false true) Capable (get_color_type J state false)
                (λ color. ok (of_colors J none simple color)) (get_color_type-Tells state false)
                (λ c tells. given _ (tells, λ h. refl)))
              (by_test (bytes_eq type (codes "extended color light"))
                (Gives-bind (Tells true true) Capable (get_color_type J state true)
                  (λ color. ok (of_colors J (some extended_temperature) extended color))
                  (get_color_type-Tells state true) (λ c tells. given _ (tells, λ h. refl)))
                (thrown Error.hue_exception)))))

  -- Where createLight returns, the type of colour names a control of temperature exactly if the
  -- light is given a strategy for it, and a gamut exactly if it is given one for colours, or it is
  -- UNDEFINED and the light has colours; and a light with either strategy has one for brightness.
  pub create_light-Capable : (state : J.Json) (m : Made) → create_light J state ≡ ok m → Capable m
  unfolding create_light
  create_light-Capable state m made = gives_only Capable m (
      subst (Gives Capable) made (
        Gives-bind (λ t. Unit {0}) Capable (value_or J J.to_text state (codes "type") [])
          (λ type. equip J state (map lower type))
          (Gives-all (value_or J J.to_text state (codes "type") []))
          (λ type _. equip-Capable state (map lower type))))
