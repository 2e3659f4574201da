-- ===== src/Sensors/Settings.antt =====
-- What a sensor reads of a configuration that its setters wrote.
use hueplusplus.Base.{
  ◌≡◌, refl, ap, ◌∙◌, true, Bytes, codes, bytes_eq, Option, none, some, ok, err, Error, ◌>>=◌,
  if◌then◌else◌,
}
use hueplusplus.Json.{
  JsonLib, ObjectLaws, TextLaws, ScalarLaws, is_object-takes_keys, or_throw, at_key,
}
use hueplusplus.Sensors.{
  Alert, no_alert, select, lselect, alert_to_string, alert_from_string, Change, set_on,
  set_battery_state, send_alert, set_user_test, set_url, set_led_indication, set_sunrise_offset,
  set_sunset_offset, set_coordinates, set_config_attribute, in_config, is_on, get_battery_state,
  get_last_alert, get_url, get_led_indication, get_sunrise_offset, get_sunset_offset, body_of,
}

pub own_alert : (a : Alert) → alert_from_string (alert_to_string a) ≡ a
unfolding alert_from_string alert_to_string bytes_eq
own_alert no_alert = refl
own_alert select = refl
own_alert lselect = refl

-- What the getter of a setting gives of a state.
abbrev pub Reads : (J : JsonLib) → Change J → J.Json → Type 0
Reads J (set_on b) state = is_on J state ≡ ok b
Reads J (set_battery_state z) state = get_battery_state J state ≡ ok z
Reads J (send_alert a) state = get_last_alert J state ≡ ok a
Reads J (set_url s) state = get_url J state ≡ ok s
Reads J (set_led_indication b) state = get_led_indication J state ≡ ok b
Reads J (set_sunrise_offset z) state = get_sunrise_offset J state ≡ ok z
Reads J (set_sunset_offset z) state = get_sunset_offset J state ≡ ok z
Reads J (set_user_test b) state = Unit
Reads J (set_coordinates a b) state = Unit
Reads J (set_config_attribute key v) state = Unit

module _ (J : JsonLib) (laws : ObjectLaws J) (texts : TextLaws J) (scalars : ScalarLaws J) where
  abbrev configured : J.Json → J.Json
  configured c = J.set J.object (codes "config") c

  pub at_key-set :
      (k : Bytes) (v : J.Json) → bytes_eq k k ≡ true → at_key J (J.set J.object k v) k ≡ ok v
  at_key-set k v same =
      ap (λ o. elim o [ none ↦ err Error.json_exception | some u ↦ ok u ])
        (laws.find-set J.object k k v (is_object-takes_keys J J.object laws.object_is)
          ∙ ap (λ b. if b then some v else J.find J.object k) same)

  in_config-set :
      {A : Type 0} (to : J.Json → Option A) (key : Bytes) (v : J.Json) (a : A)
      → bytes_eq key key ≡ true
      → to v ≡ some a
      → in_config J to key (configured (J.set J.object key v)) ≡ ok a
  unfolding bytes_eq
  in_config-set to key v a same converted =
      ap (λ r. r >>= λ c. at_key J c key >>= λ u. or_throw (to u))
        (at_key-set (codes "config") (J.set J.object key v) refl)
      ∙ ap (λ r. r >>= λ u. or_throw (to u)) (at_key-set key v same)
      ∙ ap or_throw converted

  -- The body of each setter that has a getter, as the configuration of a sensor, is read back by the getter
  -- as what the setter was given. The JSON library keeps the laws of objects, texts and scalars.
  pub body_of-Reads : (c : Change J) → Reads J c (configured (body_of J c))
  unfolding body_of bytes_eq
  body_of-Reads (set_on b) = in_config-set J.to_bool _ _ b refl (scalars.to_bool-of_bool b)
  body_of-Reads (set_battery_state z) = in_config-set J.to_int _ _ z refl (scalars.to_int-of_int z)
  body_of-Reads (send_alert a) =
      ap (λ r. r >>= λ s. ok (alert_from_string s))
        (in_config-set J.to_text (codes "alert") (J.of_text (alert_to_string a)) (alert_to_string a)
          refl (texts.to_text-of_text (alert_to_string a)))
      ∙ ap ok (own_alert a)
  body_of-Reads (set_url s) = in_config-set J.to_text _ _ s refl (texts.to_text-of_text s)
  body_of-Reads (set_led_indication b) =
      in_config-set J.to_bool _ _ b refl (scalars.to_bool-of_bool b)
  body_of-Reads (set_sunrise_offset z) = in_config-set J.to_int _ _ z refl (scalars.to_int-of_int z)
  body_of-Reads (set_sunset_offset z) = in_config-set J.to_int _ _ z refl (scalars.to_int-of_int z)
  body_of-Reads (set_user_test b) = tt
  body_of-Reads (set_coordinates a b) = tt
  body_of-Reads (set_config_attribute key v) = tt
