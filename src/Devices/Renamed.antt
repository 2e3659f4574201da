-- ===== src/Devices/Renamed.antt =====
-- What `BaseDevice::setName` says of a sensor.
use hueplusplus.Base.{
  [], ◌∷◌, ◌++◌, ◌≡◌, ap, ◌∙◌, Bool, true, false, Bytes, codes, bytes_eq, none, some, ok,
  if◌then◌else◌,
}
use hueplusplus.Base.Int.{ℤ}
use hueplusplus.Std.Number.{to_string}
use hueplusplus.Json.{JsonLib, ObjectLaws, TextLaws, is_object-takes_keys}
use hueplusplus.Bridge.{name, child, nth, safe_get_member}
use hueplusplus.Commands.{Line, request, put}
use hueplusplus.Lights.{Site}
use hueplusplus.Devices.{confirms_name, set_name}

module _ (J : JsonLib) where
  abbrev pub sensor_path : ℤ → Bytes
  sensor_path id = codes "/sensors/" ++ to_string id

  abbrev entry : Bytes → J.Json → J.Json
  entry key v = J.set J.object key v

  -- The reply of a bridge to a new name.
  abbrev pub confirmation : Bytes → Bytes → J.Json
  confirmation path text =
      J.array (entry (codes "success") (entry (path ++ codes "/name") (J.of_text text)) ∷ [])

module _ (J : JsonLib) (laws : ObjectLaws J) (texts : TextLaws J) where
  child_found : (j v : J.Json) (key : Bytes) → J.find j key ≡ some v → child J j (name key) ≡ v
  child_found j v key found = ap (λ o. elim o [ none ↦ J.null | some u ↦ u ]) found

  child_missing : (j : J.Json) (key : Bytes) → J.find j key ≡ none → child J j (name key) ≡ J.null
  child_missing j key missing = ap (λ o. elim o [ none ↦ J.null | some u ↦ u ]) missing

  find-entry :
      (key other : Bytes) (v : J.Json)
      → J.find (entry J key v) other ≡ (if bytes_eq key other then some v else none)
  find-entry key other v =
      laws.find-set J.object key other v (is_object-takes_keys J J.object laws.object_is)
      ∙ ap (λ o. if bytes_eq key other then some v else o) (laws.find-object other)

  abbrev light_key : ℤ → Bytes
  light_key id = codes "/lights/" ++ (to_string id ++ codes "/name")

  abbrev in_success : ℤ → J.Json → J.Json
  in_success id first = child J (child J first (name (codes "success"))) (name (light_key id))

  in_success-null : (id : ℤ) → in_success id J.null ≡ J.null
  in_success-null id =
      ap (λ v. child J v (name (light_key id)))
        (child_missing J.null (codes "success") (laws.find-null (codes "success")))
      ∙ child_missing J.null (light_key id) (laws.find-null (light_key id))

  in_success-sensor :
      (id : ℤ) (v : J.Json)
      → in_success id (entry J (codes "success") (entry J (sensor_path J id ++ codes "/name") v))
        ≡ J.null
  unfolding bytes_eq
  in_success-sensor id v =
      let renamed = entry J (sensor_path J id ++ codes "/name") v in
      ap (λ u. child J u (name (light_key id)))
        (child_found (entry J (codes "success") renamed) renamed (codes "success")
          (find-entry (codes "success") (codes "success") renamed))
      ∙ child_missing renamed (light_key id)
          (find-entry (sensor_path J id ++ codes "/name") (light_key id) v)

  first_or_null :
      (b : Bool) (id : ℤ) (text : Bytes)
      → in_success id (
          if b
          then nth J
              (entry J
                  (codes "success")
                  (entry J (sensor_path J id ++ codes "/name") (J.of_text text))
                ∷ [])
              0
          else J.null)
        ≡ J.null
  first_or_null true id text = in_success-sensor id (J.of_text text)
  first_or_null false id text = in_success-null id

  confirms_name-sensor :
      (id : ℤ) (text : Bytes)
      → J.is_text J.null ≡ false
      → confirms_name J id (confirmation J (sensor_path J id) text) ≡ false
  unfolding safe_get_member
  confirms_name-sensor id text null_text =
      let reply = confirmation J (sensor_path J id) text in
      ap (λ vs. J.is_text (in_success id (if J.is_array reply then nth J vs 0 else J.null)))
        (texts.elements-array (
          entry J (codes "success") (entry J (sensor_path J id ++ codes "/name") (J.of_text text))
          ∷ []))
      ∙ ap J.is_text (first_or_null (J.is_array reply) id text)
      ∙ null_text

module _ (J : JsonLib) (S : Site J) (laws : ObjectLaws J) (texts : TextLaws J) where
  -- setName of a sensor gives false where the bridge confirms the new name with the path of the
  -- sensor, since it looks for the path of a light. The JSON library keeps the laws of objects and
  -- texts, and null is no text.
  pub set_name-sensor :
      (id : ℤ) (text : Bytes) (line : Line)
      → J.is_text J.null ≡ false
      → (request J S.network put S.username
          (sensor_path J id ++ codes "/name")
          (J.set J.object (codes "name") (J.of_text text))
          S.min_delay
          line).0
        ≡ ok (confirmation J (sensor_path J id) text)
      → (set_name J S (sensor_path J id) id text line).0 ≡ ok false
  unfolding set_name
  set_name-sensor id text line null_text confirmed =
      rw (confirmed) (ap ok (confirms_name-sensor J laws texts id text null_text))
