-- ===== src/Scenes/Create.antt =====
-- `CreateScene` of src/Scene.cpp: the request for a new scene.
use hueplusplus.Base.{
  Bool, List, [], ◌∷◌, map, Bytes, codes, if◌then◌else◌, Result, ok, err, Error, ◌>>=◌,
}
use hueplusplus.Base.Int.{ℤ}
use hueplusplus.Std.Number.{to_string}
use hueplusplus.Json.{JsonLib, has}
use hueplusplus.Rules.{pushed}

-- The setters. A map from numbers to light states is the list of its entries in the order of the numbers.
pub data Call (J : JsonLib) : Type 0 where
  set_name : Bytes → Call J
  set_group_id : ℤ → Call J
  set_light_ids : List ℤ → Call J
  set_recycle : Bool → Call J
  set_appdata : Bytes → ℤ → Call J
  set_light_states : List (ℤ × J.Json) → Call J

module _ (J : JsonLib) where
  -- Null, or the array of the texts of the numbers
  unfoldable pub id_list : List ℤ → J.Json
  id_list ids = pushed J (map (λ id. J.of_text (to_string id)) ids)

  abbrev pub appdata : Bytes → ℤ → J.Json
  appdata text version =
      J.set (J.set J.object (codes "data") (J.of_text text)) (codes "version") (J.of_int version)

  -- Null, or the object of the light states
  abbrev pub states_json : List (ℤ × J.Json) → J.Json → J.Json
  states_json [] json = json
  states_json ((id, state) ∷ rest) json = states_json rest (J.set json (to_string id) state)

  unfoldable pub call_setter : Call J → J.Json → Result J.Json
  call_setter (set_name name) request = ok (J.set request (codes "name") (J.of_text name))
  call_setter (set_group_id id) request =
      if has J request (codes "lights")
      then err Error.hue_exception
      else ok (
          J.set (J.set request (codes "group") (J.of_text (to_string id))) (codes "type")
            (J.of_text (codes "GroupScene")))
  call_setter (set_light_ids ids) request =
      if has J request (codes "group")
      then err Error.hue_exception
      else ok (
          J.set (J.set request (codes "lights") (id_list ids)) (codes "type")
            (J.of_text (codes "LightScene")))
  call_setter (set_recycle recycle) request =
      ok (J.set request (codes "recycle") (J.of_bool recycle))
  call_setter (set_appdata text version) request =
      ok (J.set request (codes "appdata") (appdata text version))
  call_setter (set_light_states states) request =
      ok (J.set request (codes "lightstates") (states_json states J.null))

  -- The setters in their order; an exception ends them.
  unfoldable pub call_all : List (Call J) → J.Json → Result J.Json
  call_all [] request = ok request
  call_all (call ∷ calls) request = call_setter call request >>= call_all calls

  -- A new `CreateScene`, its setters and `getRequest`
  abbrev pub create_scene : List (Call J) → Result J.Json
  create_scene calls = call_all calls J.null
