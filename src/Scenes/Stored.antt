-- ===== src/Scenes/Stored.antt =====
-- What `Scene` of src/Scene.cpp reads of its state.
use hueplusplus.Base.{
  Bool, List, [], ◌∷◌, Bytes, codes, bytes_eq, Option, none, some, if◌then◌else◌, Result, ok, err,
  Error, ◌>>=◌,
}
use hueplusplus.Base.Int.{ℤ, ltb_ℤ, eqb_ℤ}
use hueplusplus.Std.Number.{stoi}
use hueplusplus.Json.{JsonLib, value_or, at_key, or_throw}

-- `Scene::Type`
pub data SceneType : Type 0 where
  light_scene group_scene : SceneType

-- `emplace` of a map, which is the list of its entries in the order of the keys: a key that is there keeps
-- its value.
unfoldable pub emplace : {A : Type 0} → ℤ → A → List (ℤ × A) → List (ℤ × A)
emplace id state [] = (id, state) ∷ []
emplace id state ((k, v) ∷ rest) =
    let further = emplace id state rest in
    if ltb_ℤ id k
    then (id, state) ∷ (k, v) ∷ rest
    else if eqb_ℤ id k
    then (k, v) ∷ rest
    else (k, v) ∷ further

module _ (J : JsonLib) where
  -- `at(key).get<…>()`
  abbrev pub text_in : J.Json → Bytes → Result Bytes
  text_in state key = at_key J state key >>= λ v. or_throw (J.to_text v)

  abbrev pub bool_in : J.Json → Bytes → Result Bool
  bool_in state key = at_key J state key >>= λ v. or_throw (J.to_bool v)

  abbrev pub int_in : J.Json → Bytes → Result ℤ
  int_in state key = at_key J state key >>= λ v. or_throw (J.to_int v)

  abbrev pub get_name : J.Json → Result Bytes
  get_name state = text_in state (codes "name")

  abbrev pub get_type : J.Json → Result SceneType
  get_type state = value_or J J.to_text state (codes "type") (codes "LightScene") >>= λ type.
      if bytes_eq type (codes "LightScene")
      then ok light_scene
      else if bytes_eq type (codes "GroupScene")
      then ok group_scene
      else err Error.hue_exception

  abbrev pub get_group_id : J.Json → Result ℤ
  get_group_id state = value_or J J.to_text state (codes "group") (codes "0") >>= stoi

  -- The texts of a list, as numbers.
  unfoldable pub parse_ids : List J.Json → Result (List ℤ)
  parse_ids [] = ok []
  parse_ids (v ∷ vs) = do s ← or_throw (J.to_text v); id ← stoi s; ids ← parse_ids vs; ok (id ∷ ids)

  unfoldable pub get_light_ids : J.Json → Result (List ℤ)
  get_light_ids state = at_key J state (codes "lights") >>= λ lights. parse_ids (J.elements lights)

  abbrev pub get_owner : J.Json → Result Bytes
  get_owner state = text_in state (codes "owner")

  abbrev pub get_recycle : J.Json → Result Bool
  get_recycle state = bool_in state (codes "recycle")

  abbrev pub is_locked : J.Json → Result Bool
  is_locked state = bool_in state (codes "locked")

  abbrev pub get_appdata : J.Json → Result Bytes
  get_appdata state = at_key J state (codes "appdata") >>= λ v. text_in v (codes "data")

  abbrev pub get_appdata_version : J.Json → Result ℤ
  get_appdata_version state = at_key J state (codes "appdata") >>= λ v. int_in v (codes "version")

  abbrev pub get_picture : J.Json → Result Bytes
  get_picture state = value_or J J.to_text state (codes "picture") []

  abbrev pub get_version : J.Json → Result ℤ
  get_version state = int_in state (codes "version")

  -- The loop of `getLightStates`
  unfoldable pub emplace_states :
      List (Bytes × J.Json) → List (ℤ × J.Json) → Result (List (ℤ × J.Json))
  emplace_states [] result = ok result
  emplace_states ((key, state) ∷ rest) result =
      stoi key >>= λ id. emplace_states rest (emplace id state result)

  abbrev light_states_in : Option (List (Bytes × J.Json)) → Result (List (ℤ × J.Json))
  light_states_in none = err Error.json_exception
  light_states_in (some es) = emplace_states es []

  unfoldable pub get_light_states : J.Json → Result (List (ℤ × J.Json))
  get_light_states state = elim (J.find state (codes "lightstates")) [
    | none ↦ ok []
    | some states ↦ light_states_in (J.entries states)
  ]
