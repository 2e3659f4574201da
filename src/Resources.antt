-- ===== src/Resources.antt =====
-- `ResourceList` of include/hueplusplus/ResourceList.h with its three descendants: resources of the bridge
-- under their ids. The constructor or the factory of a resource is a parameter.
pub mod Created
pub mod NewDevices
mod Examples
use hueplusplus.Base.{
  ℕ, List, [], ◌∷◌, ◌++◌, map, Bool, true, false, not, ◌&&◌, ◌||◌, Bytes, codes, bytes_eq, Option,
  none, some, length, drop, ◌==◌, if◌then◌else◌, Result, ok, err, Error, ◌≡◌, refl,
}
use hueplusplus.Base.Action.{Action, lift, and_then}
use hueplusplus.Base.Int.{ℤ, pos, eqb_ℤ}
use hueplusplus.Std.Number.{to_string, stoi}
use hueplusplus.Std.Number.Whole.{IsInt, stoi-to_string}
use hueplusplus.Std.Text.{begins_with}
use hueplusplus.Json.{JsonLib, has, at_key, or_throw}
use hueplusplus.Bridge.{Key, name, index, safe_get_member}
use hueplusplus.Cache.{Surroundings, request_path}
use hueplusplus.Cache.Holder.{Holder, on_line, refresh_held, get_held, peek_held}
use hueplusplus.Commands.{Line, request, get, post, delete}
use hueplusplus.Lights.{Site}

-- The type of the ids: `maybeStoi`, `maybeToString`, and `IdType {}`.
pub record IdType : Type 1 where
  pub Ids : Type 0
  pub of_key : Bytes → Result Ids
  pub to_key : Ids → Bytes
  pub empty : Ids
  pub IsValid : Ids → Type 0
  pub of_key-to_key : (id : Ids) → IsValid id → of_key (to_key id) ≡ ok id

abbrev pub numbers : IdType
numbers = record {
  Ids = ℤ;
  of_key = stoi;
  to_key = to_string;
  empty = pos 0;
  IsValid = IsInt;
  of_key-to_key = stoi-to_string;
}

abbrev pub texts : IdType
texts = record {
  Ids = Bytes;
  of_key = λ key. ok key;
  to_key = λ id. id;
  empty = [];
  IsValid = λ id. Unit {0};
  of_key-to_key = λ id valid. refl;
}

module _ (J : JsonLib) where
  -- `construct`: it throws where there is neither a fitting constructor nor a factory.
  abbrev pub construct {ℓ} :
      {Ids : Type 0} {R : Type ℓ} → Option (Ids → J.Json → Result R) → Ids → J.Json → Result R
  construct none id state = err Error.hue_exception
  construct (some make) id state = make id state

module _ (J : JsonLib) (I : IdType) (R : Type 0) (make : Option (I.Ids → J.Json → Result R)) where
  -- The loop of `getAll`
  unfoldable pub build_all : List (Bytes × J.Json) → Result (List R)
  build_all [] = ok []
  build_all ((key, state) ∷ rest) = elim (I.of_key key) [
    | err e ↦ err e
    | ok id ↦ elim (construct J make id state) [
      | err e ↦ err e
      | ok r ↦ elim (build_all rest) [ err e ↦ err e | ok rs ↦ ok (r ∷ rs) ]
    ]
  ]

  unfoldable pub all_of : J.Json → Result (List R)
  all_of state = elim (J.entries state) [ none ↦ err Error.json_exception | some es ↦ build_all es ]

  unfoldable pub one_of : I.Ids → J.Json → Result R
  one_of id state = elim (J.find state (I.to_key id)) [
    | none ↦ err Error.hue_exception
    | some v ↦ construct J make id v
  ]

-- The erased prefix of `create`
abbrev pub without_path : Bytes → Bytes → Bytes
without_path path key = if begins_with path key then drop (length path) key else key

module _ (J : JsonLib) where
  -- The id in the reply to `create`
  abbrev pub created_id : J.Json → J.Json
  created_id response =
      safe_get_member J response (index 0 ∷ name (codes "success") ∷ name (codes "id") ∷ [])

module _ (J : JsonLib) (W : Surroundings J) (I : IdType) where
  -- `getAll`, `get` and `exists`
  abbrev pub get_all :
      (R : Type 0) → Option (I.Ids → J.Json → Result R) → Action (Holder J) (List R)
  get_all R make s = and_then (λ state. lift (all_of J I R make state)) (get_held J W s)

  abbrev pub get_one :
      (R : Type 0) → Option (I.Ids → J.Json → Result R) → I.Ids → Action (Holder J) R
  get_one R make id s = and_then (λ state. lift (one_of J I R make id state)) (get_held J W s)

  abbrev pub exists : I.Ids → Action (Holder J) Bool
  exists id s = and_then (λ state. lift (ok (has J state (I.to_key id)))) (get_held J W s)

  -- `exists` of a constant list
  abbrev pub exists_cached : I.Ids → Holder J → Result Bool
  exists_cached id s = elim (peek_held J s) [
    | err e ↦ err e
    | ok state ↦ ok (has J state (I.to_key id))
  ]

module _ (J : JsonLib) where
  -- The path of the cache, and the member `path`
  abbrev pub base_path : Holder J → Bytes
  base_path s = request_path J s.top s.bases

  abbrev pub list_path : Holder J → Bytes
  list_path s = base_path s ++ codes "/"

module _ (J : JsonLib) (S : Site J) (W : Surroundings J) (I : IdType) where
  -- `remove`
  abbrev deleted : Bytes → J.Json → Bool
  deleted path result =
      J.equal (safe_get_member J result (index 0 ∷ name (codes "success") ∷ []))
        (J.of_text (path ++ codes " deleted"))

  unfoldable pub remove : I.Ids → Action (Holder J) Bool
  remove id s =
      let path : Bytes = list_path J s ++ I.to_key id in
      and_then (λ result. lift (ok (deleted path result)))
        (on_line J (request J S.network delete S.username path J.object S.min_delay) s)

  -- `search`
  unfoldable pub search : List Bytes → Action (Holder J) J.Json
  search device_ids s =
      on_line J
        (request J S.network post S.username (base_path J s)
          (if length device_ids == 0
            then J.object
            else J.set J.object (codes "deviceid") (J.array (map J.of_text device_ids)))
          S.min_delay)
        s

  abbrev take_id : Bytes → J.Json → Action (Holder J) I.Ids
  take_id path id s =
      if J.is_text id
      then and_then
          (λ key s'. and_then (λ _. lift (I.of_key (without_path path key))) (refresh_held J W s'))
          (or_throw (J.to_text id), s)
      else (ok I.empty, s)

  -- `create`, with what `getRequest()` of the parameters gives
  unfoldable pub create : J.Json → Action (Holder J) I.Ids
  create params s =
      and_then (λ response. take_id (list_path J s) (created_id J response))
        (on_line J (request J S.network post S.username (base_path J s) params S.min_delay) s)

module _ (J : JsonLib) (W : Surroundings J) (braced : J.Json) where
  -- `get` and `exists` of a `GroupResourceList`, where group 0 is no entry. Compilers read
  -- `nlohmann::json {nullptr}` as null or as an array of null, and so it is a parameter.
  abbrev one_group : (R : Type 0) → Option (ℤ → J.Json → Result R) → ℤ → J.Json → Result R
  one_group R make id state =
      if eqb_ℤ id (pos 0) then construct J make id braced else one_of J numbers R make id state

  unfoldable pub get_group : (R : Type 0) → Option (ℤ → J.Json → Result R) → ℤ → Action (Holder J) R
  get_group R make id s = and_then (λ state. lift (one_group R make id state)) (get_held J W s)

module _ (J : JsonLib) (W : Surroundings J) where
  unfoldable pub exists_group : ℤ → Holder J → Result Bool
  exists_group id s = if eqb_ℤ id (pos 0) then ok true else exists_cached J W numbers id s
