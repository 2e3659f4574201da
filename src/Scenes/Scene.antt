-- ===== src/Scenes/Scene.antt =====
-- The class `Scene` of src/Scene.cpp: its setters and `recall`. Its cache is an interface, as for lights; the
-- constant getters read what the cache has.
use hueplusplus.Base.{true, List, [], ◌++◌, Bytes, codes, ok}
use hueplusplus.Base.Action.{lift, ◌>>=◌}
use hueplusplus.Base.Int.{ℤ, pos}
use hueplusplus.Std.Number.{to_string}
use hueplusplus.Json.{JsonLib}
use hueplusplus.Commands.{request, put}
use hueplusplus.Lights.{CacheOf, Site, Act, get_value, peek_value}
use hueplusplus.Scenes.Create.{id_list, appdata, states_json}
use hueplusplus.Scenes.Stored.{SceneType, light_scene, group_scene, get_type, get_group_id}

-- The setters of `Scene`
pub data Change (J : JsonLib) : Type 0 where
  set_name : Bytes → Change J
  set_light_ids : List ℤ → Change J
  set_appdata : Bytes → ℤ → Change J
  set_light_states : List (ℤ × J.Json) → Change J
  store_current_light_state : Change J
  store_current_light_state_with : ℤ → Change J

module _ (J : JsonLib) where
  abbrev single : Bytes → J.Json → J.Json
  single key v = J.set J.object key v

  -- The body of the request of a setter
  unfoldable pub body_of : Change J → J.Json
  body_of (set_name name) = single (codes "name") (J.of_text name)
  body_of (set_light_ids ids) = single (codes "lights") (id_list J ids)
  body_of (set_appdata text version) = single (codes "appdata") (appdata J text version)
  body_of (set_light_states states) = single (codes "lightstates") (states_json J states J.null)
  body_of store_current_light_state = single (codes "storelightstate") (J.of_bool true)
  body_of (store_current_light_state_with transition) =
      J.set (single (codes "storelightstate") (J.of_bool true)) (codes "transitiontime")
        (J.of_int transition)

module _ (J : JsonLib) (S : Site J) (C : CacheOf J) (id : Bytes) where
  abbrev put_request : Bytes → J.Json → Act J C J.Json
  put_request path body (cell, line) =
      let (result, after) = request J S.network put S.username path body S.min_delay line in
      (result, (cell, after))

  -- `sendPutRequest`
  abbrev send_put_request : Bytes → J.Json → Act J C J.Json
  send_put_request path body = put_request (codes "/scenes/" ++ (id ++ path)) body

  -- `refresh(false)`
  abbrev refresh : Act J C (Unit {0})
  refresh = get_value J C >>= λ _. lift (ok tt)

  -- A setter: a request, and a refresh that is not forced.
  unfoldable pub change : Change J → Act J C (Unit {0})
  change c = send_put_request [] (body_of J c) >>= λ _. refresh

  abbrev group_of : SceneType → Act J C ℤ
  group_of light_scene = lift (ok (pos 0))
  group_of group_scene = peek_value J C >>= λ state. lift (get_group_id J state)

  -- `recall`
  unfoldable pub recall : Act J C J.Json
  recall = do
    state ← peek_value J C
    type ← lift (get_type J state)
    group ← group_of type
    put_request (codes "/groups/" ++ (to_string group ++ codes "/action"))
        (single J (codes "scene") (J.of_text id))
