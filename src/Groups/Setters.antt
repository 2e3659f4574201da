-- ===== src/Groups/Setters.antt =====
-- `Group::setName`, `setLights` and `setRoomType` of src/Group.cpp, which refresh the cache of the group.
use hueplusplus.Base.{List, [], Bytes, codes}
use hueplusplus.Base.Int.{ℤ}
use hueplusplus.Json.{JsonLib}
use hueplusplus.Base.Action.{Action, ◌>>=◌}
use hueplusplus.Cache.{Surroundings}
use hueplusplus.Cache.Holder.{Holder, on_line, refresh_held}
use hueplusplus.Validation.{Floats}
use hueplusplus.Lights.{Site}
use hueplusplus.Groups.{send_put_request, light_texts}

-- The setters that change a group itself.
pub data Change : Type 0 where
  set_name : Bytes → Change
  set_lights : List ℤ → Change
  set_room_type : Bytes → Change

module _ (J : JsonLib) where
  -- The body of the request.
  unfoldable pub body_of : Change → J.Json
  body_of (set_name text) = J.set J.object (codes "name") (J.of_text text)
  body_of (set_lights ids) = J.set J.object (codes "lights") (light_texts J ids)
  body_of (set_room_type text) = J.set J.object (codes "class") (J.of_text text)

module _ (J : JsonLib) (F : Floats J) (S : Site J) (W : Surroundings J) (id : ℤ) where
  -- The setters, with `refresh(true)` behind the request.
  unfoldable pub change : Change → Action (Holder J) (Unit {0})
  change c = on_line J (send_put_request J F S id [] (body_of J c)) >>= λ reply. refresh_held J W
