-- ===== src/Cache/Examples.antt =====
-- The theorems on caches at inputs: a bridge's state with one list and one light.
use hueplusplus.Base.{
  [], ◌∷◌, ◌≡◌, inl, refl, arith, true, false, Bytes, codes, bytes_eq, ok, err, Error,
  if◌then◌else◌,
}
use hueplusplus.Base.Int.{pos, ◌+ℤ◌, ◌-ℤ◌, ltb_ℤ}
use hueplusplus.Json.Value.{Value, obj, field, stop, flag, values_lib}
use hueplusplus.Cache.{
  Surroundings, World, Info, own, on_base, caught_up, is_due, fetch, answered, store, store_in,
  refresh, get_value, cached, request_path,
}
use hueplusplus.Cache.Requests.{Concerns, get_value-sent}
use hueplusplus.Cache.Reads.{get_value_own}
use hueplusplus.Cache.Nested.{Throws, get_value_nested}

abbrev light_state : Value
light_state = obj (field (codes "on") (flag true) stop)

abbrev lights_state : Value
lights_state = obj (field (codes "1") light_state stop)

abbrev bridge_state : Value
bridge_state = obj (field (codes "lights") lights_state stop)

-- The clock stands at 1000, and every answer is the state of the lights.
abbrev surroundings : Surroundings values_lib
surroundings = record { now = λ n. pos 1000; answer = λ n path. ok lights_state }

abbrev start : World
start = record { readings = 0; sent = [] }

abbrev bridge : Info values_lib
bridge = own values_lib (codes "") (pos 100) bridge_state (pos 950)

abbrev lights : Info values_lib
lights = on_base values_lib bridge (codes "lights") (pos 100)

abbrev light : Info values_lib
light = on_base values_lib lights (codes "1") (pos 100)

abbrev old_lights : Info values_lib
old_lights = on_base values_lib bridge (codes "lights") (pos 10)

methods : Unit {0}
unfolding is_due refresh fetch answered store store_in get_value cached request_path bytes_eq ◌+ℤ◌
    ◌-ℤ◌
methods = tt

-- The light is cached, and still `getValue` throws: its list keeps no value of its own.
light_is_cached : cached values_lib light (lights ∷ bridge ∷ []) ≡ ok light_state
unfolding methods
light_is_cached = refl

light_throws :
    (get_value values_lib surroundings light (lights ∷ bridge ∷ []) start).result
    ≡ err Error.hue_exception
unfolding methods
light_throws = refl

light_path : request_path values_lib light (lights ∷ bridge ∷ []) ≡ codes "/lights/1"
unfolding methods
light_path = refl

-- The list alone is read from the bridge's state.
lights_value :
    (get_value values_lib surroundings lights (bridge ∷ []) start).result ≡ ok lights_state
unfolding methods
lights_value = refl

get_value_nested_example :
    Throws values_lib surroundings
      (get_value values_lib surroundings light (lights ∷ bridge ∷ []) start).result
unfolding methods
get_value_nested_example =
    get_value_nested values_lib surroundings light lights bridge [] start refl (inl refl)

get_value-sent_example :
    ((is_due values_lib surroundings (caught_up values_lib old_lights (bridge ∷ [])) start).0
        ≡ false
      → (get_value values_lib surroundings old_lights (bridge ∷ []) start).world.sent ≡ [])
    × ((is_due values_lib surroundings (caught_up values_lib old_lights (bridge ∷ [])) start).0
          ≡ true
        → (p : Bytes) × ((get_value values_lib surroundings old_lights
              (bridge ∷ [])
              start).world.sent
            ≡ p ∷ [])
          × Concerns p old_lights (bridge ∷ []))
get_value-sent_example = get_value-sent values_lib surroundings old_lights (bridge ∷ []) start

get_value_own_example :
    (get_value values_lib surroundings bridge [] start).result
    ≡ (if ltb_ℤ (pos 1000) (pos 950 +ℤ pos 100) then ok bridge_state else ok lights_state)
unfolding ◌+ℤ◌
get_value_own_example = get_value_own values_lib surroundings bridge start (omega arith)
