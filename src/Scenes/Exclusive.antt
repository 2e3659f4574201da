-- ===== src/Scenes/Exclusive.antt =====
-- A new scene is for a group or for lights, and never for both.
use hueplusplus.Base.{
  List, [], ◌∷◌, ◌≡◌, refl, sym, subst, ◌∙◌, Bool, true, false, ◌||◌, ◌&&◌, Bytes, codes, bytes_eq,
  Option, none, some, Result, ok, err, Error, ◌>>=◌, if◌then◌else◌, arith,
}
use hueplusplus.Base.Int.{ℤ}
use hueplusplus.Std.Number.{to_string}
use hueplusplus.Json.{JsonLib, ObjectLaws, has, takes_keys, is_object-takes_keys}
use hueplusplus.Scenes.Create.{
  Call, set_name, set_group_id, set_light_ids, set_recycle, set_appdata, set_light_states, id_list,
  call_setter, call_all, create_scene,
}

module _ (J : JsonLib) where
  -- Whether a group is among the setters, and whether lights are.
  abbrev pub sets_group : List (Call J) → Bool
  sets_group [] = false
  sets_group (set_group_id _ ∷ calls) = true
  sets_group (_ ∷ calls) = sets_group calls

  abbrev pub sets_lights : List (Call J) → Bool
  sets_lights [] = false
  sets_lights (set_light_ids _ ∷ calls) = true
  sets_lights (_ ∷ calls) = sets_lights calls

  abbrev type_for : Bool → Bool → Option J.Json
  type_for true lights = some (J.of_text (codes "GroupScene"))
  type_for false true = some (J.of_text (codes "LightScene"))
  type_for false false = none

  -- A request with a group or not, with lights or not, and with the type that fits.
  abbrev pub IsFor : Bool → Bool → J.Json → Type 0
  IsFor group lights request =
      (takes_keys J request ≡ true)
      × (has J request (codes "group") ≡ group)
      × (has J request (codes "lights") ≡ lights)
      × (J.find request (codes "type") ≡ type_for group lights)

  -- What the setters give.
  abbrev pub Expected : Bool → Bool → Result J.Json → Type 0
  Expected true true r = r ≡ err Error.hue_exception
  Expected true false r = (request : J.Json) × (r ≡ ok request) × IsFor true false request
  Expected false lights r = (request : J.Json) × (r ≡ ok request) × IsFor false lights request

  module _ (laws : ObjectLaws J) where
    has-set :
        (request v : J.Json) (k key : Bytes)
        → takes_keys J request ≡ true
        → has J (J.set request k v) key ≡ (if bytes_eq k key then true else has J request key)
    has-set request v k key takes = ground (arith, laws.find-set request k key v takes)

    set_takes :
        (request v : J.Json) (k : Bytes)
        → takes_keys J request ≡ true
        → takes_keys J (J.set request k v) ≡ true
    set_takes request v k takes = is_object-takes_keys J _ (laws.set_is request k v takes)

    set-IsFor :
        (group lights : Bool) (request v : J.Json) (k : Bytes)
        → bytes_eq k (codes "group") ≡ false
        → bytes_eq k (codes "lights") ≡ false
        → bytes_eq k (codes "type") ≡ false
        → IsFor group lights request
        → IsFor group lights (J.set request k v)
    set-IsFor group lights request v k g l t (takes, has_group, has_lights, type) = (
      set_takes request v k takes,
      ground (arith, has-set request v k (codes "group") takes, g, has_group),
      ground (arith, has-set request v k (codes "lights") takes, l, has_lights),
      ground (arith, laws.find-set request k (codes "type") v takes, t, type),
    )

    -- The key of a group or of lights, and the type.
    typed-IsFor :
        (group lights : Bool) (request v : J.Json) (k : Bytes) (type : Bytes)
        → takes_keys J request ≡ true
        → has J (J.set request k v) (codes "group") ≡ group
        → has J (J.set request k v) (codes "lights") ≡ lights
        → some (J.of_text type) ≡ type_for group lights
        → IsFor group lights (J.set (J.set request k v) (codes "type") (J.of_text type))
    unfolding bytes_eq
    typed-IsFor group lights request v k type takes g l t =
        let taken = set_takes request v k takes in
        (
          set_takes (J.set request k v) (J.of_text type) (codes "type") taken,
          has-set (J.set request k v) (J.of_text type) (codes "type") (codes "group") taken ∙ g,
          has-set (J.set request k v) (J.of_text type) (codes "type") (codes "lights") taken ∙ l,
          laws.find-set (J.set request k v) (codes "type") (codes "type") (J.of_text type) taken
              ∙ t,
        )

    as-Expected :
        (group lights : Bool) (request : J.Json)
        → (group && lights) ≡ false
        → IsFor group lights request
        → Expected (group || false) (lights || false) (ok request)
    as-Expected true true request both h = cc
    as-Expected true false request both h = (request, refl, h)
    as-Expected false true request both h = (request, refl, h)
    as-Expected false false request both h = (request, refl, h)

    group-IsFor :
        (request : J.Json) (id : ℤ)
        → takes_keys J request ≡ true
        → has J request (codes "lights") ≡ false
        → IsFor true false (
            J.set
              (J.set request (codes "group") (J.of_text (to_string id)))
              (codes "type")
              (J.of_text (codes "GroupScene")))
    unfolding bytes_eq
    group-IsFor request id takes l =
        typed-IsFor true false request _ (codes "group") (codes "GroupScene") takes
          (has-set request _ (codes "group") (codes "group") takes)
          (has-set request _ (codes "group") (codes "lights") takes ∙ l) refl

    lights-IsFor :
        (request : J.Json) (ids : List ℤ)
        → takes_keys J request ≡ true
        → has J request (codes "group") ≡ false
        → IsFor false true (
            J.set
              (J.set request (codes "lights") (id_list J ids))
              (codes "type")
              (J.of_text (codes "LightScene")))
    unfolding bytes_eq
    lights-IsFor request ids takes g =
        typed-IsFor false true request _ (codes "lights") (codes "LightScene") takes
          (has-set request _ (codes "lights") (codes "group") takes ∙ g)
          (has-set request _ (codes "lights") (codes "lights") takes) refl

    -- A setter that throws if a key is there.
    past_guard :
        (P : Result J.Json → Type 0) (b : Bool) (request : J.Json) (rest : J.Json → Result J.Json)
        → b ≡ false
        → P (rest request)
        → P ((if b then err Error.hue_exception else ok request) >>= rest)
    past_guard P b request rest gone p =
        subst (λ t. P ((if t then err Error.hue_exception else ok request) >>= rest)) (sym gone) p

    stopped :
        (b : Bool) (request : J.Json) (rest : J.Json → Result J.Json)
        → b ≡ true
        → ((if b then err Error.hue_exception else ok request) >>= rest) ≡ err Error.hue_exception
    stopped b request rest there = rw there

    calls-Expected :
        (calls : List (Call J)) (group lights : Bool) (request : J.Json)
        → (group && lights) ≡ false
        → IsFor group lights request
        → Expected
            (group || sets_group calls)
            (lights || sets_lights calls)
            (call_all J calls request)
    unfolding call_all call_setter bytes_eq
    calls-Expected [] group lights request both h = as-Expected group lights request both h
    calls-Expected (set_name name ∷ calls) group lights request both h =
        calls-Expected calls group lights _ both
          (set-IsFor group lights request _ (codes "name") refl refl refl h)
    calls-Expected (set_recycle recycle ∷ calls) group lights request both h =
        calls-Expected calls group lights _ both
          (set-IsFor group lights request _ (codes "recycle") refl refl refl h)
    calls-Expected (set_appdata text version ∷ calls) group lights request both h =
        calls-Expected calls group lights _ both
          (set-IsFor group lights request _ (codes "appdata") refl refl refl h)
    calls-Expected (set_light_states states ∷ calls) group lights request both h =
        calls-Expected calls group lights _ both
          (set-IsFor group lights request _ (codes "lightstates") refl refl refl h)
    calls-Expected (set_group_id id ∷ calls) true true request both h = cc
    calls-Expected (set_group_id id ∷ calls) false true request both (takes, g, l, t) =
        stopped _ _ (call_all J calls) l
    calls-Expected (set_group_id id ∷ calls) true false request both (takes, g, l, t) =
        past_guard (Expected true (sets_lights calls)) _ _ (call_all J calls) l
          (calls-Expected calls true false _ refl (group-IsFor request id takes l))
    calls-Expected (set_group_id id ∷ calls) false false request both (takes, g, l, t) =
        past_guard (Expected true (sets_lights calls)) _ _ (call_all J calls) l
          (calls-Expected calls true false _ refl (group-IsFor request id takes l))
    calls-Expected (set_light_ids ids ∷ calls) true true request both h = cc
    calls-Expected (set_light_ids ids ∷ calls) true false request both (takes, g, l, t) =
        stopped _ _ (call_all J calls) g
    calls-Expected (set_light_ids ids ∷ calls) false true request both (takes, g, l, t) =
        past_guard (Expected (sets_group calls) true) _ _ (call_all J calls) g
          (calls-Expected calls false true _ refl (lights-IsFor request ids takes g))
    calls-Expected (set_light_ids ids ∷ calls) false false request both (takes, g, l, t) =
        past_guard (Expected (sets_group calls) true) _ _ (call_all J calls) g
          (calls-Expected calls false true _ refl (lights-IsFor request ids takes g))

    -- Whatever setters a new CreateScene is given, in which order: if a group and lights are among
    -- them, a HueException leaves one of the setters; and else none throws, and the request has the
    -- entry "group" exactly if a group is among them, "lights" exactly if lights are, and the type
    -- "GroupScene", "LightScene" or none that fits. The JSON library keeps the laws of objects.
    pub create_scene-Expected :
        (calls : List (Call J))
        → Expected (sets_group calls) (sets_lights calls) (create_scene J calls)
    create_scene-Expected calls = calls-Expected calls false false J.null refl (
      ground (arith, laws.null_is),
      ground (arith, laws.find-null (codes "group")),
      ground (arith, laws.find-null (codes "lights")),
      laws.find-null (codes "type"),
    )
