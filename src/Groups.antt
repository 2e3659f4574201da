-- ===== src/Groups.antt =====
-- `Group` and `CreateGroup` of src/Group.cpp. The cache of a group is an interface, as for lights.
pub mod Effects
pub mod Ready
pub mod Sends
pub mod Setters
pub mod Fresh
mod Examples
use hueplusplus.Base.{
  ℕ, ◌-◌, Bool, true, false, List, [], ◌∷◌, ◌++◌, map, Bytes, codes, Option, none, some,
  if◌then◌else◌, Result, ok, err, ◌>>=◌, length, ◌==◌,
}
use hueplusplus.Base.Int.{ℤ}
use hueplusplus.Std.Number.{to_string, stoi}
use hueplusplus.Json.{JsonLib, at_key, or_throw}
use hueplusplus.Validation.{Floats}
use hueplusplus.Settings.{
  Setting, set_on, set_brightness, set_color_hue_saturation, set_color_xy_brightness,
  set_color_temperature, set_transition, set_color_loop,
}
use hueplusplus.Settings.Range.{requested}
use hueplusplus.Commands.{Line, request, put, combined_path}
use hueplusplus.Transaction.{Transaction, Committed, commit}
use hueplusplus.Lights.{Site, const_float_at, to_unsigned}
use hueplusplus.Lights.Color.{HueSaturation, XyBrightness}

-- The setters of the action of a group, with the time of the transition.
pub data ActionChange (J : JsonLib) : Type 0 where
  switch : Bool → ℕ → ActionChange J
  brighten : ℕ → ℕ → ActionChange J
  color : HueSaturation → ℕ → ActionChange J
  color_xy : XyBrightness J → ℕ → ActionChange J
  temperature : ℕ → ℕ → ActionChange J
  color_loop : Bool → ℕ → ActionChange J

module _ (J : JsonLib) where
  -- `at(key).get<…>()`
  abbrev text_in : J.Json → Bytes → Result Bytes
  text_in state key = at_key J state key >>= λ v. or_throw (J.to_text v)

  abbrev bool_in : J.Json → Bytes → Result Bool
  bool_in state key = at_key J state key >>= λ v. or_throw (J.to_bool v)

  abbrev int_in : J.Json → Bytes → Result ℤ
  int_in state key = at_key J state key >>= λ v. or_throw (J.to_int v)

  abbrev pub get_name : J.Json → Result Bytes
  get_name state = text_in state (codes "name")

  abbrev pub get_type : J.Json → Result Bytes
  get_type state = text_in state (codes "type")

  -- The loop of `getLightIds`, which leaves out what is null.
  unfoldable pub parse_lights : List J.Json → Result (List ℤ)
  parse_lights [] = ok []
  parse_lights (v ∷ vs) =
      let rest = parse_lights vs in
      if J.is_null v
      then rest
      else or_throw (J.to_text v) >>= stoi >>= λ id. rest >>= λ ids. ok (id ∷ ids)

  abbrev pub get_light_ids : J.Json → Result (List ℤ)
  get_light_ids state =
      at_key J state (codes "lights") >>= λ lights. parse_lights (J.elements lights)

  abbrev pub get_all_on : J.Json → Result Bool
  get_all_on state = at_key J state (codes "state") >>= λ s. bool_in s (codes "all_on")

  abbrev pub get_any_on : J.Json → Result Bool
  get_any_on state = at_key J state (codes "state") >>= λ s. bool_in s (codes "any_on")

  abbrev pub get_action_on : J.Json → Result Bool
  get_action_on state = at_key J state (codes "action") >>= λ a. bool_in a (codes "on")

  -- A `uint16_t` and a `uint8_t`
  abbrev pub get_action_hue_saturation : J.Json → Result (ℕ × ℕ)
  get_action_hue_saturation state = do
    action ← at_key J state (codes "action")
    hue ← int_in action (codes "hue")
    sat ← int_in action (codes "sat")
    ok (to_unsigned 16 hue, to_unsigned 8 sat)

  abbrev pub get_action_brightness : J.Json → Result ℕ
  get_action_brightness state =
      at_key J state (codes "action") >>= λ a. int_in a (codes "bri") >>= λ b. ok (to_unsigned 32 b)

  abbrev pub get_action_color_temperature : J.Json → Result ℕ
  get_action_color_temperature state =
      at_key J state (codes "action") >>= λ a. int_in a (codes "ct") >>= λ b. ok (to_unsigned 32 b)

  abbrev pub get_action_color_xy : J.Json → Result (J.Float × J.Float)
  get_action_color_xy state = do
    action ← at_key J state (codes "action")
    xy ← at_key J action (codes "xy")
    x ← const_float_at J xy 0
    y ← const_float_at J xy 1
    ok (x, y)

  abbrev pub get_action_color_mode : J.Json → Result Bytes
  get_action_color_mode state =
      at_key J state (codes "action") >>= λ a. text_in a (codes "colormode")

  abbrev pub get_room_type : J.Json → Result Bytes
  get_room_type state = text_in state (codes "class")

  abbrev pub get_model_id : J.Json → Result Bytes
  get_model_id state = text_in state (codes "modelid")

  abbrev pub get_unique_id : J.Json → Result Bytes
  get_unique_id state = text_in state (codes "uniqueid")

  -- The texts of numbers, in an array that may be empty.
  unfoldable pub light_texts : List ℤ → J.Json
  light_texts ids = J.array (map (λ id. J.of_text (to_string id)) ids)

  abbrev named : Bytes → J.Json → J.Json
  named name json = if length name == 0 then json else J.set json (codes "name") (J.of_text name)

  -- `CreateGroup::getRequest`
  unfoldable pub create_group : List ℤ → Bytes → Bytes → Bytes → J.Json
  create_group lights name type room_type =
      J.set
        (named name (
          J.set (J.set J.object (codes "lights") (light_texts lights)) (codes "type")
            (J.of_text type)))
        (codes "class") (J.of_text (if length room_type == 0 then codes "Other" else room_type))

  abbrev pub light_group : List ℤ → Bytes → J.Json
  light_group lights name = create_group lights name (codes "LightGroup") []

  abbrev pub room : List ℤ → Bytes → Bytes → J.Json
  room lights name room_type = create_group lights name (codes "Room") room_type

  abbrev pub entertainment : List ℤ → Bytes → J.Json
  entertainment lights name = create_group lights name (codes "Entertainment") []

  abbrev pub zone : List ℤ → Bytes → J.Json
  zone lights name = create_group lights name (codes "Zone") []

module _ (J : JsonLib) (F : Floats J) (S : Site J) (id : ℤ) where
  -- A call that gives nothing back, on the line.
  abbrev pub Sending : Type 0
  Sending = Line → Result (Unit {0}) × Line

  abbrev committed : Committed J F → Result (Unit {0}) × Line
  committed c = (c.result >>= λ _. ok tt, c.line)

  -- `transaction()`, setters, and `commit()`. The state is null, since it would not be that of all lights.
  unfoldable pub transact : List (Setting J) → Sending
  transact settings line = committed (
      commit J F S.network S.username S.min_delay true
        (record {
          path = codes "/groups/" ++ (to_string id ++ codes "/action");
          state = none;
          request = requested J F settings J.object;
        })
        line)

  -- A transaction with its setters that is never committed.
  abbrev dropped : List (Setting J) → Sending
  dropped settings line = let t = requested J F settings J.object in (ok tt, line)

  -- `setOn`, `setBrightness`, `setColor`, `setColorTemperature` and `setColorLoop`
  unfoldable pub change_action : ActionChange J → Sending
  change_action (switch on t) = transact (set_on on ∷ set_transition t ∷ [])
  change_action (brighten b t) = transact (set_brightness b ∷ set_transition t ∷ [])
  change_action (color c t) =
      transact (set_color_hue_saturation c.hue c.saturation ∷ set_transition t ∷ [])
  change_action (color_xy c t) =
      transact (set_color_xy_brightness c.x c.y c.brightness ∷ set_transition t ∷ [])
  change_action (temperature mired t) =
      transact (set_color_temperature mired ∷ set_transition t ∷ [])
  change_action (color_loop on t) = dropped (set_color_loop on ∷ set_transition t ∷ [])

  -- `sendPutRequest`
  abbrev pub send_put_request : Bytes → J.Json → Line → Result J.Json × Line
  send_put_request path body line =
      request J S.network put S.username (codes "/groups/" ++ (to_string id ++ path)) body
        S.min_delay line

  -- `setScene`
  abbrev pub set_scene : Bytes → Line → Result J.Json × Line
  set_scene scene =
      send_put_request (codes "/action") (J.set J.object (codes "scene") (J.of_text scene))

  -- `createSceneAction`
  unfoldable pub scene_action : Bytes → J.Json
  scene_action scene =
      J.set
        (J.set (J.set J.object (codes "method") (J.of_text (codes "PUT"))) (codes "address") (
          J.of_text
            (combined_path S.username (codes "/groups/" ++ (to_string id ++ codes "/action")))))
        (codes "body") (J.set J.object (codes "scene") (J.of_text scene))
