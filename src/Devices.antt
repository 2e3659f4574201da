-- ===== src/Devices.antt =====
-- `LightFactory` of src/HueDeviceTypes.cpp: which strategies and which type of colour a light of the
-- bridge is given, and what src/BaseDevice.cpp reads of a device's state. The cache that a light is
-- constructed with is not part of it.
pub mod Capable
pub mod Renamed
mod Examples
use hueplusplus.Base.{
  ℕ, ◌+◌, List, [], ◌∷◌, ◌++◌, map, Bool, true, false, ◌&&◌, ◌||◌, Option, none, some, Bytes, codes,
  bytes_eq, leb, if◌then◌else◌, Result, ok, err, Error, ◌>>=◌,
}
use hueplusplus.Base.Int.{ℤ}
use hueplusplus.Std.Number.{to_string}
use hueplusplus.Json.{JsonLib, value_or, at_key, or_throw}
use hueplusplus.Bridge.{Key, name, index, safe_get_member}
use hueplusplus.Commands.{Line, request, put}
use hueplusplus.Lights.{HueStrategy, simple, extended, Site}

-- `ColorType`
pub data ColorType : Type 0 where
  undefined no_color temperature : ColorType
  gamut_a gamut_b gamut_c gamut_other : ColorType
  gamut_a_temperature gamut_b_temperature gamut_c_temperature gamut_other_temperature : ColorType

-- The two classes of a `ColorTemperatureStrategy`.
pub data TemperatureStrategy : Type 0 where
  simple_temperature extended_temperature : TemperatureStrategy

-- What `createLight` sets in a light. A strategy may be null, and there is one class for brightness.
pub record Made : Type 0 where
  pub has_brightness_control : Bool
  pub temperature_strategy : Option TemperatureStrategy
  pub hue_strategy : Option HueStrategy
  pub color_type : ColorType

-- `std::tolower` of a byte, in the "C" locale
abbrev pub lower : ℕ → ℕ
lower c = if leb b'A' c && leb c b'Z' then c + 32 else c

-- `count` of a `std::set`, as a test
abbrev pub among : List Bytes → Bytes → Bool
among [] s = false
among (t ∷ ts) s = bytes_eq t s || among ts s

abbrev gamut_a_types : List Bytes
gamut_a_types =
    codes "LST001"
    ∷ codes "LLC005"
    ∷ codes "LLC006"
    ∷ codes "LLC007"
    ∷ codes "LLC010"
    ∷ codes "LLC011"
    ∷ codes "LLC012"
    ∷ codes "LLC013"
    ∷ codes "LLC014"
    ∷ []

abbrev gamut_b_types : List Bytes
gamut_b_types =
    codes "LCT001" ∷ codes "LCT002" ∷ codes "LCT003" ∷ codes "LCT007" ∷ codes "LLM001" ∷ []

abbrev gamut_c_types : List Bytes
gamut_c_types =
    codes "LCT010"
    ∷ codes "LCT011"
    ∷ codes "LCT012"
    ∷ codes "LCT014"
    ∷ codes "LCT015"
    ∷ codes "LCT016"
    ∷ codes "LLC020"
    ∷ codes "LST002"
    ∷ codes "LCA003"
    ∷ codes "LCB001"
    ∷ []

-- The branches of `getColorType` on a gamut.
unfoldable pub by_gamut : Bool → Bytes → ColorType
by_gamut has_ct gamut =
    if bytes_eq gamut (codes "A")
    then if has_ct then gamut_a_temperature else gamut_a
    else if bytes_eq gamut (codes "B")
    then if has_ct then gamut_b_temperature else gamut_b
    else if bytes_eq gamut (codes "C")
    then if has_ct then gamut_c_temperature else gamut_c
    else if has_ct
    then gamut_other_temperature
    else gamut_other

-- The branches of `getColorType` on the model.
unfoldable pub by_model : Bool → Bytes → ColorType
by_model has_ct model =
    if among gamut_a_types model
    then if has_ct then gamut_a_temperature else gamut_a
    else if among gamut_b_types model
    then if has_ct then gamut_b_temperature else gamut_b
    else if among gamut_c_types model
    then if has_ct then gamut_c_temperature else gamut_c
    else undefined

module _ (J : JsonLib) where
  -- `getColorType`
  unfoldable pub get_color_type : J.Json → Bool → Result ColorType
  get_color_type state has_ct =
      let gamut = safe_get_member J state (
        name (codes "capabilities")
        ∷ name (codes "control")
        ∷ name (codes "colorgamuttype")
        ∷ []) in
      if J.is_text gamut
      then or_throw (J.to_text gamut) >>= (λ g. ok (by_gamut has_ct g))
      else at_key J state (codes "modelid") >>= λ v.
          or_throw (J.to_text v) >>= λ m. ok (by_model has_ct m)

  -- A light with colours.
  abbrev pub of_colors : Option TemperatureStrategy → HueStrategy → ColorType → Made
  of_colors heat hue color = record {
    has_brightness_control = true;
    temperature_strategy = heat;
    hue_strategy = some hue;
    color_type = color;
  }

  -- The branches of `createLight` on the type in lower case.
  unfoldable pub equip : J.Json → Bytes → Result Made
  equip state type =
      if bytes_eq type (codes "on/off light") || bytes_eq type (codes "on/off plug-in unit")
      then ok (record {
        has_brightness_control = false;
        temperature_strategy = none;
        hue_strategy = none;
        color_type = no_color;
      })
      else if bytes_eq type (codes "dimmable light")
          || bytes_eq type (codes "dimmable plug-in unit")
      then ok (record {
        has_brightness_control = true;
        temperature_strategy = none;
        hue_strategy = none;
        color_type = no_color;
      })
      else if bytes_eq type (codes "color temperature light")
      then ok (record {
        has_brightness_control = true;
        temperature_strategy = some simple_temperature;
        hue_strategy = none;
        color_type = temperature;
      })
      else if bytes_eq type (codes "color light")
      then get_color_type state false >>= (λ color. ok (of_colors none simple color))
      else if bytes_eq type (codes "extended color light")
      then get_color_type state true
        >>= (λ color. ok (of_colors (some extended_temperature) extended color))
      else err Error.hue_exception

  -- `createLight`
  unfoldable pub create_light : J.Json → Result Made
  create_light state =
      value_or J J.to_text state (codes "type") [] >>= λ type. equip state (map lower type)

  -- The getters of `BaseDevice`.
  abbrev text_in : J.Json → Bytes → Result Bytes
  text_in state key = at_key J state key >>= λ v. or_throw (J.to_text v)

  abbrev text_or_empty : J.Json → Bytes → Result Bytes
  text_or_empty state key = value_or J J.to_text state key []

  abbrev pub get_type : J.Json → Result Bytes
  get_type state = text_in state (codes "type")

  abbrev pub get_name : J.Json → Result Bytes
  get_name state = text_in state (codes "name")

  abbrev pub get_model_id : J.Json → Result Bytes
  get_model_id state = text_in state (codes "modelid")

  abbrev pub get_unique_id : J.Json → Result Bytes
  get_unique_id state = text_or_empty state (codes "uniqueid")

  abbrev pub get_manufacturername : J.Json → Result Bytes
  get_manufacturername state = text_or_empty state (codes "manufacturername")

  abbrev pub get_productname : J.Json → Result Bytes
  get_productname state = text_or_empty state (codes "productname")

  abbrev pub get_sw_version : J.Json → Result Bytes
  get_sw_version state = text_in state (codes "swversion")

  -- How `setName` reads the reply.
  abbrev pub confirms_name : ℤ → J.Json → Bool
  confirms_name id reply = J.is_text (
      safe_get_member J reply (
        index 0
        ∷ name (codes "success")
        ∷ name (codes "/lights/" ++ (to_string id ++ codes "/name"))
        ∷ []))

module _ (J : JsonLib) (S : Site J) where
  -- `sendPutRequest`, where `path` is what `getRequestPath()` of the cache gives.
  abbrev pub send_put_request : Bytes → Bytes → J.Json → Line → Result J.Json × Line
  send_put_request path sub_path body line =
      request J S.network put S.username (path ++ sub_path) body S.min_delay line

  -- `setName`
  unfoldable pub set_name : Bytes → ℤ → Bytes → Line → Result Bool × Line
  set_name path id text line =
      let (reply, after) =
        send_put_request path (codes "/name") (J.set J.object (codes "name") (J.of_text text))
          line in
      (reply >>= λ r. ok (confirms_name J id r), after)
