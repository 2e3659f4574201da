-- ===== src/Devices/Examples.antt =====
-- The theorems on devices at inputs.
use hueplusplus.Base.{refl, true, some, codes, bytes_eq}
use hueplusplus.Json.Value.{Value, obj, field, stop, text, values_lib}
use hueplusplus.Bridge.{safe_get_member}
use hueplusplus.Lights.{extended}
use hueplusplus.Devices.{
  Made, extended_temperature, gamut_c_temperature, by_gamut, by_model, get_color_type, equip,
  create_light,
}
use hueplusplus.Devices.Capable.{Capable, create_light-Capable}

abbrev lamp : Value
lamp = obj (
    field (codes "type") (text (codes "Extended Color Light"))
      (field (codes "modelid") (text (codes "LCT015")) stop))

abbrev made : Made
made = record {
  has_brightness_control = true;
  temperature_strategy = some extended_temperature;
  hue_strategy = some extended;
  color_type = gamut_c_temperature;
}

create_light-Capable_example : Capable made
unfolding bytes_eq by_gamut by_model get_color_type equip create_light safe_get_member
create_light-Capable_example = create_light-Capable values_lib lamp made refl
