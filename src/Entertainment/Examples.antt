-- ===== src/Entertainment/Examples.antt =====
-- The theorems on the entertainment mode at inputs: a group of the lights 3 and 300.
use hueplusplus.Base.{
  ℕ, [], ◌∷◌, ◌≡◌, refl, arith, true, Bool, ltb, codes, ok, some, bytes_eq, if◌then◌else◌,
}
use hueplusplus.Base.Int.{ℤ, pos, negsuc}
use hueplusplus.Std.Number.{to_string, decimal, emit, stoi}
use hueplusplus.Json.Value.{Value, obj, arr, field, stop, cons, nil, text, flag, values_lib, equal}
use hueplusplus.Bridge.{Bridge, Handler, safe_get_member, start_streaming}
use hueplusplus.Groups.{parse_lights}
use hueplusplus.Entertainment.{Mode, create, first_message, fill, set_color_rgb}
use hueplusplus.Entertainment.Hex.{hex_to_bytes, hex_to_bytes-to_hex}
use hueplusplus.Entertainment.Packet.{dark, packet, Says, create-Says, set_color_rgb-Says}
use hueplusplus.Entertainment.Sending.{update, update_ends}
use hueplusplus.Entertainment.Connection.{Tls}

abbrev bridge : Bridge
bridge = record { ip = codes "b"; port = pos 80; username = codes "u"; clientkey = codes "AF" }

abbrev streaming : Value
streaming = arr (
    cons
      (obj (
        field (codes "success") (obj (field (codes "/groups/1/stream/active") (flag true) stop))
          stop))
      nil)

abbrev handler : Handler values_lib
handler = record {
  post = λ n ip port uri body. ok streaming;
  put = λ ip port uri body. ok streaming;
  clock = λ n. 0;
  state_of = λ u. record { now = λ n. pos 5; answer = λ n path. ok streaming };
}

abbrev group : Value
group =
    obj
      (field (codes "lights") (arr (cons (text (codes "3")) (cons (text (codes "300")) nil))) stop)

abbrev mode : Mode
mode = record {
  bridge = bridge;
  group_id = pos 1;
  message = packet (dark (pos 3) ∷ dark (pos 300) ∷ []);
  num_lights = 2;
}

create-Says_example : Says mode (dark (pos 3) ∷ dark (pos 300) ∷ [])
unfolding create start_streaming safe_get_member bytes_eq equal parse_lights first_message fill stoi
    to_string decimal emit
create-Says_example =
    create-Says values_lib handler (pos 0) (pos 0) bridge (pos 1) group (pos 3 ∷ pos 300 ∷ []) mode
      refl refl

set_color_rgb-Says_example :
    ((set_color_rgb 1 255 128 0 mode).0 ≡ true)
    × Says
        (set_color_rgb 1 255 128 0 mode).1
        (dark (pos 3) ∷ record { id = pos 300; red = 255; green = 128; blue = 0 } ∷ [])
set_color_rgb-Says_example =
    set_color_rgb-Says 1 255 128 0 mode (dark (pos 3) ∷ dark (pos 300) ∷ [])
      (record { message_is = refl; lights = refl })

hex_to_bytes-to_hex_example : hex_to_bytes (codes "AF05") ≡ 0xaf ∷ 5 ∷ []
hex_to_bytes-to_hex_example = hex_to_bytes-to_hex (0xaf ∷ 5 ∷ []) (omega arith)

-- A transport that takes ten bytes at once.
abbrev ten : ℕ → ℕ → ℕ → ℤ
ten n offset size = pos 10

update_ends_example : (b : Bool) × ((update ten 35 34).result ≡ some b)
update_ends_example = update_ends ten (λ n offset size. (omega arith, omega arith)) 34 (omega arith)

-- A handshake that has to wait for the other end once, and fails.
abbrev refusing : Tls
refusing = record {
  net_connect = λ host port. pos 0;
  config_defaults = pos 0;
  conf_psk = λ key identity. pos 0;
  setup = pos 0;
  set_hostname = λ host. pos 0;
  handshake = λ n. if ltb n 1 then negsuc 0x68ff else negsuc 1;
}
