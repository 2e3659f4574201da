-- ===== src/Entertainment.antt =====
-- `EntertainmentMode` of src/EntertainmentMode.cpp: the message with the colours of the lights, its sending,
-- and the connection. The functions of mbedtls, which is no part of the repository, are parameters.
pub mod Hex
pub mod Connection
pub mod Packet
pub mod Sending
mod Examples
use hueplusplus.Base.{
  ℕ, zero, suc, ◌+◌, ◌*◌, ◌/◌, ◌%◌, ◌^◌, List, [], ◌∷◌, ◌++◌, map, Bool, true, false, Bytes, codes,
  length, take, replicate, ltb, ◌==◌, Option, none, some, if◌then◌else◌, Result, ok, err, Error,
  ◌>>=◌,
}
use hueplusplus.Base.Int.{ℤ, pos, negsuc}
use hueplusplus.Std.Number.{to_string}
use hueplusplus.Json.{JsonLib}
use hueplusplus.Lights.{to_unsigned}
use hueplusplus.Bridge.{Bridge, Handler, start_streaming, stop_streaming}
use hueplusplus.Groups.{get_light_ids}

-- The members besides the context of TLS.
pub record Mode : Type 0 where
  pub bridge : Bridge
  pub group_id : ℤ
  pub message : Bytes
  pub num_lights : ℕ

abbrev pub header_size : ℕ
header_size = 16

abbrev pub light_size : ℕ
light_size = 9

-- Consecutive bytes of a buffer are assigned. What lies behind its end is left out, which is shown not
-- to happen.
abbrev pub overwrite : Bytes → Bytes → Bytes
overwrite [] message = message
overwrite (b ∷ bs) [] = []
overwrite (b ∷ bs) (c ∷ message) = b ∷ overwrite bs message

abbrev pub put_at : ℕ → Bytes → Bytes → Bytes
put_at zero bs message = overwrite bs message
put_at (suc n) bs [] = []
put_at (suc n) bs (c ∷ message) = c ∷ put_at n bs message

-- The first 16 bytes: the name, the version, the sequence, and the colour space RGB.
abbrev pub header : Bytes
header = codes "HueStream" ++ (1 ∷ 0 ∷ 0 ∷ 0 ∷ 0 ∷ 0 ∷ 0 ∷ [])

-- `id >> 8` and `id & 0xFF` as bytes
abbrev pub high_byte : ℤ → ℕ
high_byte (pos n) = to_unsigned 8 (pos (n / 256))
high_byte (negsuc n) = to_unsigned 8 (negsuc (n / 256))

abbrev pub low_byte : ℤ → ℕ
low_byte id = to_unsigned 8 id

-- The loop of the constructor over the lights, from the index on.
unfoldable pub fill : ℕ → List ℤ → Bytes → Bytes
fill index [] message = message
fill index (id ∷ ids) message = fill (suc index) ids (
    put_at (header_size + index * light_size)
      (0 ∷ high_byte id ∷ low_byte id ∷ 0 ∷ 0 ∷ 0 ∷ 0 ∷ 0 ∷ 0 ∷ []) message)

-- The number of lights is kept in a byte.
unfoldable pub first_message : List ℤ → Bytes
first_message ids =
    let n : ℕ = length ids % 256 in
    fill 0 (take n ids) (put_at 0 header (replicate (header_size + n * light_size) 0))

-- `setColorRGB`
unfoldable pub set_color_rgb : ℕ → ℕ → ℕ → ℕ → Mode → Bool × Mode
set_color_rgb index red green blue m =
    if ltb index m.num_lights
    then (
      true,
      record m {
        message =
            put_at (header_size + index * light_size + 3)
              (red ∷ red ∷ green ∷ green ∷ blue ∷ blue ∷ []) m.message;
      },
    )
    else (false, m)

-- `== 0` of a code
abbrev pub is_zero : ℤ → Bool
is_zero (pos zero) = true
is_zero (pos (suc n)) = false
is_zero (negsuc n) = false

module _ (J : JsonLib) (H : Handler J) (refresh_duration : ℤ) where
  -- The constructor. `seed` is what `mbedtls_ctr_drbg_seed` gives. The result of the first call is not read.
  unfoldable pub create : ℤ → Bridge → ℤ → J.Json → Result Mode
  create seed b id state = do
    started ← start_streaming J H refresh_duration b (to_string id)
    ids ← get_light_ids J state
    if is_zero seed
        then ok (record {
          bridge = b;
          group_id = id;
          message = first_message ids;
          num_lights = length ids % 256;
        })
        else err Error.hue_exception
