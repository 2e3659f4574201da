-- ===== src/Entertainment/Hex.antt =====
-- `hexToBytes` of src/EntertainmentMode.cpp, with `strtol` of the C library for base 16.
use hueplusplus.Base.{
  ℕ, ◌+◌, ◌-◌, ◌*◌, ◌/◌, ◌%◌, ◌<◌, ◌≡◌, refl, ap, ap₂, ◌∙◌, arith, [], ◌∷◌, ◌&&◌, Bytes, All, ltb,
  leb, ◌==◌, Option, none, some, if◌then◌else◌,
}
use hueplusplus.Base.Int.{ℤ, pos, neg_ℕ}
use hueplusplus.Std.Number.{skip_space}
use hueplusplus.Lights.{to_unsigned}

-- The value of a hexadecimal digit.
unfoldable pub hex_value : ℕ → Option ℕ
hex_value c =
    if leb b'0' c && leb c b'9'
    then some (c - b'0')
    else if leb b'a' c && leb c b'f'
    then some (c - b'a' + 10)
    else if leb b'A' c && leb c b'F'
    then some (c - b'A' + 10)
    else none

unfoldable pub scan_hex : Bytes → ℕ → ℕ
scan_hex [] n = n
scan_hex (c ∷ s) n = elim (hex_value c) [ none ↦ n | some d ↦ scan_hex s (n * 16 + d) ]

-- `strtol(s, NULL, 16)`, which is zero without digits. In the two bytes that are given to it, a prefix `0x`
-- has no digit behind it, and so is read as the digit zero.
abbrev signed_hex : Bytes → ℤ
signed_hex [] = pos 0
signed_hex (c ∷ s) =
    if c == b'-'
    then neg_ℕ (scan_hex s 0)
    else if c == b'+'
    then pos (scan_hex s 0)
    else pos (scan_hex (c ∷ s) 0)

unfoldable pub strtol_16 : Bytes → ℤ
unfolding skip_space
strtol_16 s = signed_hex (skip_space s)

-- A `char` is read as its byte.
unfoldable pub hex_to_bytes : Bytes → Bytes
hex_to_bytes [] = []
hex_to_bytes (c ∷ []) = to_unsigned 8 (strtol_16 (c ∷ [])) ∷ []
hex_to_bytes (c ∷ d ∷ hex) = to_unsigned 8 (strtol_16 (c ∷ d ∷ [])) ∷ hex_to_bytes hex

-- A key as the bridge writes it, in upper case.
abbrev pub hex_digit : ℕ → ℕ
hex_digit d = if ltb d 10 then b'0' + d else b'A' + (d - 10)

abbrev pub to_hex : Bytes → Bytes
to_hex [] = []
to_hex (b ∷ bytes) = hex_digit (b / 16) ∷ hex_digit (b % 16) ∷ to_hex bytes

hex_value-hex_digit : (d : ℕ) → d < 16 → hex_value (hex_digit d) ≡ some d
unfolding hex_value
hex_value-hex_digit d h = ground arith

scan_two :
    (c d m n : ℕ)
    → hex_value c ≡ some m
    → hex_value d ≡ some n
    → scan_hex (c ∷ d ∷ []) 0 ≡ m * 16 + n
unfolding scan_hex
scan_two c d m n first second = ground (arith, first, second)

signed_two :
    (m : ℕ) (s : Bytes)
    → m < 16
    → signed_hex (skip_space (hex_digit m ∷ s)) ≡ pos (scan_hex (hex_digit m ∷ s) 0)
unfolding skip_space
signed_two m s h = ground arith

strtol_two :
    (m n : ℕ) → m < 16 → n < 16 → strtol_16 (hex_digit m ∷ hex_digit n ∷ []) ≡ pos (m * 16 + n)
unfolding strtol_16
strtol_two m n hm hn =
    signed_two m (hex_digit n ∷ []) hm
    ∙ ap pos (
        scan_two (hex_digit m) (hex_digit n) m n (hex_value-hex_digit m hm)
          (hex_value-hex_digit n hn))

-- hexToBytes gives back the bytes whose hexadecimal digits, in upper case, it is given.
pub hex_to_bytes-to_hex :
    (bytes : Bytes) → All (λ b. b < 256) bytes → hex_to_bytes (to_hex bytes) ≡ bytes
unfolding hex_to_bytes
hex_to_bytes-to_hex [] small = refl
hex_to_bytes-to_hex (b ∷ bytes) (here, later) =
    ap₂ (λ c s. c ∷ s)
      (ap (to_unsigned 8) (strtol_two (b / 16) (b % 16) (omega arith) (omega arith)) ∙ omega arith)
      (hex_to_bytes-to_hex bytes later)
