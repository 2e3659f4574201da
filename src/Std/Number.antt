-- ===== src/Std/Number.antt =====
-- Decimal numbers: `std::to_string`, `std::stoi`, and the `%02u` of `snprintf`.
pub mod Print
pub mod RoundTrip
pub mod Whole
use hueplusplus.Base.{
  ℕ, zero, suc, ◌+◌, ◌-◌, ◌*◌, ◌/◌, ◌%◌, ◌^◌, [], ◌∷◌, ◌++◌, Bool, true, false, ◌&&◌, ◌||◌, Bytes,
  ltb, leb, ◌==◌, if◌then◌else◌, Result, ok, err, Error,
}
use hueplusplus.Base.Int.{ℤ, pos, negsuc, neg_ℕ}

-- One round for each digit, the last digit first. A number below 10 ^ rounds is printed whole.
unfoldable pub emit : ℕ → ℕ → Bytes → Bytes
emit zero n out = out
emit (suc rounds) n out =
    let rest = emit rounds (n / 10) ((b'0' + n % 10) ∷ out) in
    if ltb n 10 then (b'0' + n) ∷ out else rest

-- No number of the program has more than the 20 digits of a 64-bit one.
unfoldable pub decimal : ℕ → Bytes
decimal n = emit 20 n []

-- `std::to_string(int)`
unfoldable pub to_string : ℤ → Bytes
to_string (pos n) = decimal n
to_string (negsuc n) = b'-' ∷ decimal (suc n)

-- `%02u`
unfoldable pub two_digits : ℕ → Bytes
two_digits n = if ltb n 10 then b'0' ∷ decimal n else decimal n

abbrev pub is_digit : ℕ → Bool
is_digit c = leb b'0' c && leb c b'9'

-- `isspace` in the C locale
abbrev is_space : ℕ → Bool
is_space c = (leb 9 c && leb c 13) || (c == 32)

unfoldable pub skip_space : Bytes → Bytes
skip_space [] = []
skip_space (c ∷ s) = let rest = skip_space s in if is_space c then rest else c ∷ s

unfoldable pub scan_digits : Bytes → ℕ → ℕ
scan_digits [] n = n
scan_digits (c ∷ s) n =
    let rest = scan_digits s (n * 10 + (c - b'0')) in if is_digit c then rest else n

-- The value must fit an `int`.
unfoldable pub to_int : Bool → ℕ → Result ℤ
to_int true n = if ltb (2 ^ 31) n then err Error.out_of_range else ok (neg_ℕ n)
to_int false n = if ltb n (2 ^ 31) then ok (pos n) else err Error.out_of_range

unfoldable pub magnitude : Bool → Bytes → Result ℤ
magnitude negative [] = err Error.invalid_argument
magnitude negative (c ∷ s) =
    if is_digit c then to_int negative (scan_digits (c ∷ s) 0) else err Error.invalid_argument

unfoldable pub signed : Bytes → Result ℤ
signed [] = err Error.invalid_argument
signed (c ∷ s) =
    if c == b'-'
    then magnitude true s
    else if c == b'+'
    then magnitude false s
    else magnitude false (c ∷ s)

-- `std::stoi`: what stands behind the digits is not looked at.
unfoldable pub stoi : Bytes → Result ℤ
unfolding skip_space scan_digits to_int magnitude signed
stoi s = signed (skip_space s)
