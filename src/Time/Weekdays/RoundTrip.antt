-- ===== src/Time/Weekdays/RoundTrip.antt =====
-- A set of weekdays is printed as three digits, which are read back.
use hueplusplus.Base.{ℕ, ◌/◌, ◌%◌, ◌<◌, [], ◌∷◌, ◌≡◌, arith, Bytes, ok}
use hueplusplus.Base.Int.{pos}
use hueplusplus.Std.Number
use hueplusplus.Std.Number.Print.{digit, decimal_one, decimal_two, decimal_three}
use hueplusplus.Std.Number.RoundTrip.{stoi_three}
use hueplusplus.Time.Weekdays.{days_of, to_string, parse}

-- The three digits of a bitmask, before `rest`.
abbrev pub mask_text : ℕ → Bytes → Bytes
mask_text b rest = digit (b / 10 / 10) ∷ digit (b / 10 % 10) ∷ digit (b % 10) ∷ rest

pub to_string-mask_text : (b : ℕ) → b < 1000 → to_string (days_of (pos b)) ≡ mask_text b []
unfolding to_string Number.to_string
to_string-mask_text b h = ground (arith, decimal_one b, decimal_two b, decimal_three b)

pub parse-mask_text : (b : ℕ) → b < 1000 → parse (mask_text b []) ≡ ok (days_of (pos b))
unfolding parse
parse-mask_text b h = ground (
  arith,
  stoi_three (b / 10 / 10) (b / 10 % 10) (b % 10) (omega arith) (omega arith) (omega arith),
)
