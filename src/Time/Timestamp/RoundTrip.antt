-- ===== src/Time/Timestamp/RoundTrip.antt =====
-- A timestamp is printed as nineteen bytes, which are read back as the same broken-down time.
use hueplusplus.Base.{
  zero, suc, refl, ℕ, ◌-◌, ◌*◌, ◌/◌, ◌%◌, ◌≤◌, ◌<◌, ◌^◌, [], ◌∷◌, ◌≡◌, ◌≢◌, some, arith, Bytes, ok,
  ◌>>=◌,
}
use hueplusplus.Base.Int.{neg_ℕ, ℤ, pos, negsuc, ◌+ℤ◌, ◌-ℤ◌, ◌≤ℤ◌, scale, quot}
use hueplusplus.Std.Number.{to_string, stoi}
use hueplusplus.Std.Number.Print.{digit, decimal_four, two_digits_lem}
use hueplusplus.Std.Number.RoundTrip.{stoi_two, stoi_four}
use hueplusplus.Time.Duration.{ticks_per_second}
use hueplusplus.Time.Timestamp.{
  Tm, Zone, TimeLibrary, strftime, timestamp_to_tm, timepoint_to_timestamp, parse_timestamp,
  checked_time_t,
}

-- A date and time with a year of four digits.
pub record Civil : Type 0 where
  pub year : ℕ
  pub month : ℕ
  pub day : ℕ
  pub hour : ℕ
  pub minute : ℕ
  pub second : ℕ

pub record IsCivil (c : Civil) : Type 0 where
  pub year_in : (1000 ≤ c.year) × (c.year < 10000)
  pub month_in : (1 ≤ c.month) × (c.month ≤ 12)
  pub day_in : (1 ≤ c.day) × (c.day ≤ 31)
  pub hour_in : c.hour ≤ 23
  pub minute_in : c.minute ≤ 59
  pub second_in : c.second ≤ 60

-- The `std::tm` of a date and time, with a flag for daylight saving.
abbrev pub to_tm : Civil → ℤ → Tm
to_tm c dst = record {
  tm_year = pos c.year -ℤ pos 1900;
  tm_mon = pos c.month -ℤ pos 1;
  tm_mday = pos c.day;
  tm_hour = pos c.hour;
  tm_min = pos c.minute;
  tm_sec = pos c.second;
  tm_isdst = dst;
}

abbrev two : ℕ → Bytes → Bytes
two n rest = digit (n / 10) ∷ digit (n % 10) ∷ rest

-- The text of a date and time, before `rest`.
abbrev pub stamp : Civil → Bytes → Bytes
stamp c rest =
    digit (c.year / 10 / 10 / 10)
    ∷ digit (c.year / 10 / 10 % 10)
    ∷ digit (c.year / 10 % 10)
    ∷ digit (c.year % 10)
    ∷ b'-'
    ∷ two c.month
        (b'-' ∷ two c.day (b'T' ∷ two c.hour (b':' ∷ two c.minute (b':' ∷ two c.second rest))))

pub strftime-stamp : (c : Civil) (dst : ℤ) → IsCivil c → strftime (to_tm c dst) ≡ ok (stamp c [])
unfolding strftime to_string ◌+ℤ◌ ◌-ℤ◌
strftime-stamp c dst v = ground (
  arith,
  decimal_four c.year,
  two_digits_lem c.month,
  two_digits_lem c.day,
  two_digits_lem c.hour,
  two_digits_lem c.minute,
  two_digits_lem c.second,
)

stoi-two : (n : ℕ) → n < 100 → stoi (two n []) ≡ ok (pos n)
stoi-two n h = ground (arith, stoi_two (n / 10) (n % 10) (omega arith) (omega arith))

stoi-four :
    (n : ℕ)
    → n < 10000
    → stoi (
        digit (n / 10 / 10 / 10)
        ∷ digit (n / 10 / 10 % 10)
        ∷ digit (n / 10 % 10)
        ∷ digit (n % 10)
        ∷ [])
      ≡ ok (pos n)
stoi-four n h = ground (
  arith,
  stoi_four (n / 10 / 10 / 10) (n / 10 / 10 % 10) (n / 10 % 10) (n % 10) (omega arith) (omega arith)
      (omega arith) (omega arith),
)

pub timestamp_to_tm-stamp :
    (c : Civil) (rest : Bytes)
    → IsCivil c
    → timestamp_to_tm (stamp c rest) ≡ ok (to_tm c (negsuc 0))
unfolding timestamp_to_tm
timestamp_to_tm-stamp c rest v = ground (
  arith,
  stoi-four c.year,
  stoi-two c.month,
  stoi-two c.day,
  stoi-two c.hour,
  stoi-two c.minute,
  stoi-two c.second,
)

-- The C library, in the zone `tz`, takes the second of `time` to the date and time `c`, and `mktime`
-- with the flag -1, which leaves daylight saving open, takes it back: the local time is not one
-- that occurs twice. The second is not -1, by which `mktime` reports an error, and `time` fits 64 bits.
pub record ReadsAs (C : TimeLibrary) (tz : Zone) (time : ℤ) (c : Civil) : Type 0 where
  pub valid : IsCivil c
  pub dst : ℤ
  pub local_is : C.localtime tz (quot time ticks_per_second) ≡ some (to_tm c dst)
  pub back_is : C.mktime tz (to_tm c (negsuc 0)) ≡ quot time ticks_per_second
  pub no_error : quot time ticks_per_second ≢ negsuc 0
  pub fits : (negsuc (2 ^ 63 - 1) ≤ℤ time) × (time ≤ℤ pos (2 ^ 63 - 1))

checked_time_t-neg :
    (m : ℕ)
    → neg_ℕ m ≢ negsuc 0
    → m * ticks_per_second ≤ 2 ^ 63
    → checked_time_t (neg_ℕ m) ≡ ok (scale ticks_per_second (neg_ℕ m))
checked_time_t-neg zero h fits = refl
checked_time_t-neg (suc zero) h fits = absurd (h refl)
checked_time_t-neg (suc (suc m)) h fits =
    let e : suc (suc m) * ticks_per_second ≡ suc (suc (suc m) * ticks_per_second - 1) =
      omega arith in
    rw e (ground arith)

checked_time_t-ok :
    (time : ℤ)
    → quot time ticks_per_second ≢ negsuc 0
    → (negsuc (2 ^ 63 - 1) ≤ℤ time) × (time ≤ℤ pos (2 ^ 63 - 1))
    → checked_time_t (quot time ticks_per_second)
      ≡ ok (scale ticks_per_second (quot time ticks_per_second))
checked_time_t-ok (pos n) h fits = ground arith
checked_time_t-ok (negsuc n) h fits = checked_time_t-neg (suc n / ticks_per_second) h (omega arith)

module _ {C : TimeLibrary} {tz : Zone} {time : ℤ} {c : Civil} (reads : ReadsAs C tz time c) where
  pub timepoint_to_timestamp-stamp : timepoint_to_timestamp C tz time ≡ ok (stamp c [])
  unfolding timepoint_to_timestamp
  timepoint_to_timestamp-stamp =
      ground (arith, reads.local_is, strftime-stamp c reads.dst reads.valid)

  checked :
      checked_time_t (quot time ticks_per_second)
      ≡ ok (scale ticks_per_second (quot time ticks_per_second))
  checked = checked_time_t-ok time reads.no_error reads.fits

  pub parse_timestamp-stamp :
      (rest : Bytes)
      → parse_timestamp C tz (stamp c rest)
        ≡ ok (scale ticks_per_second (quot time ticks_per_second))
  unfolding parse_timestamp
  parse_timestamp-stamp rest = rw (timestamp_to_tm-stamp c rest reads.valid, reads.back_is) checked

-- A time point that the C library reads as a date and time with a four-digit year, and back, is
-- printed as a timestamp that parseTimestamp reads back as the same second.
pub parse_timestamp-timepoint_to_timestamp :
    (C : TimeLibrary) (tz : Zone) (time : ℤ) (c : Civil)
    → ReadsAs C tz time c
    → (timepoint_to_timestamp C tz time >>= parse_timestamp C tz)
      ≡ ok (scale ticks_per_second (quot time ticks_per_second))
parse_timestamp-timepoint_to_timestamp C tz time c reads =
    rw (timepoint_to_timestamp-stamp reads) (parse_timestamp-stamp reads [])
