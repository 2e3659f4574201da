-- ===== src/Time/Timestamp.antt =====
-- Timestamps of src/TimePattern.cpp: `timestampToTm`, `timepointToTimestamp`, `parseTimestamp` and
-- `parseUTCTimestamp`. A `time_point` is its count of ticks from the epoch.
pub mod RoundTrip
pub mod Utc
pub mod Errors
use hueplusplus.Base.{
  ℕ, ◌+◌, ◌-◌, ◌*◌, ◌^◌, ◌≤◌, [], ◌∷◌, ◌++◌, Bool, ◌&&◌, not, Option, none, some, Bytes, length,
  ltb, leb, if◌then◌else◌, Result, ok, err, Error, ◌>>=◌,
}
use hueplusplus.Base.Int.{ℤ, pos, negsuc, pos_part, ◌+ℤ◌, ◌-ℤ◌, ltb_ℤ, eqb_ℤ, scale, quot}
use hueplusplus.Std.Text.{substr}
use hueplusplus.Std.Number.{to_string, two_digits, stoi}
use hueplusplus.Time.Duration.{ticks_per_second}

-- The members of `std::tm` that are read or written.
pub record Tm : Type 0 where
  pub tm_year : ℤ
  pub tm_mon : ℤ
  pub tm_mday : ℤ
  pub tm_hour : ℤ
  pub tm_min : ℤ
  pub tm_sec : ℤ
  pub tm_isdst : ℤ

-- The value of the environment variable TZ, if it is set.
abbrev pub Zone : Type 0
Zone = Option Bytes

-- The C library's conversions between a `time_t` and a broken-down time, in the zone that TZ names.
pub record TimeLibrary : Type 0 where
  pub localtime : Zone → ℤ → Option Tm
  pub mktime : Zone → Tm → ℤ

abbrev in_range : ℕ → ℕ → ℤ → Bool
in_range lo hi z = not (ltb_ℤ z (pos lo)) && not (ltb_ℤ (pos hi) z)

-- The fields are in their normal ranges, and the year has at least four digits.
abbrev pub is_normal : Tm → Bool
is_normal tm =
    in_range 0 11 tm.tm_mon
    && in_range 1 31 tm.tm_mday
    && in_range 0 23 tm.tm_hour
    && in_range 0 59 tm.tm_min
    && in_range 0 60 tm.tm_sec
    && not (ltb_ℤ (tm.tm_year +ℤ pos 1900) (pos 1000))

-- `strftime` with `%FT%T`. For other values C leaves the text open.
unfoldable pub strftime : Tm → Result Bytes
strftime tm =
    if is_normal tm
    then ok (
        to_string (tm.tm_year +ℤ pos 1900)
        ++ (b'-'
            ∷ (two_digits (pos_part tm.tm_mon + 1)
                ++ (b'-'
                    ∷ (two_digits (pos_part tm.tm_mday)
                        ++ (b'T'
                            ∷ (two_digits (pos_part tm.tm_hour)
                                ++ (b':'
                                    ∷ (two_digits (pos_part tm.tm_min)
                                        ++ (b':' ∷ two_digits (pos_part tm.tm_sec)))))))))))
    else err Error.unspecified

-- The handler of `timestampToTm`: only `std::invalid_argument` is turned into a `HueException`.
abbrev pub catch_invalid_argument {ℓ} : {A : Type ℓ} → Result A → Result A
catch_invalid_argument (ok a) = ok a
catch_invalid_argument (err Error.invalid_argument) = err Error.hue_exception
catch_invalid_argument (err Error.hue_exception) = err Error.hue_exception
catch_invalid_argument (err Error.api_response_exception) = err Error.api_response_exception
catch_invalid_argument (err Error.out_of_range) = err Error.out_of_range
catch_invalid_argument (err Error.json_exception) = err Error.json_exception
catch_invalid_argument (err Error.system_error) = err Error.system_error
catch_invalid_argument (err Error.unspecified) = err Error.unspecified

abbrev tm_of : ℤ → ℤ → ℤ → ℤ → ℤ → ℤ → Tm
tm_of year mon mday hour min sec = record {
  tm_year = year -ℤ pos 1900;
  tm_mon = mon -ℤ pos 1;
  tm_mday = mday;
  tm_hour = hour;
  tm_min = min;
  tm_sec = sec;
  tm_isdst = negsuc 0;
}

unfoldable pub timestamp_to_tm : Bytes → Result Tm
timestamp_to_tm timestamp = catch_invalid_argument (do
  year ← substr timestamp 0 4 >>= stoi
  mon ← substr timestamp 5 2 >>= stoi
  mday ← substr timestamp 8 2 >>= stoi
  hour ← substr timestamp 11 2 >>= stoi
  min ← substr timestamp 14 2 >>= stoi
  sec ← substr timestamp 17 2 >>= stoi
  ok (tm_of year mon mday hour min sec))

-- The ticks of a `time_t`, which `from_time_t` computes in 64 bits.
abbrev fits_64 : ℤ → Bool
fits_64 z = not (ltb_ℤ z (negsuc (2 ^ 63 - 1))) && ltb_ℤ z (pos (2 ^ 63))

abbrev from_time_t : ℤ → Result ℤ
from_time_t ctime =
    let ticks = scale ticks_per_second ctime in
    if fits_64 ticks then ok ticks else err Error.unspecified

abbrev pub checked_time_t : ℤ → Result ℤ
checked_time_t ctime = if eqb_ℤ ctime (negsuc 0) then err Error.hue_exception else from_time_t ctime

-- `strftime` returns 0, and the code throws, where the text does not fit the 32 bytes.
abbrev fit_buffer : Bytes → Result Bytes
fit_buffer text = if ltb 31 (length text) then err Error.hue_exception else ok text

-- `setenv("TZ", tz, 1)` where TZ was set before, and else `unsetenv("TZ")`.
abbrev restore : Zone → Zone → Zone
restore (some saved) environment = some saved
restore none environment = none

module _ (C : TimeLibrary) where
  abbrev print_tm : Option Tm → Result Bytes
  print_tm none = err Error.hue_exception
  print_tm (some tm) = strftime tm >>= fit_buffer

  unfoldable pub timepoint_to_timestamp : Zone → ℤ → Result Bytes
  timepoint_to_timestamp tz time = print_tm (C.localtime tz (quot time ticks_per_second))

  unfoldable pub parse_timestamp : Zone → Bytes → Result ℤ
  parse_timestamp tz timestamp = do tm ← timestamp_to_tm timestamp; checked_time_t (C.mktime tz tm)

  -- TZ is set to the empty text, which means UTC, and then set back, or unset again if it was not
  -- set. The second part of the result is TZ after the call.
  abbrev mktime_utc : Zone → Tm → ℤ × Zone
  mktime_utc tz tm =
      let saved : Zone = tz in
      let environment : Zone = some [] in
      let ctime = C.mktime environment tm in (ctime, restore saved environment)

  abbrev with_utc : Zone → Result Tm → Result ℤ × Zone
  with_utc tz (err e) = (err e, tz)
  with_utc tz (ok tm) = let (ctime, tz') = mktime_utc tz tm in (checked_time_t ctime, tz')

  unfoldable pub parse_utc_timestamp : Zone → Bytes → Result ℤ × Zone
  parse_utc_timestamp tz timestamp = with_utc tz (timestamp_to_tm timestamp)
