-- ===== src/Time/Duration.antt =====
-- `durationTo_hh_mm_ss` and `parseDuration` of src/TimePattern.cpp. A `system_clock::duration` is
-- its count of ticks, which are nanoseconds.
pub mod Clock
pub mod RoundTrip
use hueplusplus.Base.{
  ℕ, suc, ◌+◌, ◌-◌, ◌*◌, ◌%◌, ◌^◌, [], ◌∷◌, ◌++◌, Bytes, take, ltb, if◌then◌else◌, Result, ok, err,
  Error, ◌>>=◌,
}
use hueplusplus.Base.Int.{ℤ, pos, negsuc, ◌+ℤ◌, ◌-ℤ◌, ltb_ℤ, scale, quot}
use hueplusplus.Std.Text.{substr}
use hueplusplus.Std.Number.{two_digits, stoi}

abbrev pub ticks_per_second : ℕ
ticks_per_second = 10 ^ 9

abbrev pub ticks_per_minute : ℕ
ticks_per_minute = 60 * ticks_per_second

abbrev pub ticks_per_hour : ℕ
ticks_per_hour = 3600 * ticks_per_second

abbrev pub ticks_per_day : ℕ
ticks_per_day = 24 * ticks_per_hour

-- `static_cast<unsigned int>`
abbrev to_unsigned : ℤ → ℕ
to_unsigned (pos n) = n % 2 ^ 32
to_unsigned (negsuc n) = (2 ^ 32 - suc n % 2 ^ 32) % 2 ^ 32

-- `duration -= hours(n)`, and the same with minutes: signed overflow has no result.
abbrev subtract : ℤ → ℕ → ℕ → Result ℤ
subtract duration unit n =
    if ltb (n * unit) (2 ^ 63) then ok (duration -ℤ pos (n * unit)) else err Error.unspecified

-- `snprintf` into nine bytes: eight, and the closing zero.
abbrev write_fields : ℕ → ℕ → ℕ → Bytes
write_fields h m s = take 8 (two_digits h ++ (b':' ∷ (two_digits m ++ (b':' ∷ two_digits s))))

unfoldable pub duration_to_hh_mm_ss : ℤ → Result Bytes
duration_to_hh_mm_ss duration =
    if ltb_ℤ (pos ticks_per_day) duration then err Error.hue_exception else do
      let num_h = to_unsigned (quot duration ticks_per_hour)
      minutes ← subtract duration ticks_per_hour num_h
      let num_m = to_unsigned (quot minutes ticks_per_minute)
      seconds ← subtract minutes ticks_per_minute num_m
      let num_s = to_unsigned (quot seconds ticks_per_second)
      ok (write_fields num_h num_m num_s)

-- Each field has two bytes at most, so the sum is far from overflow.
unfoldable pub parse_duration : Bytes → Result ℤ
parse_duration s = do
  hour ← substr s 0 2 >>= stoi
  min ← substr s 3 2 >>= stoi
  sec ← substr s 6 2 >>= stoi
  ok (scale ticks_per_hour hour +ℤ scale ticks_per_minute min +ℤ scale ticks_per_second sec)
