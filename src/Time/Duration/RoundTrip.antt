-- ===== src/Time/Duration/RoundTrip.antt =====
-- What `durationTo_hh_mm_ss` refuses, and what `parseDuration` reads back.
use hueplusplus.Base.{ℕ, suc, ◌-◌, ◌/◌, ◌%◌, ◌≤◌, [], ◌≡◌, ◌↔◌, arith, ok, err, Error, ◌>>=◌}
use hueplusplus.Base.Int.{ℤ, pos, negsuc, ◌≤ℤ◌, ◌-ℤ◌}
use hueplusplus.Time.Duration.{
  ticks_per_second, ticks_per_day, duration_to_hh_mm_ss, parse_duration,
}
use hueplusplus.Time.Duration.Clock.{duration_to_hh_mm_ss-clock, parse_duration-clock}

-- A duration from zero to 24 hours, both included, is printed, and the text is read back as the
-- duration without its fraction of a second.
pub parse_duration-duration_to_hh_mm_ss :
    (n : ℕ)
    → n ≤ ticks_per_day
    → (duration_to_hh_mm_ss (pos n) >>= parse_duration) ≡ ok (pos (n - n % ticks_per_second))
parse_duration-duration_to_hh_mm_ss n h = ground (
  arith,
  duration_to_hh_mm_ss-clock n h,
  parse_duration-clock (n / ticks_per_second) [] (omega arith),
)

-- durationTo_hh_mm_ss throws a HueException exactly for the durations longer than 24 hours.
pub duration_to_hh_mm_ss-throws :
    (d : ℤ) → (duration_to_hh_mm_ss d ≡ err Error.hue_exception) ↔ (pos (suc ticks_per_day) ≤ℤ d)
unfolding duration_to_hh_mm_ss ◌-ℤ◌
duration_to_hh_mm_ss-throws (pos n) = ground arith
duration_to_hh_mm_ss-throws (negsuc n) = ground arith
