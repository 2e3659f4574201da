-- ===== src/Time/Pattern/RoundTrip.antt =====
-- `TimePattern::parse` undoes `TimePattern::toString`, for each of the five types.
use hueplusplus.Base.{
  bytes_eq, ℕ, ◌*◌, ◌≤◌, ◌<◌, ◌/◌, [], ◌∷◌, ◌≡◌, ◌∙◌, refl, arith, zero, suc, ok, ◌>>=◌, Bytes,
}
use hueplusplus.Base.Int.{ℤ, pos, scale, quot}
use hueplusplus.Std.Number.Print.{digit}
use hueplusplus.Time.Duration.{ticks_per_second}
use hueplusplus.Time.Duration.Clock.{parse_duration-clock}
use hueplusplus.Time.Timestamp.{Zone, TimeLibrary}
use hueplusplus.Time.Timestamp.RoundTrip.{
  Civil, ReadsAs, stamp, timepoint_to_timestamp-stamp, parse_timestamp-stamp,
}
use hueplusplus.Time.Pattern.{
  AbsoluteVariedTime, TimePattern, undefined, absolute, recurring, interval, timer, to_text, parse,
  parse_absolute, absolute_text,
}
use hueplusplus.Time.Pattern.Text.{tail, variation_text-tail}
use hueplusplus.Time.Pattern.Repeats.{timer_of}
use hueplusplus.Time.Pattern.Executions.{parse-to_text_timer}
use hueplusplus.Time.Pattern.Days.{recurring_of, parse-to_text_recurring}
use hueplusplus.Time.Pattern.Intervals.{interval_of, parse-to_text_interval}

-- A base time of whole seconds, with a variation.
abbrev pub absolute_of : ℤ → ℕ → AbsoluteVariedTime
absolute_of base v = record { base = base; variation = pos (v * ticks_per_second) }

-- A text that begins with a digit holds an absolute time.
front_of_absolute :
    (C : TimeLibrary) (tz : Zone) (d : ℕ) (s : Bytes)
    → d < 10
    → parse C tz (digit d ∷ s) ≡ (parse_absolute C tz (digit d ∷ s) >>= λ a. ok (absolute a))
unfolding parse bytes_eq
front_of_absolute C tz d s h = ground arith

module _ {C : TimeLibrary} {tz : Zone} {base : ℤ} {c : Civil} (reads : ReadsAs C tz base c) (v : ℕ)
    (hv : v ≤ 86400) where
  absolute_text-stamp : absolute_text C tz (absolute_of base v) ≡ ok (stamp c (tail v))
  absolute_text-stamp = rw (timepoint_to_timestamp-stamp reads, variation_text-tail v hv)

module _ {C : TimeLibrary} {tz : Zone} {base : ℤ} {c : Civil} (reads : ReadsAs C tz base c)
    (whole : scale ticks_per_second (quot base ticks_per_second) ≡ base) where
  parse_absolute-stamp :
      (v : ℕ) → v ≤ 86400 → parse_absolute C tz (stamp c (tail v)) ≡ ok (absolute_of base v)
  unfolding parse_absolute
  parse_absolute-stamp zero hv = rw (parse_timestamp-stamp reads [], whole)
  parse_absolute-stamp (suc v) hv =
      rw (parse_timestamp-stamp reads (tail (suc v)), whole, parse_duration-clock (suc v) [] hv)

  print_parse_absolute :
      (v : ℕ)
      → v ≤ 86400
      → (to_text C tz (absolute (absolute_of base v)) >>= parse C tz)
        ≡ ok (absolute (absolute_of base v))
  unfolding to_text
  print_parse_absolute v hv = rw (absolute_text-stamp reads v hv) (
      front_of_absolute C tz (c.year / 10 / 10 / 10) _ (omega (arith, reads.valid.year_in))
      ∙ rw (parse_absolute-stamp v hv))

-- What `toString` writes without loss. Durations are at most 24 hours and of whole seconds, a set of
-- weekdays has no other bits, and a timer at most 99 executions. The C library reads an absolute time
-- as a date and time with a four-digit year, and back.
pub data IsPrintable (C : TimeLibrary) (tz : Zone) : TimePattern → Type 0 where
  none_set : IsPrintable C tz undefined
  at_time :
      (base : ℤ) (v : ℕ) (c : Civil)
      → ReadsAs C tz base c
      → scale ticks_per_second (quot base ticks_per_second) ≡ base
      → v ≤ 86400
      → IsPrintable C tz (absolute (absolute_of base v))
  each_week :
      (t v b : ℕ)
      → t ≤ 86400
      → v ≤ 86400
      → b < 128
      → IsPrintable C tz (recurring (recurring_of t v b))
  between :
      (s f b : ℕ)
      → s ≤ 86400
      → f ≤ 86400
      → b < 128
      → IsPrintable C tz (interval (interval_of s f b))
  after :
      (e v n : ℕ)
      → e ≤ 86400
      → v ≤ 86400
      → n < 100
      → IsPrintable C tz (timer (timer_of e v (pos n)))

-- A time pattern of any of the five types that toString writes without loss (durations of at most
-- 24 hours in whole seconds, no bits beyond the seven weekdays, at most 99 executions, an absolute
-- time that the C library reads as a date and time with a four-digit year and back) is printed
-- without an exception, and TimePattern::parse gives the same pattern back.
pub parse-to_text :
    {C : TimeLibrary} {tz : Zone} (p : TimePattern)
    → IsPrintable C tz p
    → (to_text C tz p >>= parse C tz) ≡ ok p
parse-to_text _ none_set = unfold to_text parse bytes_eq in refl
parse-to_text _ (at_time base v c reads whole hv) = print_parse_absolute reads whole v hv
parse-to_text {C} {tz} _ (each_week t v b ht hv hb) = parse-to_text_recurring C tz t v b ht hv hb
parse-to_text {C} {tz} _ (between s f b hs hf hb) = parse-to_text_interval C tz s f hs hf b hb
parse-to_text {C} {tz} _ (after e v n he hv hn) = parse-to_text_timer C tz e v he hv n hn
