-- ===== src/Time/Pattern/Intervals.antt =====
-- Time intervals: printed and read back.
use hueplusplus.Base.{
  bytes_eq, ℕ, ◌+◌, ◌*◌, ◌≤◌, ◌<◌, [], ◌∷◌, ◌++◌, ◌≡◌, ap, ◌∙◌, arith, Bytes, true, false, codes,
  ok, ◌>>=◌, Bool-cases, inl, inr, ◌==◌,
}
use hueplusplus.Base.Int.{pos}
use hueplusplus.Std.Text.{or_npos, index_from, find, find_from, add_size, count}
use hueplusplus.Time.Duration.{ticks_per_second}
use hueplusplus.Time.Duration.Clock.{clock, parse_duration-clock}
use hueplusplus.Time.Weekdays.{days_of, is_all}
use hueplusplus.Time.Weekdays.RoundTrip.{mask_text, to_string-mask_text, parse-mask_text}
use hueplusplus.Time.Timestamp.{Zone, TimeLibrary}
use hueplusplus.Time.Pattern.{
  TimeInterval, interval, interval_text, parse_interval, parse_interval_at, to_text, parse,
}
use hueplusplus.Time.Pattern.Text.{
  whole_text, index_from-clock_slash, count-clock, count-tail, count-mask_text,
}
use hueplusplus.Time.Pattern.Days.{count_frame}

abbrev pub interval_of : ℕ → ℕ → ℕ → TimeInterval
interval_of s f b = record {
  start = pos (s * ticks_per_second);
  finish = pos (f * ticks_per_second);
  days = days_of (pos b);
}

-- The text of a time interval on some of the days, and on all of them.
abbrev some_days : ℕ → ℕ → ℕ → Bytes
some_days s f b = b'W' ∷ mask_text b (codes "/T" ++ clock s (codes "/T" ++ clock f []))

abbrev every_day : ℕ → ℕ → Bytes
every_day s f = b'T' ∷ clock s (codes "/T" ++ clock f [])

module _ (s f : ℕ) (hs : s ≤ 86400) (hf : f ≤ 86400) where
  interval_text-some_days :
      (b : ℕ) → b < 127 → interval_text (interval_of s f b) ≡ ok (some_days s f b)
  unfolding is_all
  interval_text-some_days b hb =
      ground (arith, whole_text s hs, whole_text f hf, to_string-mask_text b (omega arith))

  interval_text-every_day : interval_text (interval_of s f 127) ≡ ok (every_day s f)
  unfolding is_all
  interval_text-every_day = ground (arith, whole_text s hs, whole_text f hf)

  -- Where the slash between the times stands, from the first time on.
  slash : (i : ℕ) → or_npos (index_from b'/' (clock s (codes "/T" ++ clock f [])) i) ≡ 8 + i
  slash i = ap or_npos (index_from-clock_slash s (codes "/T" ++ clock f []) i hs) ∙ omega arith

  parse_interval-every_day :
      parse_interval false (every_day s f) ≡ ok (interval (interval_of s f 127))
  unfolding parse_interval
  parse_interval-every_day =
      ap (λ at. parse_interval_at 1 at false (every_day s f)) (slash 1)
      ∙ rw (parse_duration-clock s [] hs, parse_duration-clock f [] hf)

  parse_interval-some_days :
      (b : ℕ) → b < 127 → parse_interval true (some_days s f b) ≡ ok (interval (interval_of s f b))
  unfolding parse_interval
  parse_interval-some_days b hb =
      ap
        (λ start.
          parse_interval_at start (find_from (some_days s f b) b'/' start) true (some_days s f b))
        start_is
      ∙ ap (λ at. parse_interval_at 6 at true (some_days s f b)) (slash 6)
      ∙ rw (
        parse-mask_text b (omega arith),
        parse_duration-clock s [] hs,
        parse_duration-clock f [] hf,
      )
    where
      start_is : add_size (find (some_days s f b) b'T') 1 ≡ 6
      start_is = ground arith

  -- The second slash, by which the text is not taken for a recurring time.
  count-some_days : (b : ℕ) → b < 127 → count b'/' (some_days s f b) ≡ 2
  count-some_days b hb = omega (
    arith,
    (count_frame (mask_text b (codes "/T" ++ clock s (codes "/T" ++ clock f [])))).0,
    count-mask_text b (codes "/T" ++ clock s (codes "/T" ++ clock f [])) (omega arith),
    (count_frame (clock s (codes "/T" ++ clock f []))).1,
    count-clock s (codes "/T" ++ clock f []) hs,
    (count_frame (clock f [])).1,
    count-clock f [] hf,
    count-tail 0 (omega arith),
  )

module _ (C : TimeLibrary) (tz : Zone) (s f : ℕ) (hs : s ≤ 86400) (hf : f ≤ 86400) where
  print_parse_some_days :
      (b : ℕ)
      → b < 127
      → (to_text C tz (interval (interval_of s f b)) >>= parse C tz)
        ≡ ok (interval (interval_of s f b))
  unfolding to_text parse bytes_eq
  print_parse_some_days b hb =
      rw (interval_text-some_days s f hs hf b hb, count-some_days s f hs hf b hb)
        (parse_interval-some_days s f hs hf b hb)

  print_parse_every_day :
      (to_text C tz (interval (interval_of s f 127)) >>= parse C tz)
      ≡ ok (interval (interval_of s f 127))
  unfolding to_text parse bytes_eq
  print_parse_every_day =
      rw (interval_text-every_day s f hs hf) (parse_interval-every_day s f hs hf)

  -- A time interval whose ends are at most 24 hours, in whole seconds, on a set of weekdays is printed,
  -- and read back as the same interval: with `W` and the days if it is not on all of them, else without.
  pub parse-to_text_interval :
      (b : ℕ)
      → b < 128
      → (to_text C tz (interval (interval_of s f b)) >>= parse C tz)
        ≡ ok (interval (interval_of s f b))
  parse-to_text_interval b hb = elim (Bool-cases (b == 127)) [
    | inl all ↦ let e : b ≡ 127 = ground arith in rw e print_parse_every_day
    | inr some ↦ print_parse_some_days b (ground arith)
  ]
