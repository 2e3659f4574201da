-- ===== src/Time/Pattern/Days.antt =====
-- Recurring times: printed and read back.
use hueplusplus.Base.{
  bytes_eq, ℕ, zero, suc, ◌*◌, ◌≤◌, ◌<◌, [], ◌∷◌, ◌++◌, ◌≡◌, arith, Bytes, codes, ok, ◌>>=◌,
}
use hueplusplus.Base.Int.{pos}
use hueplusplus.Std.Text.{count}
use hueplusplus.Time.Duration.{ticks_per_second}
use hueplusplus.Time.Duration.Clock.{clock, parse_duration-clock}
use hueplusplus.Time.Weekdays.{days_of}
use hueplusplus.Time.Weekdays.RoundTrip.{mask_text, to_string-mask_text, parse-mask_text}
use hueplusplus.Time.Timestamp.{Zone, TimeLibrary}
use hueplusplus.Time.Pattern.{
  RecurringTime, recurring, recurring_text, parse_recurring, to_text, parse,
}
use hueplusplus.Time.Pattern.Text.{
  tail, whole_text, variation_text-tail, count-clock, count-tail, count-mask_text,
}

abbrev pub recurring_of : ℕ → ℕ → ℕ → RecurringTime
recurring_of t v b = record {
  time = pos (t * ticks_per_second);
  variation = pos (v * ticks_per_second);
  days = days_of (pos b);
}

-- The text of a recurring time.
abbrev recurring_bytes : ℕ → ℕ → ℕ → Bytes
recurring_bytes t v b = b'W' ∷ mask_text b (codes "/T" ++ clock t (tail v))

recurring_text-bytes :
    (t v b : ℕ)
    → t ≤ 86400
    → v ≤ 86400
    → b < 128
    → recurring_text (recurring_of t v b) ≡ ok (recurring_bytes t v b)
recurring_text-bytes t v b ht hv hb =
    ground (arith, whole_text t ht, variation_text-tail v hv, to_string-mask_text b (omega arith))

parse_recurring-bytes :
    (t v b : ℕ)
    → t ≤ 86400
    → v ≤ 86400
    → b < 128
    → parse_recurring (recurring_bytes t v b) ≡ ok (recurring (recurring_of t v b))
unfolding parse_recurring
parse_recurring-bytes t zero b ht hv hb =
    rw (parse-mask_text b (omega arith), parse_duration-clock t [] ht)
parse_recurring-bytes t (suc v) b ht hv hb = rw (
  parse-mask_text b (omega arith),
  parse_duration-clock t (tail (suc v)) ht,
  parse_duration-clock (suc v) [] hv,
)

pub count_frame :
    (rest : Bytes)
    → (count b'/' (b'W' ∷ rest) ≡ count b'/' rest)
      × (count b'/' (codes "/T" ++ rest) ≡ suc (count b'/' rest))
unfolding count
count_frame rest = (ground arith, ground arith)

count-recurring_bytes :
    (t v b : ℕ) → t ≤ 86400 → v ≤ 86400 → b < 128 → count b'/' (recurring_bytes t v b) ≡ 1
count-recurring_bytes t v b ht hv hb = omega (
  arith,
  (count_frame (mask_text b (codes "/T" ++ clock t (tail v)))).0,
  count-mask_text b (codes "/T" ++ clock t (tail v)) (omega arith),
  (count_frame (clock t (tail v))).1,
  count-clock t (tail v) ht,
  count-tail v hv,
)

module _ (C : TimeLibrary) (tz : Zone) (t v b : ℕ) (ht : t ≤ 86400) (hv : v ≤ 86400)
    (hb : b < 128) where
  -- A recurring time with a time of day and a variation of at most 24 hours, both in whole seconds,
  -- and a set of weekdays is printed, and read back as the same recurring time.
  pub parse-to_text_recurring :
      (to_text C tz (recurring (recurring_of t v b)) >>= parse C tz)
      ≡ ok (recurring (recurring_of t v b))
  unfolding to_text parse bytes_eq
  parse-to_text_recurring =
      rw (recurring_text-bytes t v b ht hv hb, count-recurring_bytes t v b ht hv hb)
        (parse_recurring-bytes t v b ht hv hb)
