-- ===== src/Time/Examples.antt =====
-- Tests of the time formats on texts of test/test_TimePattern.cpp, and the theorems at inputs.
use hueplusplus.Base.{
  ℕ, ◌*◌, ◌≡◌, ◌↔◌, refl, arith, some, none, false, codes, bytes_eq, ok, err, Error, ◌>>=◌,
}
use hueplusplus.Base.Int.{ℤ, pos, ◌+ℤ◌, ◌-ℤ◌}
use hueplusplus.Std.Number
use hueplusplus.Std.Text.{count}
use hueplusplus.Time.Duration.{ticks_per_second, duration_to_hh_mm_ss, parse_duration}
use hueplusplus.Time.Weekdays
use hueplusplus.Time.Weekdays.{
  Weekdays, days_of, monday, sunday, union_with, is_monday, is_tuesday, is_wednesday, is_thursday,
  is_friday, is_saturday, is_sunday,
}
use hueplusplus.Time.Timestamp.{TimeLibrary, timepoint_to_timestamp, parse_timestamp}
use hueplusplus.Time.Timestamp.RoundTrip.{
  Civil, to_tm, ReadsAs, parse_timestamp-timepoint_to_timestamp,
}
use hueplusplus.Time.Pattern
use hueplusplus.Time.Pattern.{
  TimePattern, absolute, timer, recurring, interval, undefined, to_text, parse,
}
use hueplusplus.Time.Pattern.Repeats.{timer_of}
use hueplusplus.Time.Pattern.Executions.{parse-to_text_lost}
use hueplusplus.Time.Pattern.Days.{recurring_of}
use hueplusplus.Time.Pattern.Intervals.{interval_of}
use hueplusplus.Time.Pattern.RoundTrip.{absolute_of, at_time, parse-to_text}
use hueplusplus.Time.Pattern.Copy.{copy_construct, copy_construct-eq_iff}
use hueplusplus.Time.Pattern.Errors.{is_letter, parse-throws_iff}

-- A C library that knows one second only: 2020-03-03T20:53:03 in UTC.
abbrev party : Civil
party = record { year = 2020; month = 3; day = 3; hour = 20; minute = 53; second = 3 }

abbrev party_seconds : ℕ
party_seconds = 1583268783

abbrev party_time : ℤ
party_time = pos (party_seconds * ticks_per_second)

abbrev library : TimeLibrary
library = record {
  localtime = λ tz t. some (to_tm party (pos 0));
  mktime = λ tz tm. pos party_seconds;
}

party_reads : ReadsAs library none party_time party
party_reads = record {
  valid = omega arith;
  dst = pos 0;
  local_is = refl;
  back_is = refl;
  no_error = λ e. cc;
  fits = omega arith;
}

methods : Unit {0}
unfolding to_text parse Pattern.parse_timer Pattern.parse_recurring Pattern.parse_interval
    Pattern.parse_absolute Weekdays.to_string Weekdays.parse Weekdays.is_all parse_duration
    duration_to_hh_mm_ss Number.stoi Number.to_string Number.decimal Number.emit Number.two_digits
    bytes_eq count ◌+ℤ◌ ◌-ℤ◌
methods = tt

-- texts of the unit tests
print_timer :
    to_text library none (timer (timer_of 80 3600 (pos 5))) ≡ ok (codes "R05/PT00:01:20A01:00:00")
unfolding methods
print_timer = refl

print_interval :
    to_text library none (interval (interval_of 0 72001 1)) ≡ ok (codes "W001/T00:00:00/T20:00:01")
unfolding methods
print_interval = refl

parse_recurring_text :
    parse library none (codes "W001/T12:30:00A01:00:00")
    ≡ ok (recurring (recurring_of 45000 3600 1))
unfolding methods
parse_recurring_text = refl

plain_words :
    (parse library none (codes "none") ≡ ok undefined)
    × (parse library none (codes "bla") ≡ err Error.hue_exception)
unfolding methods
plain_words = (refl, refl)

-- A text that ends too early throws `std::out_of_range`.
parse_short : parse library none (codes "PT12") ≡ err Error.out_of_range
unfolding methods
parse_short = refl

parse_timestamp-timepoint_to_timestamp_example :
    (timepoint_to_timestamp library none party_time >>= parse_timestamp library none)
    ≡ ok party_time
parse_timestamp-timepoint_to_timestamp_example =
    parse_timestamp-timepoint_to_timestamp library none party_time party party_reads

parse-to_text_example :
    (to_text library none (absolute (absolute_of party_time 60)) >>= parse library none)
    ≡ ok (absolute (absolute_of party_time 60))
parse-to_text_example =
    parse-to_text (absolute (absolute_of party_time 60))
      (at_time party_time 60 party party_reads refl (omega arith))

parse-to_text_lost_example :
    (to_text library none (timer (timer_of 80 0 (pos 120))) >>= parse library none)
    ≡ ok (timer (timer_of 80 0 (pos 12)))
parse-to_text_lost_example =
    parse-to_text_lost library none 80 0 (omega arith) (omega arith) 120 (omega arith) (omega arith)

copy_construct-eq_iff_example :
    (copy_construct (pos 0) (absolute (absolute_of party_time 60))
      ≡ absolute (absolute_of party_time 60))
    ↔ (pos (60 * ticks_per_second) ≡ pos 0)
copy_construct-eq_iff_example = copy_construct-eq_iff (pos 0) (absolute (absolute_of party_time 60))

parse-throws_iff_example :
    (parse library none (codes "bla") ≡ err Error.hue_exception)
    ↔ ((is_letter b'b' ≡ false) × (bytes_eq (codes "bla") (codes "none") ≡ false))
parse-throws_iff_example = parse-throws_iff library none b'b' (codes "la") refl
