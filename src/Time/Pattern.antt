-- ===== src/Time/Pattern.antt =====
-- The classes of src/TimePattern.cpp that hold a time (`AbsoluteVariedTime`, `RecurringTime`,
-- `TimeInterval`, `Timer`), and their tagged union `TimePattern`.
pub mod Copy
pub mod Errors
pub mod Text
pub mod Repeats
pub mod Executions
pub mod Days
pub mod Intervals
pub mod RoundTrip
use hueplusplus.Base.{
  ℕ, suc, ◌+◌, ◌-◌, [], ◌∷◌, ◌++◌, Bool, true, false, not, ◌&&◌, ◌||◌, Option, none, some, Bytes,
  codes, length, bytes_eq, ltb, ◌==◌, if◌then◌else◌, Result, ok, err, Error, ◌>>=◌,
}
use hueplusplus.Base.Int.{ℤ, pos, eqb_ℤ}
use hueplusplus.Std.Text.{
  npos, add_size, sub_size, substr, substr_from, at?, find, find_from, count,
}
use hueplusplus.Std.Number.{to_string, is_digit, stoi}
use hueplusplus.Time.Duration.{duration_to_hh_mm_ss, parse_duration}
use hueplusplus.Time.Weekdays
use hueplusplus.Time.Weekdays.{Weekdays, is_all, all_days}
use hueplusplus.Time.Timestamp.{Zone, TimeLibrary, timepoint_to_timestamp, parse_timestamp}

-- A duration is a count of ticks, a time point such a count from the epoch.
pub record AbsoluteVariedTime : Type 0 where
  pub base : ℤ
  pub variation : ℤ

pub record RecurringTime : Type 0 where
  pub time : ℤ
  pub variation : ℤ
  pub days : Weekdays

pub record TimeInterval : Type 0 where
  pub start : ℤ
  pub finish : ℤ
  pub days : Weekdays

pub record Timer : Type 0 where
  pub expires : ℤ
  pub variation : ℤ
  pub num_executions : ℤ

pub data TimePattern : Type 0 where
  undefined : TimePattern
  absolute : AbsoluteVariedTime → TimePattern
  recurring : RecurringTime → TimePattern
  interval : TimeInterval → TimePattern
  timer : Timer → TimePattern

abbrev infinite_executions : ℤ
infinite_executions = pos 0

-- `A` and the variation, unless that is zero.
abbrev pub variation_text : ℤ → Result Bytes
variation_text variation =
    if eqb_ℤ variation (pos 0)
    then ok []
    else do text ← duration_to_hh_mm_ss variation; ok (b'A' ∷ text)

abbrev pub recurring_text : RecurringTime → Result Bytes
recurring_text r = do
  time ← duration_to_hh_mm_ss r.time
  variation ← variation_text r.variation
  ok ((b'W' ∷ Weekdays.to_string r.days) ++ (codes "/T" ++ (time ++ variation)))

abbrev pub days_prefix : Weekdays → Bytes
days_prefix days = if not (is_all days) then (b'W' ∷ Weekdays.to_string days) ++ codes "/" else []

abbrev pub interval_text : TimeInterval → Result Bytes
interval_text i = do
  start ← duration_to_hh_mm_ss i.start
  finish ← duration_to_hh_mm_ss i.finish
  ok (days_prefix i.days ++ (b'T' ∷ (start ++ (codes "/T" ++ finish))))

unfoldable pub is_recurring : Timer → Bool
is_recurring t = not (eqb_ℤ t.num_executions (pos 1))

-- At least two digits.
abbrev pub executions_text : ℤ → Bytes
executions_text num = let s = to_string num in if ltb (length s) 2 then b'0' ∷ s else s

abbrev pub repetition_prefix : ℤ → Bytes
repetition_prefix num =
    if eqb_ℤ num (pos 1)
    then []
    else b'R' ∷ ((if eqb_ℤ num infinite_executions then [] else executions_text num) ++ codes "/")

abbrev pub timer_text : Timer → Result Bytes
timer_text t = do
  expires ← duration_to_hh_mm_ss t.expires
  variation ← variation_text t.variation
  ok (repetition_prefix t.num_executions ++ (codes "PT" ++ (expires ++ variation)))

-- Behind the `R`: `s.at(1)`, and the two bytes from there.
abbrev repetitions_after : Option ℕ → Bytes → Result ℤ
repetitions_after none s = err Error.out_of_range
repetitions_after (some c) s = if c == b'/' then ok infinite_executions else substr s 1 2 >>= stoi

abbrev repetitions : ℕ → Bytes → Result ℤ
repetitions front s = if front == b'R' then repetitions_after (at? s 1) s else ok (pos 1)

-- With the places behind the `T` and of the `A`.
abbrev pub parse_timer_at : ℕ → ℕ → ℕ → Bytes → Result TimePattern
parse_timer_at start random_start front s = do
  num ← repetitions front s
  expires ← substr s start (sub_size random_start start) >>= parse_duration
  variance ←
      (if random_start == npos
        then ok (pos 0)
        else substr_from s (add_size random_start 1) >>= parse_duration)
  ok (timer (record { expires = expires; variation = variance; num_executions = num }))

unfoldable pub parse_timer : ℕ → Bytes → Result TimePattern
parse_timer front s = parse_timer_at (add_size (find s b'T') 1) (find s b'A') front s

unfoldable pub parse_recurring : Bytes → Result TimePattern
parse_recurring s = do
  days ← substr s 1 3 >>= Weekdays.parse
  time ← substr_from s 6 >>= parse_duration
  variation ← (if ltb 14 (length s) then substr_from s 15 >>= parse_duration else ok (pos 0))
  ok (recurring (record { time = time; variation = variation; days = days }))

-- With the places behind the first `T` and of the `/` from there on.
abbrev pub parse_interval_at : ℕ → ℕ → Bool → Bytes → Result TimePattern
parse_interval_at start finish with_days s = do
  days ← (if with_days then substr s 1 3 >>= Weekdays.parse else ok all_days)
  start_time ← substr s start (sub_size finish start) >>= parse_duration
  end_time ← substr_from s (add_size finish 2) >>= parse_duration
  ok (interval (record { start = start_time; finish = end_time; days = days }))

unfoldable pub parse_interval : Bool → Bytes → Result TimePattern
parse_interval with_days s =
    let start = add_size (find s b'T') 1 in
    parse_interval_at start (find_from s b'/' start) with_days s

module _ (C : TimeLibrary) (tz : Zone) where
  abbrev absolute_text : AbsoluteVariedTime → Result Bytes
  absolute_text a = do
    base ← timepoint_to_timestamp C tz a.base
    variation ← variation_text a.variation
    ok (base ++ variation)

  unfoldable pub to_text : TimePattern → Result Bytes
  to_text undefined = ok []
  to_text (absolute a) = absolute_text a
  to_text (recurring r) = recurring_text r
  to_text (interval i) = interval_text i
  to_text (timer t) = timer_text t

  -- Behind the 19 bytes of the timestamp, if there is an `A`.
  abbrev parse_variation : Bytes → Result ℤ
  parse_variation s = elim (at? s 19) [
    | none ↦ ok (pos 0)
    | some c ↦ if c == b'A' then substr_from s 20 >>= parse_duration else ok (pos 0)
  ]

  unfoldable pub parse_absolute : Bytes → Result AbsoluteVariedTime
  parse_absolute s = do
    time ← parse_timestamp C tz s
    variation ← parse_variation s
    ok (record { base = time; variation = variation })

  -- The branches on the first byte of a text that is neither empty nor `none`.
  abbrev parse_front : ℕ → Bytes → Result TimePattern
  parse_front front s =
      if is_digit front
      then (do a ← parse_absolute s; ok (absolute a))
      else if (front == b'R') || (front == b'P')
      then parse_timer front s
      else if (front == b'W') && (count b'/' s == 1)
      then parse_recurring s
      else if (front == b'T') || (front == b'W')
      then parse_interval (front == b'W') s
      else err Error.hue_exception

  unfoldable pub parse : Bytes → Result TimePattern
  parse [] = ok undefined
  parse (c ∷ s) = if bytes_eq (c ∷ s) (codes "none") then ok undefined else parse_front c (c ∷ s)
