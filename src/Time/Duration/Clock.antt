-- ===== src/Time/Duration/Clock.antt =====
-- A time of day as the eight bytes `hh:mm:ss`, written out digit by digit.
use hueplusplus.Base.{ℕ, ◌*◌, ◌/◌, ◌%◌, ◌≤◌, [], ◌∷◌, ◌≡◌, arith, Bytes, ok}
use hueplusplus.Base.Int.{pos, ◌+ℤ◌, ◌-ℤ◌}
use hueplusplus.Std.Number.Print.{digit, two_digits_lem}
use hueplusplus.Std.Number.RoundTrip.{stoi_two}
use hueplusplus.Time.Duration.{
  ticks_per_second, ticks_per_day, duration_to_hh_mm_ss, parse_duration,
}

abbrev pub hh : ℕ → ℕ
hh s = s / 3600

abbrev pub mm : ℕ → ℕ
mm s = s / 60 % 60

abbrev pub ss : ℕ → ℕ
ss s = s % 60

-- The clock text of a number of seconds, before `rest`.
abbrev pub clock : ℕ → Bytes → Bytes
clock s rest =
    digit (hh s / 10)
    ∷ digit (hh s % 10)
    ∷ b':'
    ∷ digit (mm s / 10)
    ∷ digit (mm s % 10)
    ∷ b':'
    ∷ digit (ss s / 10)
    ∷ digit (ss s % 10)
    ∷ rest

pub duration_to_hh_mm_ss-clock :
    (n : ℕ)
    → n ≤ ticks_per_day
    → duration_to_hh_mm_ss (pos n) ≡ ok (clock (n / ticks_per_second) [])
unfolding duration_to_hh_mm_ss ◌-ℤ◌
duration_to_hh_mm_ss-clock n h = ground (
  arith,
  two_digits_lem (hh (n / ticks_per_second)) (omega arith),
  two_digits_lem (mm (n / ticks_per_second)) (omega arith),
  two_digits_lem (ss (n / ticks_per_second)) (omega arith),
)

pub parse_duration-clock :
    (s : ℕ) (rest : Bytes)
    → s ≤ 86400
    → parse_duration (clock s rest) ≡ ok (pos (s * ticks_per_second))
unfolding parse_duration ◌+ℤ◌
parse_duration-clock s rest h = ground (
  arith,
  stoi_two (hh s / 10) (hh s % 10) (omega arith) (omega arith),
  stoi_two (mm s / 10) (mm s % 10) (omega arith) (omega arith),
  stoi_two (ss s / 10) (ss s % 10) (omega arith) (omega arith),
)
