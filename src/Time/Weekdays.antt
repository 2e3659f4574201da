-- ===== src/Time/Weekdays.antt =====
-- `Weekdays` of src/TimePattern.cpp: a set of days as the bits of an `int`.
pub mod RoundTrip
pub mod Union
use Prim.Native.Nat.{bit_and, bit_or}
use hueplusplus.Base.{
  ℕ, suc, ◌+◌, ◌-◌, ◌^◌, ◌++◌, Bool, not, Bytes, length, replicate, ltb, ◌==◌, if◌then◌else◌,
  Result, ok, ◌>>=◌,
}
use hueplusplus.Base.Int.{ℤ, pos, negsuc, eqb_ℤ}
use hueplusplus.Std.Number
use hueplusplus.Std.Number.{stoi}

pub record Weekdays : Type 0 where
  pub bitmask : ℤ

-- The 32 bits of an `int`, and the `int` of 32 bits.
abbrev pub bits : ℤ → ℕ
bits (pos n) = n
bits (negsuc n) = 2 ^ 32 - suc n

abbrev pub of_bits : ℕ → ℤ
of_bits b = if ltb b (2 ^ 31) then pos b else negsuc (2 ^ 32 - suc b)

abbrev pub days_of : ℤ → Weekdays
days_of m = record { bitmask = m }

-- `Weekdays()` and `Weekdays(num)`, the latter for a day that the shift is defined for.
abbrev pub none_of : Weekdays
none_of = days_of (pos 0)

abbrev pub of_day : ℕ → Weekdays
of_day num = days_of (pos (2 ^ num))

unfoldable pub is_none : Weekdays → Bool
is_none w = eqb_ℤ w.bitmask (pos 0)

unfoldable pub is_all : Weekdays → Bool
is_all w = eqb_ℤ w.bitmask (pos (2 ^ 7 - 1))

-- `(bitmask & mask) != 0`
abbrev pub has : Weekdays → ℕ → Bool
has w mask = not (bit_and (bits w.bitmask) mask == 0)

unfoldable pub is_monday : Weekdays → Bool
is_monday w = has w 1

unfoldable pub is_tuesday : Weekdays → Bool
is_tuesday w = has w 2

unfoldable pub is_wednesday : Weekdays → Bool
is_wednesday w = has w 4

unfoldable pub is_thursday : Weekdays → Bool
is_thursday w = has w 8

unfoldable pub is_friday : Weekdays → Bool
is_friday w = has w 16

unfoldable pub is_saturday : Weekdays → Bool
is_saturday w = has w 32

unfoldable pub is_sunday : Weekdays → Bool
is_sunday w = has w 64

unfoldable pub to_string : Weekdays → Bytes
to_string w =
    let result = Number.to_string w.bitmask in
    if ltb (length result) 3 then replicate (3 - length result) b'0' ++ result else result

unfoldable pub union_with : Weekdays → Weekdays → Weekdays
union_with w other = record other {
  bitmask = of_bits (bit_or (bits other.bitmask) (bits w.bitmask));
}

abbrev pub all_days : Weekdays
all_days = days_of (pos (2 ^ 7 - 1))

abbrev pub monday : Weekdays
monday = of_day 0

abbrev pub tuesday : Weekdays
tuesday = of_day 1

abbrev pub wednesday : Weekdays
wednesday = of_day 2

abbrev pub thursday : Weekdays
thursday = of_day 3

abbrev pub friday : Weekdays
friday = of_day 4

abbrev pub saturday : Weekdays
saturday = of_day 5

abbrev pub sunday : Weekdays
sunday = of_day 6

unfoldable pub parse : Bytes → Result Weekdays
parse s = do mask ← stoi s; ok (days_of mask)
