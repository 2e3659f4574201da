-- ===== src/Time/Weekdays/Union.antt =====
-- `unionWith` holds exactly the days of the two sets.
use Prim.Native.Nat.{bit_and, bit_or}
use hueplusplus.Base.{ℕ, ◌-◌, ◌^◌, ◌<◌, ◌≡◌, ◌∙◌, ◌||◌, max, not, Bool, arith, ◌==◌}
use hueplusplus.Base.Bits.{bit_and-bit_or, bit_or-lt-pow}
use hueplusplus.Base.Int.{ℤ, pos, negsuc, ◌≤ℤ◌}
use hueplusplus.Time.Weekdays.{
  Weekdays, bits, of_bits, has, is_monday, is_tuesday, is_wednesday, is_thursday, is_friday,
  is_saturday, is_sunday, union_with,
}

-- The value fits an `int`.
abbrev pub IsInt : ℤ → Type 0
IsInt z = (negsuc (2 ^ 31 - 1) ≤ℤ z) × (z ≤ℤ pos (2 ^ 31 - 1))

bits-lt : (z : ℤ) → IsInt z → bits z < 2 ^ 32
bits-lt (pos n) h = omega arith
bits-lt (negsuc n) h = omega arith

bits-of_bits : (b : ℕ) → b < 2 ^ 32 → bits (of_bits b) ≡ b
bits-of_bits b h = ground arith

not-max : (x y : ℕ) → not (max x y == 0) ≡ (not (x == 0) || not (y == 0))
not-max x y = ground arith

has-union_with :
    (k : ℕ) (v w : Weekdays)
    → IsInt v.bitmask
    → IsInt w.bitmask
    → has (union_with v w) (2 ^ k) ≡ (has w (2 ^ k) || has v (2 ^ k))
unfolding union_with
has-union_with k v w hv hw = ground (
  arith,
  bits-of_bits (bit_or (bits w.bitmask) (bits v.bitmask)) (
      bit_or-lt-pow 32 (bits w.bitmask) (bits v.bitmask) (bits-lt w.bitmask hw)
        (bits-lt v.bitmask hv)),
  bit_and-bit_or k (bits w.bitmask) (bits v.bitmask),
  not-max (bit_and (bits w.bitmask) (2 ^ k)) (bit_and (bits v.bitmask) (2 ^ k)),
)

-- What it is for a test of a day to hold of a union exactly if it holds of one of the sets.
abbrev pub Unites : (Weekdays → Bool) → Weekdays → Weekdays → Type 0
Unites is_day v w = is_day (union_with v w) ≡ (is_day v || is_day w)

or_comm : (a b : Bool) → (a || b) ≡ (b || a)
or_comm a b = ground arith

unites :
    (k : ℕ) (v w : Weekdays) → IsInt v.bitmask → IsInt w.bitmask → Unites (λ u. has u (2 ^ k)) v w
unites k v w hv hw = has-union_with k v w hv hw ∙ or_comm (has w (2 ^ k)) (has v (2 ^ k))

-- For every two bitmasks that are values of an int, negative ones included, each of the seven days
-- is in unionWith exactly if it is in one of the two sets.
pub union_with-days :
    (v w : Weekdays)
    → IsInt v.bitmask
    → IsInt w.bitmask
    → Unites is_monday v w
      × Unites is_tuesday v w
      × Unites is_wednesday v w
      × Unites is_thursday v w
      × Unites is_friday v w
      × Unites is_saturday v w
      × Unites is_sunday v w
unfolding is_monday is_tuesday is_wednesday is_thursday is_friday is_saturday is_sunday
union_with-days v w hv hw = (
  unites 0 v w hv hw,
  unites 1 v w hv hw,
  unites 2 v w hv hw,
  unites 3 v w hv hw,
  unites 4 v w hv hw,
  unites 5 v w hv hw,
  unites 6 v w hv hw,
)
