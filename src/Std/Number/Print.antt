-- ===== src/Std/Number/Print.antt =====
-- The digits that `to_string` and `%02u` print, for numbers of at most three digits.
use hueplusplus.Base.{
  ℕ, suc, ◌+◌, ◌/◌, ◌%◌, ◌≤◌, ◌<◌, [], ◌∷◌, ◌≡◌, ◌∙◌, arith, Bytes, lt→ltb, le→ltb,
}
use hueplusplus.Std.Number.{emit, decimal, two_digits}

abbrev pub digit : ℕ → ℕ
digit n = b'0' + n

pub emit_last : (rounds n : ℕ) (out : Bytes) → n < 10 → emit (suc rounds) n out ≡ digit n ∷ out
unfolding emit
emit_last rounds n out h = rw (lt→ltb n 10 h)

pub emit_next :
    (rounds n : ℕ) (out : Bytes)
    → 10 ≤ n
    → emit (suc rounds) n out ≡ emit rounds (n / 10) (digit (n % 10) ∷ out)
unfolding emit
emit_next rounds n out h = rw (le→ltb n 10 h)

pub decimal_one : (n : ℕ) → n < 10 → decimal n ≡ digit n ∷ []
unfolding decimal
decimal_one n h = emit_last 19 n [] h

pub decimal_two : (n : ℕ) → 10 ≤ n → n < 100 → decimal n ≡ digit (n / 10) ∷ digit (n % 10) ∷ []
unfolding decimal
decimal_two n lo hi = emit_next 19 n [] lo ∙ emit_last 18 (n / 10) _ (omega arith)

pub decimal_three :
    (n : ℕ)
    → 100 ≤ n
    → n < 1000
    → decimal n ≡ digit (n / 10 / 10) ∷ digit (n / 10 % 10) ∷ digit (n % 10) ∷ []
unfolding decimal
decimal_three n lo hi =
    emit_next 19 n [] (omega arith)
    ∙ emit_next 18 (n / 10) _ (omega arith)
    ∙ emit_last 17 (n / 10 / 10) _ (omega arith)

pub decimal_four :
    (n : ℕ)
    → 1000 ≤ n
    → n < 10000
    → decimal n
      ≡ digit (n / 10 / 10 / 10)
        ∷ digit (n / 10 / 10 % 10)
        ∷ digit (n / 10 % 10)
        ∷ digit (n % 10)
        ∷ []
unfolding decimal
decimal_four n lo hi =
    emit_next 19 n [] (omega arith)
    ∙ emit_next 18 (n / 10) _ (omega arith)
    ∙ emit_next 17 (n / 10 / 10) _ (omega arith)
    ∙ emit_last 16 (n / 10 / 10 / 10) _ (omega arith)

-- A number below 100 is printed by `%02u` as its two digits.
pub two_digits_lem : (n : ℕ) → n < 100 → two_digits n ≡ digit (n / 10) ∷ digit (n % 10) ∷ []
unfolding two_digits
two_digits_lem n h = ground (arith, decimal_one n, decimal_two n)
