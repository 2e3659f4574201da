-- ===== src/Std/Number/Whole.antt =====
-- `std::stoi` reads back what `std::to_string` prints of an `int`.
use hueplusplus.Base.{
  ℕ, zero, suc, ◌+◌, ◌*◌, ◌/◌, ◌%◌, ◌^◌, ◌<◌, ◌≤◌, [], ◌∷◌, ◌≡◌, refl, ap, sym, subst, ◌∙◌, Bool,
  true, false, Bytes, arith, ok, ltb, ◌⊎◌, inl, inr, Bool-cases,
}
use hueplusplus.Base.Int.{ℤ, pos, negsuc}
use hueplusplus.Std.Number.{
  emit, decimal, to_string, scan_digits, skip_space, magnitude, signed, to_int, stoi,
}
use hueplusplus.Std.Number.Print.{digit, emit_last, emit_next}
use native.Mathlib.Nat.{pow-suc}

-- The values of an `int`
abbrev pub IsInt : ℤ → Type 0
IsInt (pos n) = n < 2 ^ 31
IsInt (negsuc n) = n < 2 ^ 31

scan_digit :
    (d m : ℕ) (out : Bytes)
    → d < 10
    → scan_digits ((b'0' + d) ∷ out) m ≡ scan_digits out (m * 10 + d)
unfolding scan_digits
scan_digit d m out h = ground arith

scan_first : (n : ℕ) (out : Bytes) → n < 10 → scan_digits (digit n ∷ out) 0 ≡ scan_digits out n
scan_first n out h = scan_digit n 0 out h ∙ ap (scan_digits out) (omega arith)

scan-emit :
    (rounds n : ℕ) (out : Bytes)
    → n < 10 ^ suc rounds
    → scan_digits (emit (suc rounds) n out) 0 ≡ scan_digits out n
scan-emit zero n out small =
    ap (λ s. scan_digits s 0) (emit_last 0 n out (omega arith)) ∙ scan_first n out (omega arith)
scan-emit (suc rounds) n out small =
    by_size (Bool-cases (ltb n 10)) (scan-emit rounds (n / 10) (digit (n % 10) ∷ out))
  where
    by_size :
        (ltb n 10 ≡ true) ⊎ (ltb n 10 ≡ false)
        → (n / 10 < 10 ^ suc rounds
            → scan_digits (emit (suc rounds) (n / 10) (digit (n % 10) ∷ out)) 0
              ≡ scan_digits (digit (n % 10) ∷ out) (n / 10))
        → scan_digits (emit (suc (suc rounds)) n out) 0 ≡ scan_digits out n
    by_size (inl one) rest =
        ap (λ s. scan_digits s 0) (emit_last (suc rounds) n out (ground (arith, one)))
        ∙ scan_first n out (ground (arith, one))
    by_size (inr more) rest =
        ap (λ s. scan_digits s 0) (emit_next (suc rounds) n out (ground (arith, more)))
        ∙ rest (omega (arith, pow-suc 10 (suc rounds)))
        ∙ scan_digit (n % 10) (n / 10) out (omega arith)
        ∙ ap (scan_digits out) (omega arith)

-- What is printed begins with a digit.
BeginsWithDigit : Bytes → Type 0
BeginsWithDigit s = (d : ℕ) × (rest : Bytes) × (d < 10) × (s ≡ digit d ∷ rest)

emit-BeginsWithDigit :
    (rounds n : ℕ) (out : Bytes) → n < 10 ^ suc rounds → BeginsWithDigit (emit (suc rounds) n out)
unfolding BeginsWithDigit
emit-BeginsWithDigit zero n out small = (n, out, omega arith, emit_last 0 n out (omega arith))
emit-BeginsWithDigit (suc rounds) n out small =
    by_size (Bool-cases (ltb n 10)) (emit-BeginsWithDigit rounds (n / 10) (digit (n % 10) ∷ out))
  where
    by_size :
        (ltb n 10 ≡ true) ⊎ (ltb n 10 ≡ false)
        → (n / 10 < 10 ^ suc rounds
            → BeginsWithDigit (emit (suc rounds) (n / 10) (digit (n % 10) ∷ out)))
        → BeginsWithDigit (emit (suc (suc rounds)) n out)
    by_size (inl one) rest =
        (n, out, ground (arith, one), emit_last (suc rounds) n out (ground (arith, one)))
    by_size (inr more) rest =
        subst BeginsWithDigit (sym (emit_next (suc rounds) n out (ground (arith, more))))
          (rest (omega (arith, pow-suc 10 (suc rounds))))

-- The digits of a number, read as an `int` with or without a minus before them.
magnitude-decimal :
    (negative : Bool) (n : ℕ) → n ≤ 2 ^ 31 → magnitude negative (decimal n) ≡ to_int negative n
unfolding magnitude decimal BeginsWithDigit scan_digits
magnitude-decimal negative n small =
    let (d, rest, below, printed) = emit-BeginsWithDigit 19 n [] (omega arith) in
    ap (magnitude negative) printed
    ∙ by_digit d rest below
    ∙ ap (λ s. to_int negative (scan_digits s 0)) (sym printed)
    ∙ ap (to_int negative) (scan-emit 19 n [] (omega arith) ∙ scan_end n)
  where
    scan_end : (m : ℕ) → scan_digits [] m ≡ m
    scan_end m = refl

    by_digit :
        (d : ℕ) (rest : Bytes)
        → d < 10
        → magnitude negative (digit d ∷ rest) ≡ to_int negative (scan_digits (digit d ∷ rest) 0)
    by_digit d rest below = ground arith

signed-digit :
    (d : ℕ) (rest : Bytes)
    → d < 10
    → signed (skip_space (digit d ∷ rest)) ≡ magnitude false (digit d ∷ rest)
unfolding signed skip_space
signed-digit d rest below = ground arith

pub stoi-to_string : (z : ℤ) → IsInt z → stoi (to_string z) ≡ ok z
unfolding stoi to_string decimal BeginsWithDigit to_int signed skip_space
stoi-to_string (pos n) small =
    let (d, rest, below, printed) = emit-BeginsWithDigit 19 n [] (omega arith) in
    ap (λ s. signed (skip_space s)) printed
    ∙ signed-digit d rest below
    ∙ ap (magnitude false) (sym printed)
    ∙ magnitude-decimal false n (omega arith)
    ∙ fits
  where
    fits : to_int false n ≡ ok (pos n)
    fits = ground arith
stoi-to_string (negsuc n) small = magnitude-decimal true (suc n) (omega arith) ∙ fits
  where
    fits : to_int true (suc n) ≡ ok (negsuc n)
    fits = ground arith
