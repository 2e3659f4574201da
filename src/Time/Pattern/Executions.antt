-- ===== src/Time/Pattern/Executions.antt =====
-- Timers: printed and read back, for the numbers of executions that two digits hold, and for more.
use hueplusplus.Base.{
  bytes_eq, ℕ, zero, suc, ◌/◌, ◌%◌, ◌≤◌, ◌<◌, ◌∷◌, ◌++◌, ◌≡◌, ap, ◌∙◌, refl, arith, Bytes, codes,
  ok, ◌>>=◌,
}
use hueplusplus.Base.Int.{pos}
use hueplusplus.Std.Number.{to_string}
use hueplusplus.Std.Number.Print.{digit, decimal_one, decimal_two, decimal_three}
use hueplusplus.Time.Timestamp.{Zone, TimeLibrary}
use hueplusplus.Time.Duration.Clock.{clock}
use hueplusplus.Time.Pattern.{timer, repetition_prefix, to_text, parse}
use hueplusplus.Time.Pattern.Text.{tail}
use hueplusplus.Time.Pattern.Repeats.{
  timer_of, timer_text-clock, parse_once, parse_forever, parse_two, parse_three,
}

prefix_two :
    (n : ℕ)
    → 2 ≤ n
    → n < 100
    → repetition_prefix (pos n) ≡ b'R' ∷ digit (n / 10) ∷ digit (n % 10) ∷ codes "/"
unfolding to_string
prefix_two n lo hi = ground (arith, decimal_one n, decimal_two n)

prefix_three :
    (n : ℕ)
    → 100 ≤ n
    → n < 1000
    → repetition_prefix (pos n)
      ≡ b'R' ∷ digit (n / 10 / 10) ∷ digit (n / 10 % 10) ∷ digit (n % 10) ∷ codes "/"
unfolding to_string
prefix_three n lo hi = ground (arith, decimal_three n)

module _ (C : TimeLibrary) (tz : Zone) (e v : ℕ) (he : e ≤ 86400) (hv : v ≤ 86400) where
  print_with :
      (n : ℕ) (front : ℕ) (prefix : Bytes)
      → repetition_prefix (pos n) ≡ prefix
      → to_text C tz (timer (timer_of e v (pos n)))
        ≡ ok (prefix ++ (codes "PT" ++ clock e (tail v)))
  unfolding to_text
  print_with n front prefix h =
      timer_text-clock e v he hv (pos n) ∙ ap (λ p. ok (p ++ (codes "PT" ++ clock e (tail v)))) h

  print_parse_two :
      (n : ℕ)
      → 2 ≤ n
      → n < 100
      → (to_text C tz (timer (timer_of e v (pos n))) >>= parse C tz)
        ≡ ok (timer (timer_of e v (pos n)))
  unfolding parse bytes_eq
  print_parse_two n lo hi = rw (print_with n b'R' _ (prefix_two n lo hi)) (
      parse_two (n / 10) (n % 10) e v (omega arith) (omega arith) he hv
      ∙ ap (λ k. ok (timer (timer_of e v (pos k)))) (omega arith))

  -- A timer of at most 24 hours with a variation of at most 24 hours, both in whole seconds, and
  -- with 0 (endlessly often) to 99 executions is printed, and read back as the same timer.
  pub parse-to_text_timer :
      (n : ℕ)
      → n < 100
      → (to_text C tz (timer (timer_of e v (pos n))) >>= parse C tz)
        ≡ ok (timer (timer_of e v (pos n)))
  unfolding parse bytes_eq
  parse-to_text_timer zero h = rw (print_with 0 b'R' _ refl) (parse_forever e v he hv)
  parse-to_text_timer (suc zero) h = rw (print_with 1 b'P' _ refl) (parse_once e v he hv)
  parse-to_text_timer (suc (suc n)) h = print_parse_two (suc (suc n)) (omega arith) h

  -- A timer of at most 24 hours, in whole seconds, with 100 to 999 executions is printed, but read
  -- back with a tenth of the executions: the third digit is lost.
  pub parse-to_text_lost :
      (n : ℕ)
      → 100 ≤ n
      → n < 1000
      → (to_text C tz (timer (timer_of e v (pos n))) >>= parse C tz)
        ≡ ok (timer (timer_of e v (pos (n / 10))))
  unfolding parse bytes_eq
  parse-to_text_lost n lo hi = rw (print_with n b'R' _ (prefix_three n lo hi)) (
      parse_three (n / 10 / 10) (n / 10 % 10) (n % 10) e v (omega arith) (omega arith) (omega arith)
        he hv
      ∙ ap (λ k. ok (timer (timer_of e v (pos k)))) (omega arith))
