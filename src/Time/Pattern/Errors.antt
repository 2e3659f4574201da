-- ===== src/Time/Pattern/Errors.antt =====
-- Which exceptions leave `TimePattern::parse`.
use hueplusplus.Base.{
  ℕ, [], ◌∷◌, ◌≡◌, ◌≢◌, ◌↔◌, ◌||◌, Bool, true, false, arith, Bytes, bytes_eq, codes, ◌==◌, Result,
  ok, err, Error, ◌>>=◌, if◌then◌else◌, ltb, length, ◌^◌, Option, none, some,
}
use hueplusplus.Std.Text.{npos, find, substr, substr_from, at?}
use hueplusplus.Std.Number.{is_digit, stoi, signed, magnitude, to_int, skip_space, scan_digits}
use hueplusplus.Time.Duration.{parse_duration}
use hueplusplus.Time.Weekdays
use hueplusplus.Time.Timestamp.{Zone, TimeLibrary}
use hueplusplus.Time.Pattern.{
  parse_timer, parse_recurring, parse_interval, repetitions, repetitions_after, parse,
}

-- The call does not throw a `HueException`.
abbrev NoHue {ℓ} : {A : Type ℓ} → Result A → Type 0
NoHue (ok a) = Unit
NoHue (err Error.hue_exception) = ⊥
NoHue (err _) = Unit

bind-NoHue {ℓ κ} :
    {A : Type ℓ} {B : Type κ} (m : Result A) (f : A → Result B)
    → NoHue m
    → ((a : A) → NoHue (f a))
    → NoHue (m >>= f)
bind-NoHue (ok a) f hm hf = hf a
bind-NoHue (err Error.hue_exception) f hm hf = hm
bind-NoHue (err Error.api_response_exception) f hm hf = tt
bind-NoHue (err Error.invalid_argument) f hm hf = tt
bind-NoHue (err Error.out_of_range) f hm hf = tt
bind-NoHue (err Error.json_exception) f hm hf = tt
bind-NoHue (err Error.system_error) f hm hf = tt
bind-NoHue (err Error.unspecified) f hm hf = tt

if-NoHue {ℓ} :
    {A : Type ℓ} (b : Bool) (x y : Result A) → NoHue x → NoHue y → NoHue (if b then x else y)
if-NoHue true x y hx hy = hx
if-NoHue false x y hx hy = hy

to_int-NoHue : (negative : Bool) (n : ℕ) → NoHue (to_int negative n)
unfolding to_int
to_int-NoHue true n = if-NoHue (ltb (2 ^ 31) n) _ _ tt tt
to_int-NoHue false n = if-NoHue (ltb n (2 ^ 31)) _ _ tt tt

magnitude-NoHue : (negative : Bool) (s : Bytes) → NoHue (magnitude negative s)
unfolding magnitude
magnitude-NoHue negative [] = tt
magnitude-NoHue negative (c ∷ s) =
    if-NoHue (is_digit c) _ _ (to_int-NoHue negative (scan_digits (c ∷ s) 0)) tt

signed-NoHue : (s : Bytes) → NoHue (signed s)
unfolding signed
signed-NoHue [] = tt
signed-NoHue (c ∷ s) =
    if-NoHue (c == b'-') _ _ (magnitude-NoHue true s)
      (if-NoHue (c == b'+') _ _ (magnitude-NoHue false s) (magnitude-NoHue false (c ∷ s)))

stoi-NoHue : (s : Bytes) → NoHue (stoi s)
unfolding stoi
stoi-NoHue s = signed-NoHue (skip_space s)

substr-NoHue : (s : Bytes) (i n : ℕ) → NoHue (substr s i n)
substr-NoHue s i n = if-NoHue (ltb (length s) i) _ _ tt tt

substr_from-NoHue : (s : Bytes) (i : ℕ) → NoHue (substr_from s i)
substr_from-NoHue s i = if-NoHue (ltb (length s) i) _ _ tt tt

parse_duration-NoHue : (s : Bytes) → NoHue (parse_duration s)
unfolding parse_duration
parse_duration-NoHue s =
    bind-NoHue _ _ (field 0)
      λ hour. bind-NoHue _ _ (field 3) λ min. bind-NoHue _ _ (field 6) λ sec. tt
  where
    field : (i : ℕ) → NoHue (substr s i 2 >>= stoi)
    field i = bind-NoHue (substr s i 2) stoi (substr-NoHue s i 2) stoi-NoHue

days-NoHue : (s : Bytes) → NoHue (substr s 1 3 >>= Weekdays.parse)
unfolding Weekdays.parse
days-NoHue s =
    bind-NoHue (substr s 1 3) Weekdays.parse (substr-NoHue s 1 3)
      λ t. bind-NoHue (stoi t) _ (stoi-NoHue t) λ _. tt

part-NoHue : (s : Bytes) (i n : ℕ) → NoHue (substr s i n >>= parse_duration)
part-NoHue s i n =
    bind-NoHue (substr s i n) parse_duration (substr-NoHue s i n) parse_duration-NoHue

rest-NoHue : (s : Bytes) (i : ℕ) → NoHue (substr_from s i >>= parse_duration)
rest-NoHue s i =
    bind-NoHue (substr_from s i) parse_duration (substr_from-NoHue s i) parse_duration-NoHue

repetitions-NoHue : (front : ℕ) (s : Bytes) → NoHue (repetitions front s)
repetitions-NoHue front s = if-NoHue (front == b'R') _ _ (after (at? s 1)) tt
  where
    after : (c : Option ℕ) → NoHue (repetitions_after c s)
    after none = tt
    after (some c) =
        if-NoHue (c == b'/') _ _ tt (bind-NoHue (substr s 1 2) stoi (substr-NoHue s 1 2) stoi-NoHue)

parse_timer-NoHue : (front : ℕ) (s : Bytes) → NoHue (parse_timer front s)
unfolding parse_timer
parse_timer-NoHue front s = bind-NoHue (repetitions front s) _ (repetitions-NoHue front s) λ num.
    bind-NoHue _ _ (part-NoHue s _ _)
      λ expires. bind-NoHue _ _ (if-NoHue (find s b'A' == npos) _ _ tt (rest-NoHue s _)) λ _. tt

parse_recurring-NoHue : (s : Bytes) → NoHue (parse_recurring s)
unfolding parse_recurring
parse_recurring-NoHue s = bind-NoHue _ _ (days-NoHue s) λ days.
    bind-NoHue _ _ (rest-NoHue s 6)
      λ time. bind-NoHue _ _ (if-NoHue (ltb 14 (length s)) _ _ (rest-NoHue s 15) tt) λ _. tt

parse_interval-NoHue : (with_days : Bool) (s : Bytes) → NoHue (parse_interval with_days s)
unfolding parse_interval
parse_interval-NoHue with_days s =
    bind-NoHue _ _ (if-NoHue with_days _ _ (days-NoHue s) tt)
      λ days. bind-NoHue _ _ (part-NoHue s _ _) λ start. bind-NoHue _ _ (rest-NoHue s _) λ _. tt

-- The first byte of the text of a timer, a recurring time or an interval.
abbrev pub is_letter : ℕ → Bool
is_letter c = (c == b'R') || (c == b'P') || (c == b'W') || (c == b'T')

ne-NoHue {ℓ} : {A : Type ℓ} (r : Result A) → NoHue r → r ≢ err Error.hue_exception
ne-NoHue (ok a) h e = cc
ne-NoHue (err Error.hue_exception) h e = h
ne-NoHue (err Error.api_response_exception) h e = cc
ne-NoHue (err Error.invalid_argument) h e = cc
ne-NoHue (err Error.out_of_range) h e = cc
ne-NoHue (err Error.json_exception) h e = cc
ne-NoHue (err Error.system_error) h e = cc
ne-NoHue (err Error.unspecified) h e = cc

-- For a text that is not empty and does not begin with a digit, TimePattern::parse throws a
-- HueException exactly if the text begins with none of R, P, W, T and is not "none"; whatever else
-- is wrong with a text that begins with one of the letters makes another exception leave parse, or
-- none.
pub parse-throws_iff :
    (C : TimeLibrary) (tz : Zone) (c : ℕ) (s : Bytes)
    → is_digit c ≡ false
    → (parse C tz (c ∷ s) ≡ err Error.hue_exception)
      ↔ ((is_letter c ≡ false) × (bytes_eq (c ∷ s) (codes "none") ≡ false))
unfolding parse bytes_eq
parse-throws_iff C tz c s h = ground (
  arith,
  ne-NoHue _ (parse_timer-NoHue c (c ∷ s)),
  ne-NoHue _ (parse_recurring-NoHue (c ∷ s)),
  ne-NoHue _ (parse_interval-NoHue true (c ∷ s)),
  ne-NoHue _ (parse_interval-NoHue false (c ∷ s)),
)
