-- ===== src/Validation/Examples.antt =====
-- The theorems on replies at inputs: a request for a brightness of 100.
use hueplusplus.Base.{
  All, [], ◌∷◌, ◌+◌, ◌-◌, ◌*◌, ◌/◌, ◌≡◌, ◌≢◌, refl, leb, true, false, codes, ok, bytes_eq,
}
use hueplusplus.Base.Int.{pos, pos_part}
use hueplusplus.Std.Text.{begins_with}
use hueplusplus.Json.Value.{Value, obj, arr, field, stop, cons, nil, int, values_lib, equal}
use hueplusplus.Validation.{
  Floats, with_slash, confirms, last_confirms, succeeds, all_succeed, validate_put_reply,
}
use hueplusplus.Validation.Confirmed.{IsConfirmed, validate_put_reply-IsConfirmed}

-- Floats without a sign, as counts of ten-thousandths.
abbrev pub floats : Floats values_lib
floats = record {
  zero = 0;
  one = 10000;
  half = 5000;
  minus_half = 0;
  ten_thousandth = 1;
  lt = λ a b. leb (a + 1) b;
  le = leb;
  sub = λ a b. (a - b) + (b - a);
  abs = λ a. a;
  round_254 = λ a. pos (a / 39);
  over_254 = λ z. pos_part z * 39;
  over_255 = λ z. pos_part z * 39;
}

methods : Unit {0}
unfolding with_slash begins_with confirms last_confirms succeeds all_succeed validate_put_reply
    equal bytes_eq
methods = tt

abbrev request : Value
request = obj (field (codes "bri") (int (pos 100)) stop)

abbrev success : Value → Value
success v = obj (field (codes "success") (obj (field (codes "/l/bri") v stop)) stop)

accepted :
    validate_put_reply values_lib floats
      (codes "/l")
      request
      (arr (cons (success (int (pos 100))) nil))
    ≡ ok true
unfolding methods
accepted = refl

refused :
    validate_put_reply values_lib floats
      (codes "/l")
      request
      (arr (cons (success (int (pos 99))) nil))
    ≡ ok false
unfolding methods
refused = refl

validate_put_reply-IsConfirmed_example :
    ((success (int (pos 100)) ∷ []) ≢ [])
    × All (IsConfirmed values_lib floats (codes "/l/") request) (success (int (pos 100)) ∷ [])
unfolding methods
validate_put_reply-IsConfirmed_example =
    validate_put_reply-IsConfirmed values_lib floats (codes "/l/") request (codes "/l")
      (arr (cons (success (int (pos 100))) nil)) refl refl
