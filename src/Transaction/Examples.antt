-- ===== src/Transaction/Examples.antt =====
-- The theorems on `commit` at inputs: a light that is off, and a bridge that confirms a brightness.
use hueplusplus.Base.{ℕ, err, Error, inl, inr, [], ◌+◌, ◌≡◌, refl, true, codes, some, ok, bytes_eq}
use hueplusplus.Base.Int.{pos}
use hueplusplus.Json.Value.{
  Value, obj, arr, field, stop, cons, nil, flag, int, text, float, nothing, values_lib, equal,
}
use hueplusplus.Json.Value.Laws.{values_laws, entry_laws, key_laws}
use hueplusplus.Validation.{
  with_slash, confirms, last_confirms, succeeds, all_succeed, validate_put_reply,
}
use hueplusplus.Std.Text.{begins_with}
use hueplusplus.Validation.Examples.{floats}
use hueplusplus.Commands.{
  Network, Line, response, request, run_with_timeout, handle_error, find_error, combined_path,
}
use hueplusplus.Transaction.{
  with_on, is_redundant, trim_entries, trim_request, change_state, send, commit,
}
use hueplusplus.Transaction.Trim.{IsTrimmed, trim_request-IsTrimmed}
use hueplusplus.Transaction.Silent.{IsSilent}
use hueplusplus.Transaction.Shown.{commit-IsSilent}
use hueplusplus.Transaction.Commit.{LeavesState, on_state, commit-LeavesState}

methods : Unit {0}
unfolding with_slash begins_with confirms last_confirms succeeds all_succeed validate_put_reply
    equal bytes_eq with_on is_redundant trim_entries trim_request change_state send commit request
    run_with_timeout handle_error find_error combined_path
methods = tt

abbrev state : Value
state = obj (field (codes "on") (flag true) (field (codes "bri") (int (pos 100)) stop))

abbrev changes : Value
changes = obj (field (codes "on") (flag true) (field (codes "bri") (int (pos 30)) stop))

abbrev reply : Value
reply = arr (
    cons (obj (field (codes "success") (obj (field (codes "/l/bri") (int (pos 30)) stop)) stop))
      nil)

abbrev bridge : Network values_lib
bridge = record { call = λ n t method uri body. (response reply, t + 10); wake = λ t. t }

abbrev line : Line
line = record { time = 1000; timeout = 0; calls = 0; starts = [] }

left : trim_request values_lib floats (some state) changes ≡ record {
  outcome = ok tt;
  request = obj (field (codes "bri") (int (pos 30)) stop);
  state = some state;
}
unfolding methods
left = refl

state_after :
    (commit values_lib floats bridge
      (codes "u")
      100
      true
      (on_state values_lib floats (codes "/l") state changes)
      line).transaction.state
    ≡ some (obj (field (codes "on") (flag true) (field (codes "bri") (int (pos 30)) stop)))
unfolding methods
state_after = refl

trim_request-IsTrimmed_example :
    IsTrimmed values_lib floats state changes
      (trim_request values_lib floats (some state) changes).request
trim_request-IsTrimmed_example =
    trim_request-IsTrimmed values_lib floats entry_laws state changes refl

commit-LeavesState_example : LeavesState values_lib floats true state (
    commit values_lib floats bridge
      (codes "u")
      100
      true
      (on_state values_lib floats (codes "/l") state changes)
      line)
commit-LeavesState_example =
    commit-LeavesState values_lib floats bridge (codes "u") 100 values_laws entry_laws true
      (codes "/l") state changes line refl refl

-- An array without numbers is filled, and an exception leaves `trimRequest`.
abbrev short : Value
short = obj (field (codes "colormode") (text (codes "xy")) (field (codes "xy") (arr nil) stop))

abbrev color : ℕ → Value
color x = arr (cons (float x) (cons (float 4000) nil))

filled :
    trim_request values_lib floats (some short) (obj (field (codes "xy") (color 3000) stop))
    ≡ record {
      outcome = err Error.json_exception;
      request = obj (field (codes "xy") (color 3000) stop);
      state = some (
          obj (
            field
              (codes "colormode")
              (text (codes "xy"))
              (field (codes "xy") (arr (cons nothing nil)) stop)));
    }
unfolding methods
filled = refl

-- A request for what the light shows, but for 0.0001, with a time for the transition.
abbrev colored : Value
colored = obj (
    field (codes "on") (flag true)
      (field (codes "colormode") (text (codes "xy")) (field (codes "xy") (color 3000) stop)))

abbrev same : Value
same = obj (
    field (codes "on") (flag true)
      (field (codes "xy") (color 3001) (field (codes "transitiontime") (int (pos 1)) stop)))

commit-IsSilent_example :
    IsSilent values_lib floats entry_laws colored key_laws bridge (codes "u") 100 colored line (
      commit values_lib floats bridge
        (codes "u")
        100
        true
        (on_state values_lib floats (codes "/l") colored same)
        line)
unfolding methods
commit-IsSilent_example =
    commit-IsSilent values_lib floats entry_laws key_laws bridge (codes "u") 100 (codes "/l")
      colored same same line refl refl
      (
        inr (flag true, refl, inl (inl refl, refl)),
        (
          inr (
            color 3000,
            refl,
            inr (
              codes "xy",
              inr (inr (inl (refl, refl))),
              (text (codes "xy"), refl, refl, refl),
              inr (refl, refl, ((3000, 3001, refl, refl, refl), (4000, 4000, refl, refl, refl))),
            ),
          ),
          (inl refl, tt),
        ),
      )
