-- ===== src/Rules/Examples.antt =====
-- The theorems on rules at inputs.
use hueplusplus.Base.{[], ◌∷◌, ◌≡◌, codes, ok}
use hueplusplus.Json.Value.{values_lib}
use hueplusplus.Json.Value.Laws.{values_laws, text_laws}
use hueplusplus.Commands.{combined_path}
use hueplusplus.Rules.{
  Condition, op_eq, op_not_in, op_not_stable, create_rule, get_conditions, get_actions,
}
use hueplusplus.Rules.RoundTrip.{get_conditions-create_rule}

methods : Unit {0}
unfolding combined_path
methods = tt

abbrev pressed : Condition
pressed = record { address = codes "/sensors/2/state/buttonevent"; op = op_eq; value = codes "16" }

abbrev not_at_night : Condition
not_at_night = record {
  address = codes "/config/localtime";
  op = op_not_in;
  value = codes "T23:00:00/T06:00:00";
}

abbrev unchanged : Condition
unchanged = record { address = codes "/sensors/2/state"; op = op_not_stable; value = [] }

get_conditions-create_rule_example :
    (get_conditions values_lib (create_rule values_lib (pressed ∷ not_at_night ∷ unchanged ∷ []) [])
      ≡ ok (pressed ∷ not_at_night ∷ unchanged ∷ []))
    × (get_actions values_lib (create_rule values_lib (pressed ∷ not_at_night ∷ unchanged ∷ []) [])
        ≡ ok [])
get_conditions-create_rule_example =
    get_conditions-create_rule values_lib values_laws text_laws
      (pressed ∷ not_at_night ∷ unchanged ∷ []) []
