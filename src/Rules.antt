-- ===== src/Rules.antt =====
-- The conditions and actions of rules: `Condition` and `CreateRule` of src/Rule.cpp, `Action` of src/Action.cpp, and
-- `StateTransaction::toAction` of src/StateTransaction.cpp.
pub mod Names
pub mod Helper
pub mod Setters
pub mod RoundTrip
mod Examples
use hueplusplus.Base.{
  List, [], ◌∷◌, map, Bool, true, false, Bytes, codes, bytes_eq, if◌then◌else◌, Result, ok, err,
  Error, ◌>>=◌,
}
use hueplusplus.Json.{JsonLib, at_key, value_or, or_throw}
use hueplusplus.Commands.{combined_path}
use hueplusplus.Transaction.{Transaction}

-- `Condition::Operator`
pub data Operator : Type 0 where
  op_eq op_gt op_lt op_dx op_ddx op_stable op_not_stable op_in op_not_in : Operator

pub record Condition : Type 0 where
  pub address : Bytes
  pub op : Operator
  pub value : Bytes

-- `Action::Method`
pub data Method : Type 0 where
  post put delete_method : Method

-- The text of an operator. Its enumeration has no other values.
unfoldable pub operator_text : Operator → Bytes
operator_text op_eq = codes "eq"
operator_text op_gt = codes "gt"
operator_text op_lt = codes "lt"
operator_text op_dx = codes "dx"
operator_text op_ddx = codes "ddx"
operator_text op_stable = codes "stable"
operator_text op_not_stable = codes "not stable"
operator_text op_in = codes "in"
operator_text op_not_in = codes "not in"

unfoldable pub parse_operator : Bytes → Result Operator
parse_operator s =
    if bytes_eq s (codes "gt")
    then ok op_gt
    else if bytes_eq s (codes "lt")
    then ok op_lt
    else if bytes_eq s (codes "dx")
    then ok op_dx
    else if bytes_eq s (codes "ddx")
    then ok op_ddx
    else if bytes_eq s (codes "stable")
    then ok op_stable
    else if bytes_eq s (codes "not stable")
    then ok op_not_stable
    else if bytes_eq s (codes "in")
    then ok op_in
    else if bytes_eq s (codes "not in")
    then ok op_not_in
    else if bytes_eq s (codes "eq")
    then ok op_eq
    else err Error.hue_exception

-- `methodToString`
unfoldable pub method_to_string : Method → Bytes
method_to_string post = codes "POST"
method_to_string put = codes "PUT"
method_to_string delete_method = codes "DELETE"

unfoldable pub parse_method : Bytes → Result Method
parse_method s =
    if bytes_eq s (codes "POST")
    then ok post
    else if bytes_eq s (codes "PUT")
    then ok put
    else if bytes_eq s (codes "DELETE")
    then ok delete_method
    else err Error.hue_exception

module _ (J : JsonLib) where
  abbrev with_value : Bytes → J.Json → J.Json
  with_value [] json = json
  with_value (c ∷ value) json = J.set json (codes "value") (J.of_text (c ∷ value))

  -- `Condition::toJson`
  unfoldable pub to_json : Condition → J.Json
  to_json c = with_value c.value (
      J.set (J.set J.object (codes "address") (J.of_text c.address)) (codes "operator")
        (J.of_text (operator_text c.op)))

  abbrev pub text_at : J.Json → Bytes → Result Bytes
  text_at json key = at_key J json key >>= λ v. or_throw (J.to_text v)

  -- `Condition::parse`
  unfoldable pub parse : J.Json → Result Condition
  parse json = do
    address ← text_at json (codes "address")
    value ← value_or J J.to_text json (codes "value") []
    text ← text_at json (codes "operator")
    op ← parse_operator text
    ok (record { address = address; op = op; value = value })

  -- The loop of `getConditions`
  unfoldable pub parse_all : List J.Json → Result (List Condition)
  parse_all [] = ok []
  parse_all (v ∷ vs) = do c ← parse v; cs ← parse_all vs; ok (c ∷ cs)

  -- `Rule::getConditions` and `Rule::getActions`, of the state of the rule
  unfoldable pub get_conditions : J.Json → Result (List Condition)
  get_conditions state = at_key J state (codes "conditions") >>= λ v. parse_all (J.elements v)

  -- An action is its JSON value.
  unfoldable pub get_actions : J.Json → Result (List J.Json)
  get_actions state = at_key J state (codes "actions") >>= λ v. ok (J.elements v)

  -- What `push_back` makes of null: an array, if it is called.
  unfoldable pub pushed : List J.Json → J.Json
  pushed [] = J.null
  pushed (v ∷ vs) = J.array (v ∷ vs)

  -- `CreateRule`
  unfoldable pub create_rule : List Condition → List J.Json → J.Json
  create_rule conditions actions =
      J.set (J.set J.null (codes "conditions") (pushed (map to_json conditions))) (codes "actions")
        (pushed actions)

  -- `CreateRule::setName`, `CreateRule::setStatus`
  unfoldable pub set_name : Bytes → J.Json → J.Json
  set_name name request = J.set request (codes "name") (J.of_text name)

  unfoldable pub set_status : Bool → J.Json → J.Json
  set_status enabled request =
      J.set request (codes "status")
        (J.of_text (if enabled then codes "enabled" else codes "disabled"))

  -- `getAddress`, `getMethod` and `getBody` of an action
  unfoldable pub get_address : J.Json → Result Bytes
  get_address action = text_at action (codes "address")

  unfoldable pub get_method : J.Json → Result Method
  get_method action = text_at action (codes "method") >>= parse_method

  unfoldable pub get_body : J.Json → Result J.Json
  get_body action = at_key J action (codes "body")

  -- `StateTransaction::toAction`
  unfoldable pub to_action : Bytes → Transaction J → J.Json
  to_action username t =
      J.set
        (J.set (J.set J.object (codes "method") (J.of_text (codes "PUT"))) (codes "address")
          (J.of_text (combined_path username t.path)))
        (codes "body") t.request
