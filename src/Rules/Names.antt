-- ===== src/Rules/Names.antt =====
-- The texts of operators and methods.
use hueplusplus.Base.{Bytes, codes, bytes_eq, ok, ◌≡◌, ◌↔◌, refl, ap, ◌∙◌, arith}
use hueplusplus.Base.Keys.{bytes_eq_iff}
use hueplusplus.Rules.{
  Operator, op_eq, op_gt, op_lt, op_dx, op_ddx, op_stable, op_not_stable, op_in, op_not_in, Method,
  post, put, delete_method, operator_text, parse_operator, method_to_string, parse_method,
}

pub own_operator : (o : Operator) → parse_operator (operator_text o) ≡ ok o
unfolding parse_operator operator_text bytes_eq
own_operator op_eq = refl
own_operator op_gt = refl
own_operator op_lt = refl
own_operator op_dx = refl
own_operator op_ddx = refl
own_operator op_stable = refl
own_operator op_not_stable = refl
own_operator op_in = refl
own_operator op_not_in = refl

pub own_method : (m : Method) → parse_method (method_to_string m) ≡ ok m
unfolding parse_method method_to_string bytes_eq
own_method post = refl
own_method put = refl
own_method delete_method = refl

-- An operator is read from a text exactly if the text is the one that is written for it.
pub parse_operator-operator_text :
    (s : Bytes) (o : Operator) → (parse_operator s ≡ ok o) ↔ (s ≡ operator_text o)
unfolding parse_operator operator_text
parse_operator-operator_text s o = (forth s o, λ e. back o s e)
  where
    forth : (s : Bytes) (o : Operator) → parse_operator s ≡ ok o → s ≡ operator_text o
    forth s o h = ground (
      arith,
      h,
      bytes_eq_iff s (codes "gt"),
      bytes_eq_iff s (codes "lt"),
      bytes_eq_iff s (codes "dx"),
      bytes_eq_iff s (codes "ddx"),
      bytes_eq_iff s (codes "stable"),
      bytes_eq_iff s (codes "not stable"),
      bytes_eq_iff s (codes "in"),
      bytes_eq_iff s (codes "not in"),
      bytes_eq_iff s (codes "eq"),
    )

    back : (o : Operator) (s : Bytes) → s ≡ operator_text o → parse_operator s ≡ ok o
    back o s e = ap parse_operator e ∙ own_operator o

-- The method of an action is read from a text exactly if the text is the one that is written for
-- it.
pub parse_method-method_to_string :
    (s : Bytes) (m : Method) → (parse_method s ≡ ok m) ↔ (s ≡ method_to_string m)
unfolding parse_method method_to_string
parse_method-method_to_string s m = (
  λ h. ground (
    arith,
    h,
    bytes_eq_iff s (codes "POST"),
    bytes_eq_iff s (codes "PUT"),
    bytes_eq_iff s (codes "DELETE"),
  ),
  λ e. ap parse_method e ∙ own_method m,
)
