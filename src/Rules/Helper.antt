-- ===== src/Rules/Helper.antt =====
-- The helpers of include/hueplusplus/Condition.h that make a condition: `GeneralConditionHelper`, and the
-- `ConditionHelper` of each type.
use hueplusplus.Base.{[], Bool, Bytes, codes, if◌then◌else◌, Result, ok, ◌>>=◌}
use hueplusplus.Base.Int.{ℤ}
use hueplusplus.Std.Number.{to_string}
use hueplusplus.Time.Pattern.{TimeInterval, interval_text}
use hueplusplus.Rules.{Condition, Operator, op_eq, op_gt, op_dx, op_ddx, op_in, op_not_in}

-- The type argument of a `ConditionHelper`.
pub data HelpedType : Type 0 where
  of_int of_bool of_time : HelpedType

pub record Helper (type : HelpedType) : Type 0 where
  pub address : Bytes

abbrev pub dx : {t : HelpedType} → Helper t → Condition
dx h = record { address = h.address; op = op_dx; value = [] }

abbrev pub ddx : {t : HelpedType} → Helper t → Condition
ddx h = record { address = h.address; op = op_ddx; value = [] }

-- The operator is `dx`.
abbrev pub stable : {t : HelpedType} → Bytes → Helper t → Condition
stable v h = record { address = h.address; op = op_dx; value = v }

abbrev pub create_int : Operator → ℤ → Helper of_int → Condition
create_int op v h = record { address = h.address; op = op; value = to_string v }

abbrev pub eq_int : ℤ → Helper of_int → Condition
eq_int v h = create_int op_eq v h

abbrev pub gt : ℤ → Helper of_int → Condition
gt v h = create_int op_gt v h

-- The operator is `eq`.
abbrev pub lt : ℤ → Helper of_int → Condition
lt v h = create_int op_eq v h

abbrev pub create_bool : Operator → Bool → Helper of_bool → Condition
create_bool op v h = record {
  address = h.address;
  op = op;
  value = if v then codes "true" else codes "false";
}

abbrev pub eq_bool : Bool → Helper of_bool → Condition
eq_bool v h = create_bool op_eq v h

abbrev pub create_interval : Operator → TimeInterval → Helper of_time → Result Condition
create_interval op i h =
    interval_text i >>= λ text. ok (record { address = h.address; op = op; value = text })

abbrev pub within : TimeInterval → Helper of_time → Result Condition
within i h = create_interval op_in i h

abbrev pub not_within : TimeInterval → Helper of_time → Result Condition
not_within i h = create_interval op_not_in i h
