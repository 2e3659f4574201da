-- ===== src/Json/Value.antt =====
-- A concrete JSON value, which shows that the laws can be met, and on which the models run. A float
-- is a count of ten-thousandths.
pub mod Laws
use hueplusplus.Base.{
  All, ℕ, zero, suc, List, [], ◌∷◌, ◌≡◌, refl, sym, ap, ◌∙◌, arith, Bool, true, false, ◌&&◌, Option,
  none, some, Bytes, bytes_eq, ◌==◌, if◌then◌else◌,
}
use hueplusplus.Base.Int.{ℤ, eqb_ℤ}
use hueplusplus.Base.Keys.{bytes_eq_iff}
use hueplusplus.Json.{JsonLib, ObjectLaws, takes_keys, EntryLaws, TextLaws, last_value}

mutual
  pub data Value : Type 0 where
    nothing : Value
    flag : Bool → Value
    int : ℤ → Value
    float : ℕ → Value
    text : Bytes → Value
    arr : Items → Value
    obj : Fields → Value

  pub data Items : Type 0 where
    nil : Items
    cons : Value → Items → Items

  pub data Fields : Type 0 where
    stop : Fields
    field : Bytes → Value → Fields → Fields

abbrev bool_eq : Bool → Bool → Bool
bool_eq true b = b
bool_eq false true = false
bool_eq false false = true

unfoldable mutual
  pub equal : Value → Value → Bool
  equal nothing nothing = true
  equal (flag a) (flag b) = bool_eq a b
  equal (int a) (int b) = eqb_ℤ a b
  equal (float a) (float b) = a == b
  equal (text a) (text b) = bytes_eq a b
  equal (arr xs) (arr ys) = equal_items xs ys
  equal (obj xs) (obj ys) = equal_fields xs ys
  equal _ _ = false

  pub equal_items : Items → Items → Bool
  equal_items nil nil = true
  equal_items (cons x xs) (cons y ys) = equal x y && equal_items xs ys
  equal_items _ _ = false

  pub equal_fields : Fields → Fields → Bool
  equal_fields stop stop = true
  equal_fields (field k x xs) (field j y ys) = bytes_eq k j && (equal x y && equal_fields xs ys)
  equal_fields _ _ = false

abbrev pub find_field : Fields → Bytes → Option Value
find_field stop key = none
find_field (field k v fs) key = if bytes_eq k key then some v else find_field fs key

abbrev pub set_field : Fields → Bytes → Value → Fields
set_field stop key v = field key v stop
set_field (field k w fs) key v =
    if bytes_eq k key then field key v fs else field k w (set_field fs key v)

abbrev pub erase_field : Fields → Bytes → Fields
erase_field stop key = stop
erase_field (field k w fs) key =
    if bytes_eq k key then erase_field fs key else field k w (erase_field fs key)

abbrev pub listed :
    Bytes → Option Value → Option Value → List (Bytes × Value) → List (Bytes × Value)
listed k none (some w) rest = (k, w) ∷ rest
listed k none none rest = rest
listed k (some _) found rest = rest

-- The fields with the values that `find` gives, each key once.
abbrev pub field_list : Fields → Fields → List (Bytes × Value)
field_list all stop = []
field_list all (field k v fs) = listed k (find_field fs k) (find_field all k) (field_list all fs)

abbrev pub item_list : Items → List Value
item_list nil = []
item_list (cons v vs) = v ∷ item_list vs

abbrev pub find : Value → Bytes → Option Value
find (obj fs) key = find_field fs key
find _ key = none

abbrev pub set : Value → Bytes → Value → Value
set (obj fs) key v = obj (set_field fs key v)
set nothing key v = obj (field key v stop)
set other key v = other

abbrev pub erase : Value → Bytes → Value
erase (obj fs) key = obj (erase_field fs key)
erase other key = other

abbrev values : Fields → List Value
values stop = []
values (field k v fs) = v ∷ values fs

abbrev elements : Value → List Value
elements (arr xs) = item_list xs
elements (obj fs) = values fs
elements nothing = []
elements other = other ∷ []

abbrev pub entries : Value → Option (List (Bytes × Value))
entries (obj fs) = some (field_list fs fs)
entries nothing = some []
entries (arr nil) = some []
entries _ = none

abbrev to_float : Value → Option ℕ
to_float (float f) = some f
to_float _ = none

abbrev item : Items → ℕ → Option ℕ
item nil i = none
item (cons v vs) zero = to_float v
item (cons v vs) (suc i) = item vs i

abbrev float_at : Value → ℕ → Option ℕ
float_at (arr xs) i = item xs i
float_at _ i = none

abbrev pub items : List Value → Items
items [] = nil
items (v ∷ vs) = cons v (items vs)

abbrev pub values_lib : JsonLib
values_lib = record {
  Json = Value;
  Float = ℕ;
  null = nothing;
  object = obj stop;
  of_bool = flag;
  of_int = int;
  of_text = text;
  of_floats = λ a b. arr (cons (float a) (cons (float b) nil));
  array = λ vs. arr (items vs);
  is_null = λ v. elim v [ nothing ↦ true | _ ↦ false ];
  is_object = λ v. elim v [ obj _ ↦ true | _ ↦ false ];
  is_array = λ v. elim v [ arr _ ↦ true | _ ↦ false ];
  is_text = λ v. elim v [ text _ ↦ true | _ ↦ false ];
  is_integer = λ v. elim v [ int _ ↦ true | _ ↦ false ];
  find = find;
  set = set;
  erase = erase;
  entries = entries;
  elements = elements;
  equal = equal;
  to_bool = λ v. elim v [ flag b ↦ some b | _ ↦ none ];
  to_int = λ v. elim v [ int z ↦ some z | _ ↦ none ];
  to_text = λ v. elim v [ text s ↦ some s | _ ↦ none ];
  float_at = float_at;
}
