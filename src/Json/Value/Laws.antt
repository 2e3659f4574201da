-- ===== src/Json/Value/Laws.antt =====
-- The concrete values obey the laws.
use hueplusplus.Base.{
  All, List, [], ◌∷◌, ◌≡◌, refl, sym, ap, subst, ◌∙◌, arith, Bool, true, false, Option, none, some,
  Bytes, bytes_eq, if◌then◌else◌,
}
use hueplusplus.Base.Keys.{bytes_eq_iff}
use hueplusplus.Json.{
  ObjectLaws, takes_keys, EntryLaws, TextLaws, ScalarLaws, KeyLaws, Distinct, last_value,
}
use hueplusplus.Json.Value.{
  Value, nothing, flag, int, float, text, arr, obj, Fields, stop, field, find_field, equal,
  set_field, erase_field, listed, field_list, nil, cons, item_list, items, find, set, erase,
  entries, values_lib,
}

find_field-set_field :
    (fs : Fields) (k key : Bytes) (v : Value)
    → find_field (set_field fs k v) key ≡ (if bytes_eq k key then some v else find_field fs key)
find_field-set_field stop k key v = refl
find_field-set_field (field j w fs) k key v = ground (
  arith,
  bytes_eq_iff j k,
  bytes_eq_iff k key,
  bytes_eq_iff j key,
  find_field-set_field fs k key v,
)

find-set :
    (j : Value) (k key : Bytes) (v : Value)
    → (elim j [ obj _ ↦ true | nothing ↦ true | _ ↦ false ]) ≡ true
    → find (set j k v) key ≡ (if bytes_eq k key then some v else find j key)
find-set nothing k key v h = refl
find-set (obj fs) k key v h = find_field-set_field fs k key v
find-set (flag _) k key v h = cc
find-set (int _) k key v h = cc
find-set (float _) k key v h = cc
find-set (text _) k key v h = cc
find-set (arr _) k key v h = cc

set_is_object :
    (j : Value) (k : Bytes) (v : Value)
    → (elim j [ obj _ ↦ true | nothing ↦ true | _ ↦ false ]) ≡ true
    → (elim (set j k v) [ obj _ ↦ true | _ ↦ false ]) ≡ true
set_is_object nothing k v h = refl
set_is_object (obj fs) k v h = refl
set_is_object (flag _) k v h = cc
set_is_object (int _) k v h = cc
set_is_object (float _) k v h = cc
set_is_object (text _) k v h = cc
set_is_object (arr _) k v h = cc

takes_keys_split :
    (j : Value) → takes_keys values_lib j ≡ (elim j [ obj _ ↦ true | nothing ↦ true | _ ↦ false ])
takes_keys_split nothing = refl
takes_keys_split (obj fs) = refl
takes_keys_split (flag _) = refl
takes_keys_split (int _) = refl
takes_keys_split (float _) = refl
takes_keys_split (text _) = refl
takes_keys_split (arr _) = refl

-- The concrete values obey the laws of objects.
pub values_laws : ObjectLaws values_lib
values_laws = record {
  object_is = refl;
  find-object = λ k. refl;
  find-null = λ k. refl;
  null_is = refl;
  set_is = λ j k v h. set_is_object j k v (sym (takes_keys_split j) ∙ h);
  find-set = λ j k key v h. find-set j k key v (sym (takes_keys_split j) ∙ h);
}

-- A walk along the entries keeps the value of the key.
last_value_kept :
    (all fs : Fields) (key : Bytes) (found : Option Value)
    → find_field all key ≡ found
    → last_value key (field_list all fs) found ≡ found
last_value_kept all stop key found h = refl
last_value_kept all (field k v fs) key found h =
    by_field (find_field fs k) (find_field all k) refl (last_value_kept all fs key found h)
  where
    by_field :
        (again o : Option Value)
        → find_field all k ≡ o
        → last_value key (field_list all fs) found ≡ found
        → last_value key (listed k again o (field_list all fs)) found ≡ found
    by_field (some _) o e later = later
    by_field none none e later = later
    by_field none (some w) e later =
        ap (last_value key (field_list all fs)) (ground (arith, bytes_eq_iff k key, h, e)) ∙ later

last_value-field_list :
    (all fs : Fields) (key : Bytes)
    → last_value key (field_list all fs) none
      ≡ (elim (find_field fs key) [ none ↦ none | some _ ↦ find_field all key ])
last_value-field_list all stop key = refl
last_value-field_list all (field k v fs) key =
    by_field (find_field fs k) (find_field all k) refl refl (last_value-field_list all fs key)
  where
    by_field :
        (again o : Option Value)
        → find_field fs k ≡ again
        → find_field all k ≡ o
        → last_value key (field_list all fs) none
          ≡ (elim (find_field fs key) [ none ↦ none | some _ ↦ find_field all key ])
        → last_value key (listed k again o (field_list all fs)) none
          ≡ (elim (if bytes_eq k key then some v else find_field fs key) [
            | none ↦ none
            | some _ ↦ find_field all key
          ])
    by_field (some _) o i e later = ground (arith, bytes_eq_iff k key)
    by_field none none i e later = ground (arith, bytes_eq_iff k key)
    by_field none (some w) i e later = ground (
      arith,
      bytes_eq_iff k key,
      λ (h : find_field all key ≡ some w). last_value_kept all fs key (some w) h,
    )

find-field_list :
    (fs : Fields) (key : Bytes) → find_field fs key ≡ last_value key (field_list fs fs) none
find-field_list fs key = ground (arith, last_value-field_list fs fs key)

entries_are_found : (all fs : Fields) → All (λ e. find_field all e.0 ≡ some e.1) (field_list all fs)
entries_are_found all stop = tt
entries_are_found all (field k v fs) =
    by_field (find_field fs k) (find_field all k) refl (entries_are_found all fs)
  where
    by_field :
        (again o : Option Value)
        → find_field all k ≡ o
        → All (λ e. find_field all e.0 ≡ some e.1) (field_list all fs)
        → All (λ e. find_field all e.0 ≡ some e.1) (listed k again o (field_list all fs))
    by_field (some _) o e later = later
    by_field none none e later = later
    by_field none (some w) e later = (e, later)

field_list-Distinct : (all fs : Fields) → Distinct (field_list all fs)
field_list-Distinct all stop = tt
field_list-Distinct all (field k v fs) =
    by_field (find_field fs k) (find_field all k) refl (field_list-Distinct all fs)
  where
    by_field :
        (again o : Option Value)
        → find_field fs k ≡ again
        → Distinct (field_list all fs)
        → Distinct (listed k again o (field_list all fs))
    by_field (some _) o e later = later
    by_field none none e later = later
    by_field none (some w) e later = (ground (arith, last_value-field_list all fs k), later)

find-erase_field :
    (fs : Fields) (k key : Bytes)
    → find_field (erase_field fs k) key ≡ (if bytes_eq k key then none else find_field fs key)
find-erase_field stop k key = ground arith
find-erase_field (field j w fs) k key =
    ground
      (arith, bytes_eq_iff j k, bytes_eq_iff k key, bytes_eq_iff j key, find-erase_field fs k key)

-- What holds of values with fields holds of objects.
by_fields :
    (P : Value → Type 0)
    → ((fs : Fields) → P (obj fs))
    → (j : Value) → values_lib.is_object j ≡ true
    → P j
by_fields P p (obj fs) h = p fs
by_fields P p nothing h = cc
by_fields P p (flag _) h = cc
by_fields P p (int _) h = cc
by_fields P p (float _) h = cc
by_fields P p (text _) h = cc
by_fields P p (arr _) h = cc

-- They obey the laws of loops too.
pub entry_laws : EntryLaws values_lib
entry_laws = record {
  entries-find =
      by_fields
        (λ j.
          (es : List (Bytes × Value)) × (entries j ≡ some es)
          × ((k : Bytes) → find j k ≡ last_value k es none)
          × All (λ e. find j e.0 ≡ some e.1) es)
        (λ fs. (field_list fs fs, refl, find-field_list fs, entries_are_found fs fs));
  erase_is = λ j k h. by_fields (λ j. values_lib.is_object (erase j k) ≡ true) (λ fs. refl) j h;
  find-erase = λ j k key h.
      by_fields (λ j. find (erase j k) key ≡ (if bytes_eq k key then none else find j key))
        (λ fs. find-erase_field fs k key) j h;
}

item_list-items : (vs : List Value) → item_list (items vs) ≡ vs
item_list-items [] = refl
item_list-items (v ∷ vs) = ap (λ l. v ∷ l) (item_list-items vs)

-- And those of texts and arrays.
pub text_laws : TextLaws values_lib
text_laws = record {
  to_text-of_text = λ s. refl;
  elements-array = item_list-items;
  elements-null = refl;
}

-- And each key comes once.
pub key_laws : KeyLaws values_lib
key_laws = record { entries-Distinct = distinct }
  where
    carried : (ds es : List (Bytes × Value)) → Distinct ds → some ds ≡ some es → Distinct es
    carried ds es d h = subst Distinct (ground (arith, h)) d

    distinct : (j : Value) (es : List (Bytes × Value)) → entries j ≡ some es → Distinct es
    distinct (obj fs) es h = carried (field_list fs fs) es (field_list-Distinct fs fs) h
    distinct nothing es h = carried [] es tt h
    distinct (arr nil) es h = carried [] es tt h
    distinct (arr (cons _ _)) es h = cc
    distinct (flag _) es h = cc
    distinct (int _) es h = cc
    distinct (float _) es h = cc
    distinct (text _) es h = cc

bool_same : (b : Bool) → equal (flag b) (flag b) ≡ true
unfolding equal
bool_same true = refl
bool_same false = refl

-- And those of the values that are stored.
pub scalar_laws : ScalarLaws values_lib
unfolding equal
scalar_laws = record {
  to_int-of_int = λ z. refl;
  to_bool-of_bool = λ b. refl;
  equal-of_int = λ z. ground arith;
  equal-of_bool = bool_same;
  floats_are_array = λ x y. refl;
  floats_length = λ x y. refl;
  first-of_floats = λ x y. refl;
  second-of_floats = λ x y. refl;
}
