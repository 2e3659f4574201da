-- ===== src/Json.antt =====
-- The part of the JSON library that the sources call (`nlohmann::json`, which is no part of the
-- repository): a parameter of the models, with the documented laws that theorems rely on.
pub mod Value
use hueplusplus.Base.{
  All, ℕ, ◌≡◌, ap, Bool, true, false, Option, none, some, List, Bytes, bytes_eq, length,
  if◌then◌else◌, ◌||◌, Result, ok, err, Error,
}
use hueplusplus.Base.Int.{ℤ}

pub record JsonLib : Type 1 where
  pub Json : Type 0
  pub Float : Type 0
  -- `json(nullptr)`, `json::object()`, and the values that the sources store
  pub null : Json
  pub object : Json
  pub of_bool : Bool → Json
  pub of_int : ℤ → Json
  pub of_text : Bytes → Json
  pub of_floats : Float → Float → Json
  -- an array, built by `push_back`
  pub array : List Json → Json
  pub is_null : Json → Bool
  pub is_object : Json → Bool
  pub is_array : Json → Bool
  pub is_text : Json → Bool
  pub is_integer : Json → Bool
  -- `j.find(key)`, and so `count` and `at`: nothing is found in a value that is no object
  pub find : Json → Bytes → Option Json
  -- `j[key] = value`, for an object or null
  pub set : Json → Bytes → Json → Json
  pub erase : Json → Bytes → Json
  -- the entries that a loop over `j` sees by `key()` and `value()`; none where `key()` throws
  pub entries : Json → Option (List (Bytes × Json))
  -- the values that a loop over `j` sees
  pub elements : Json → List Json
  -- `==`
  pub equal : Json → Json → Bool
  -- `get<bool>()`, `get<int>()`, `get<std::string>()` and `j[i].get<float>()`, where they do not throw
  pub to_bool : Json → Option Bool
  pub to_int : Json → Option ℤ
  pub to_text : Json → Option Bytes
  pub float_at : Json → ℕ → Option Float

module _ (J : JsonLib) where
  open J use {Json, find, is_object, is_null, set, to_bool, to_int, to_text}

  -- `j.count(key)`
  abbrev pub has : Json → Bytes → Bool
  has j key = elim (find j key) [ none ↦ false | some _ ↦ true ]

  -- A value that a key can be set in.
  abbrev pub takes_keys : Json → Bool
  takes_keys j = is_object j || is_null j

  -- `j[key] = value`, which throws for other values.
  abbrev pub assign : Json → Bytes → Json → Result Json
  assign j key v = if takes_keys j then ok (set j key v) else err Error.json_exception

  -- The first entry of a key in a list of entries.
  abbrev pub lookup : Bytes → List (Bytes × Json) → Option Json
  lookup key List.[] = none
  lookup key (List.◌∷◌ (k, v) rest) = if bytes_eq k key then some v else lookup key rest

-- What a conversion gives, or the exception of `get`.
abbrev pub or_throw {ℓ} : {A : Type ℓ} → Option A → Result A
or_throw none = err Error.json_exception
or_throw (some a) = ok a

module _ (J : JsonLib) where
  -- `j.value(key, default)`, with the conversion to the type of the default.
  abbrev pub value_or {ℓ} : {A : Type ℓ} → (J.Json → Option A) → J.Json → Bytes → A → Result A
  value_or to j key default =
      if J.is_object j
      then elim (J.find j key) [ none ↦ ok default | some v ↦ or_throw (to v) ]
      else err Error.json_exception

  -- `j.at(key)`
  abbrev pub at_key : J.Json → Bytes → Result J.Json
  at_key j key = elim (J.find j key) [ none ↦ err Error.json_exception | some v ↦ ok v ]

-- Documented behaviour of objects.
pub record ObjectLaws (J : JsonLib) : Type 0 where
  pub object_is : J.is_object J.object ≡ true
  pub find-object : (k : Bytes) → J.find J.object k ≡ none
  pub find-null : (k : Bytes) → J.find J.null k ≡ none
  pub null_is : J.is_null J.null ≡ true
  pub set_is :
      (j : J.Json) (k : Bytes) (v : J.Json)
      → takes_keys J j ≡ true
      → J.is_object (J.set j k v) ≡ true
  pub find-set :
      (j : J.Json) (k key : Bytes) (v : J.Json)
      → takes_keys J j ≡ true
      → J.find (J.set j k v) key ≡ (if bytes_eq k key then some v else J.find j key)

-- The value of a key after a walk along entries, where the last entry of a key counts.
abbrev pub last_value {ℓ} : {A : Type ℓ} → Bytes → List (Bytes × A) → Option A → Option A
last_value key List.[] found = found
last_value key (List.◌∷◌ (k, v) rest) found =
    last_value key rest (if bytes_eq k key then some v else found)

-- Documented behaviour of loops over objects and of `erase`.
pub record EntryLaws (J : JsonLib) : Type 0 where
  pub entries-find :
      (j : J.Json)
      → J.is_object j ≡ true
      → (es : List (Bytes × J.Json)) × (J.entries j ≡ some es)
        × ((k : Bytes) → J.find j k ≡ last_value k es none)
        × All (λ e. J.find j e.0 ≡ some e.1) es
  pub erase_is : (j : J.Json) (k : Bytes) → J.is_object j ≡ true → J.is_object (J.erase j k) ≡ true
  pub find-erase :
      (j : J.Json) (k key : Bytes)
      → J.is_object j ≡ true
      → J.find (J.erase j k) key ≡ (if bytes_eq k key then none else J.find j key)

-- No key stands twice in a list of entries.
abbrev pub Distinct {ℓ} : {A : Type ℓ} → List (Bytes × A) → Type ℓ
Distinct List.[] = Unit
Distinct (List.◌∷◌ (k, v) rest) = (last_value k rest none ≡ none) × Distinct rest

-- A loop over an object sees each key once.
pub record KeyLaws (J : JsonLib) : Type 0 where
  pub entries-Distinct :
      (j : J.Json) (es : List (Bytes × J.Json)) → J.entries j ≡ some es → Distinct es

-- Documented behaviour of texts and arrays.
pub record TextLaws (J : JsonLib) : Type 0 where
  pub to_text-of_text : (s : Bytes) → J.to_text (J.of_text s) ≡ some s
  pub elements-array : (vs : List J.Json) → J.elements (J.array vs) ≡ vs
  pub elements-null : J.elements J.null ≡ List.[]

-- Documented behaviour of the values that the sources store.
pub record ScalarLaws (J : JsonLib) : Type 0 where
  pub to_int-of_int : (z : ℤ) → J.to_int (J.of_int z) ≡ some z
  pub to_bool-of_bool : (b : Bool) → J.to_bool (J.of_bool b) ≡ some b
  pub equal-of_int : (z : ℤ) → J.equal (J.of_int z) (J.of_int z) ≡ true
  pub equal-of_bool : (b : Bool) → J.equal (J.of_bool b) (J.of_bool b) ≡ true
  pub floats_are_array : (x y : J.Float) → J.is_array (J.of_floats x y) ≡ true
  pub floats_length : (x y : J.Float) → length (J.elements (J.of_floats x y)) ≡ 2
  pub first-of_floats : (x y : J.Float) → J.float_at (J.of_floats x y) 0 ≡ some x
  pub second-of_floats : (x y : J.Float) → J.float_at (J.of_floats x y) 1 ≡ some y

pub is_object-takes_keys : (J : JsonLib) (j : J.Json) → J.is_object j ≡ true → takes_keys J j ≡ true
is_object-takes_keys J j object = ap (λ b. b || J.is_null j) object
