-- ===== src/Rules/RoundTrip.antt =====
-- What is written into a rule or an action is read back.
use hueplusplus.Base.{
  List, [], ◌∷◌, map, true, ◌||◌, Bytes, codes, bytes_eq, if◌then◌else◌, none, some, Result, ok,
  err, Error, ◌>>=◌, ◌≡◌, refl, ap, ◌∙◌, ◌⊎◌, inl, inr, arith,
}
use hueplusplus.Json.{JsonLib, ObjectLaws, TextLaws, takes_keys, value_or, or_throw}
use hueplusplus.Commands.{combined_path}
use hueplusplus.Transaction.{Transaction}
use hueplusplus.Rules.{
  Condition, put, operator_text, parse_operator, method_to_string, parse_method, to_json, parse,
  parse_all, pushed, get_conditions, get_actions, create_rule, get_address, get_method, get_body,
  to_action, text_at,
}
use hueplusplus.Rules.Names.{own_operator, own_method}

module _ (J : JsonLib) (laws : ObjectLaws J) (text_laws : TextLaws J) where
  set_takes : (j v : J.Json) (k : Bytes) → takes_keys J j ≡ true → takes_keys J (J.set j k v) ≡ true
  set_takes j v k h = ap (λ b. b || J.is_null (J.set j k v)) (laws.set_is j k v h)

  object_takes : takes_keys J J.object ≡ true
  object_takes = ap (λ b. b || J.is_null J.object) laws.object_is

  abbrev address_set : Bytes → J.Json
  address_set a = J.set J.object (codes "address") (J.of_text a)

  abbrev operator_set : Bytes → Bytes → J.Json
  operator_set a t = J.set (address_set a) (codes "operator") (J.of_text t)

  address_takes : (a : Bytes) → takes_keys J (address_set a) ≡ true
  address_takes a = set_takes J.object (J.of_text a) (codes "address") object_takes

  operator_takes : (a t : Bytes) → takes_keys J (operator_set a t) ≡ true
  operator_takes a t = set_takes (address_set a) (J.of_text t) (codes "operator") (address_takes a)

  operator_finds :
      (a t key : Bytes)
      → J.find (operator_set a t) key ≡ (
          if bytes_eq (codes "operator") key
          then some (J.of_text t)
          else if bytes_eq (codes "address") key
          then some (J.of_text a)
          else none)
  operator_finds a t key =
      laws.find-set (address_set a) (codes "operator") key (J.of_text t) (address_takes a)
      ∙ ap (λ o. if bytes_eq (codes "operator") key then some (J.of_text t) else o)
          (laws.find-set J.object (codes "address") key (J.of_text a) object_takes
            ∙ ap (λ o. if bytes_eq (codes "address") key then some (J.of_text a) else o)
                (laws.find-object key))

  text_read :
      (json : J.Json) (key s : Bytes)
      → J.find json key ≡ some (J.of_text s)
      → text_at J json key ≡ ok s
  text_read json key s h =
      ap
        (λ o. (elim o [ none ↦ err Error.json_exception | some v ↦ ok v ]) >>= λ v.
          or_throw (J.to_text v))
        h
      ∙ ap or_throw (text_laws.to_text-of_text s)

  value_read :
      (json : J.Json) (v : Bytes)
      → J.is_object json ≡ true
      → ((J.find json (codes "value") ≡ some (J.of_text v))
          ⊎ ((J.find json (codes "value") ≡ none) × (v ≡ [])))
      → value_or J J.to_text json (codes "value") [] ≡ ok v
  value_read json v object (inl h) = ground (arith, object, h, text_laws.to_text-of_text v)
  value_read json v object (inr (h, e)) = ground (arith, object, h, e)

  -- An object with the three texts, or without a value, is read as a condition.
  parsed :
      (json : J.Json) (c : Condition)
      → J.is_object json ≡ true
      → J.find json (codes "address") ≡ some (J.of_text c.address)
      → J.find json (codes "operator") ≡ some (J.of_text (operator_text c.op))
      → ((J.find json (codes "value") ≡ some (J.of_text c.value))
          ⊎ ((J.find json (codes "value") ≡ none) × (c.value ≡ [])))
      → parse J json ≡ ok c
  unfolding parse
  parsed json c object address op value =
      by_texts (text_read json (codes "address") c.address address)
        (value_read json c.value object value)
        (text_read json (codes "operator") (operator_text c.op) op)
    where
      rest : Bytes → Bytes → Bytes → Result Condition
      rest a v t = parse_operator t >>= λ o. ok (record { address = a; op = o; value = v })

      by_texts :
          {ra rv rt : Result Bytes}
          → ra ≡ ok c.address
          → rv ≡ ok c.value
          → rt ≡ ok (operator_text c.op)
          → (ra >>= λ a. rv >>= λ v. rt >>= λ t. rest a v t) ≡ ok c
      by_texts {ra} {rv} {rt} ea ev et =
          ap (λ r. r >>= λ a. rv >>= λ v. rt >>= λ t. rest a v t) ea
          ∙ ap (λ r. r >>= λ v. rt >>= λ t. rest c.address v t) ev
          ∙ ap (λ r. r >>= λ t. rest c.address c.value t) et
          ∙ ap (λ r. r >>= λ o. ok (record { address = c.address; op = o; value = c.value }))
              (own_operator c.op)

  parse-to_json : (c : Condition) → parse J (to_json J c) ≡ ok c
  unfolding to_json bytes_eq
  parse-to_json c = by_value c.value refl
    where
      by_value :
          (v : Bytes)
          → c.value ≡ v
          → parse J (to_json J (record { address = c.address; op = c.op; value = v }))
            ≡ ok (record { address = c.address; op = c.op; value = v })
      by_value [] e =
          parsed _ (record { address = c.address; op = c.op; value = [] })
            (laws.set_is (address_set c.address) (codes "operator") _ (address_takes c.address))
            (operator_finds c.address (operator_text c.op) (codes "address"))
            (operator_finds c.address (operator_text c.op) (codes "operator"))
            (inr (operator_finds c.address (operator_text c.op) (codes "value"), refl))
      by_value (x ∷ v) e =
          parsed _ (record { address = c.address; op = c.op; value = x ∷ v })
            (laws.set_is (operator_set c.address (operator_text c.op)) (codes "value") _
              (operator_takes c.address (operator_text c.op)))
            (found (codes "address")
              ∙ operator_finds c.address (operator_text c.op) (codes "address"))
            (found (codes "operator")
              ∙ operator_finds c.address (operator_text c.op) (codes "operator"))
            (inl (found (codes "value")))
        where
          found :
              (key : Bytes)
              → J.find
                  (J.set
                    (operator_set c.address (operator_text c.op))
                    (codes "value")
                    (J.of_text (x ∷ v)))
                  key
                ≡ (if bytes_eq (codes "value") key
                    then some (J.of_text (x ∷ v))
                    else J.find (operator_set c.address (operator_text c.op)) key)
          found key =
              laws.find-set (operator_set c.address (operator_text c.op)) (codes "value") key
                (J.of_text (x ∷ v)) (operator_takes c.address (operator_text c.op))

  parse_all-map : (cs : List Condition) → parse_all J (map (to_json J) cs) ≡ ok cs
  unfolding parse_all
  parse_all-map [] = refl
  parse_all-map (c ∷ cs) =
      ap (λ r. r >>= λ x. parse_all J (map (to_json J) cs) >>= λ xs. ok (x ∷ xs)) (parse-to_json c)
      ∙ ap (λ r. r >>= λ xs. ok (c ∷ xs)) (parse_all-map cs)

  pub elements-pushed : (vs : List J.Json) → J.elements (pushed J vs) ≡ vs
  unfolding pushed
  elements-pushed [] = text_laws.elements-null
  elements-pushed (v ∷ vs) = text_laws.elements-array (v ∷ vs)

  null_takes : takes_keys J J.null ≡ true
  null_takes = ground (arith, laws.null_is)

  -- From the request that CreateRule builds, with every operator and with values that may be empty,
  -- getConditions reads the same conditions, and getActions the same actions. The JSON library
  -- keeps the laws of objects, texts and arrays.
  pub get_conditions-create_rule :
      (cs : List Condition) (actions : List J.Json)
      → (get_conditions J (create_rule J cs actions) ≡ ok cs)
        × (get_actions J (create_rule J cs actions) ≡ ok actions)
  unfolding get_conditions get_actions create_rule bytes_eq
  get_conditions-create_rule cs actions = (
    ap
          (λ o. (elim o [ none ↦ err Error.json_exception | some v ↦ ok v ]) >>= λ v.
            parse_all J (J.elements v))
          (laws.find-set with_conditions (codes "actions") (codes "conditions") _ takes
            ∙ laws.find-set J.null (codes "conditions") (codes "conditions") _ null_takes)
        ∙ ap (parse_all J) (elements-pushed (map (to_json J) cs))
        ∙ parse_all-map cs,
    ap
          (λ o.
            (elim o [ none ↦ err Error.json_exception | some v ↦ ok v ]) >>= λ v. ok (J.elements v))
          (laws.find-set with_conditions (codes "actions") (codes "actions") _ takes)
        ∙ ap ok (elements-pushed actions),
  )
    where
      with_conditions : J.Json
      with_conditions = J.set J.null (codes "conditions") (pushed J (map (to_json J) cs))

      takes : takes_keys J with_conditions ≡ true
      takes = set_takes J.null (pushed J (map (to_json J) cs)) (codes "conditions") null_takes

  -- The action of a transaction is a PUT request, to the path that its commit sends to, with its
  -- request as the body. The JSON library keeps the laws of objects and texts.
  pub get_method-to_action :
      (username : Bytes) (t : Transaction J)
      → (get_method J (to_action J username t) ≡ ok put)
        × (get_address J (to_action J username t) ≡ ok (combined_path username t.path))
        × (get_body J (to_action J username t) ≡ ok t.request)
  unfolding get_method get_address get_body to_action bytes_eq parse_method method_to_string
  get_method-to_action username t = (
    ap (λ r. r >>= parse_method)
          (text_read action (codes "method") (codes "PUT") (
            finds (codes "method")
            ∙ laws.find-set with_method (codes "address") (codes "method") _ method_takes
            ∙ laws.find-set J.object (codes "method") (codes "method") _ object_takes))
        ∙ own_method put,
    text_read action (codes "address") (combined_path username t.path) (
        finds (codes "address")
        ∙ laws.find-set with_method (codes "address") (codes "address") _ method_takes),
    ap (λ o. elim o [ none ↦ err Error.json_exception | some v ↦ ok v ]) (finds (codes "body")),
  )
    where
      with_method : J.Json
      with_method = J.set J.object (codes "method") (J.of_text (codes "PUT"))

      with_address : J.Json
      with_address = J.set with_method (codes "address") (J.of_text (combined_path username t.path))

      action : J.Json
      action = J.set with_address (codes "body") t.request

      method_takes : takes_keys J with_method ≡ true
      method_takes = set_takes J.object (J.of_text (codes "PUT")) (codes "method") object_takes

      finds :
          (key : Bytes)
          → J.find action key
            ≡ (if bytes_eq (codes "body") key then some t.request else J.find with_address key)
      finds key = laws.find-set with_address (codes "body") key t.request (
          set_takes with_method (J.of_text (combined_path username t.path)) (codes "address")
            method_takes)
