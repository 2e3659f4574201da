-- ===== src/Transaction/Changes.antt =====
-- The state after the changes of a request.
use hueplusplus.Base.{
  List, [], ◌∷◌, ◌≡◌, refl, ap, sym, subst, ◌∙◌, Bool, true, false, ◌&&◌, ◌||◌, Bytes, codes,
  bytes_eq, Option, none, some, ok, err, Error, ◌>>=◌, if◌then◌else◌, arith, length, ◌==◌,
}
use hueplusplus.Base.Keys.{bytes_eq_iff}
use hueplusplus.Json.{JsonLib, ObjectLaws, EntryLaws, assign, takes_keys, last_value, has}
use hueplusplus.Validation.{Floats}
use hueplusplus.Transaction.{change_state, entries_of, has_no_effect}

module _ (J : JsonLib) (F : Floats J) where
  -- The value of a key after the changes of a request.
  abbrev pub overlay : J.Json → J.Json → Bytes → Option J.Json
  overlay state changes key =
      if bytes_eq (codes "transitiontime") key
      then J.find state key
      else elim (J.find changes key) [ none ↦ J.find state key | some v ↦ some v ]

  pub last_value_or :
      (key : Bytes) (es : List (Bytes × J.Json)) (found : Option J.Json)
      → last_value key es found ≡ (elim (last_value key es none) [ none ↦ found | some v ↦ some v ])
  last_value_or key [] found = refl
  last_value_or key ((k, v) ∷ es) found =
      ground (
        arith,
        last_value_or key es found,
        last_value_or key es (some v),
        last_value_or key es none,
      )

  -- A state after changes has the values of the entries, the last of each key, without the transition.
  abbrev pub HasChanges : List (Bytes × J.Json) → J.Json → J.Json → Type 0
  HasChanges es state after =
      (key : Bytes)
      → J.find after key ≡ (
          if bytes_eq (codes "transitiontime") key
          then J.find state key
          else last_value key es (J.find state key))

  skipped :
      (k : Bytes) (v : J.Json) (es : List (Bytes × J.Json)) (state after : J.Json)
      → bytes_eq k (codes "transitiontime") ≡ true
      → HasChanges es state after
      → HasChanges ((k, v) ∷ es) state after
  skipped k v es state after same h key = ground (
    arith,
    bytes_eq_iff k (codes "transitiontime"),
    bytes_eq_iff k key,
    bytes_eq_iff (codes "transitiontime") key,
    h key,
  )

  assigned :
      (laws : ObjectLaws J) (k : Bytes) (v : J.Json) (es : List (Bytes × J.Json))
      (state after : J.Json)
      → takes_keys J state ≡ true
      → bytes_eq k (codes "transitiontime") ≡ false
      → HasChanges es (J.set state k v) after
      → HasChanges ((k, v) ∷ es) state after
  assigned laws k v es state after takes other h key =
      h key
      ∙ ap (λ o. if bytes_eq (codes "transitiontime") key then o else last_value key es o)
          (laws.find-set state k key v takes)
      ∙ ground (
        arith,
        bytes_eq_iff k (codes "transitiontime"),
        bytes_eq_iff k key,
        bytes_eq_iff (codes "transitiontime") key,
      )

  pub changed :
      (laws : ObjectLaws J) (es : List (Bytes × J.Json)) (state : J.Json)
      → takes_keys J state ≡ true
      → (after : J.Json) × (change_state J F state es ≡ ok after) × HasChanges es state after
  unfolding change_state
  changed laws [] state takes = (state, refl, λ key. ground arith)
  changed laws ((k, v) ∷ es) state takes =
      by_key (bytes_eq k (codes "transitiontime")) refl (changed laws es state takes) (
        changed laws es (J.set state k v)
          (ap (λ b. b || J.is_null (J.set state k v)) (laws.set_is state k v takes)))
    where
      by_key :
          (b : Bool)
          → bytes_eq k (codes "transitiontime") ≡ b
          → ((after : J.Json) × (change_state J F state es ≡ ok after) × HasChanges es state after)
          → ((after : J.Json) × (change_state J F (J.set state k v) es ≡ ok after)
              × HasChanges es (J.set state k v) after)
          → (after : J.Json) × ((if b
                then change_state J F state es
                else assign J state k v >>= λ s. change_state J F s es)
              ≡ ok after)
            × HasChanges ((k, v) ∷ es) state after
      by_key true e (after, done, h) _ = (after, done, skipped k v es state after e h)
      by_key false e _ (after, done, h) = (
        after,
        ap
              (λ b. (if b then ok (J.set state k v) else err Error.json_exception) >>= λ s.
                change_state J F s es)
              takes
            ∙ done,
        assigned laws k v es state after takes e h,
      )

  entries_found :
      (laws : EntryLaws J) (changes : J.Json) (key : Bytes)
      → J.is_object changes ≡ true
      → J.find changes key ≡ last_value key (entries_of J F changes) none
  entries_found laws changes key object =
      let (es, listed, values, found) = laws.entries-find changes object in
      subst (λ o. J.find changes key ≡ last_value key (elim o [ none ↦ [] | some ds ↦ ds ]) none)
        (sym listed) (values key)

  pub changes_overlay :
      (laws : EntryLaws J) (state changes after : J.Json) (key : Bytes)
      → J.is_object changes ≡ true
      → HasChanges (entries_of J F changes) state after
      → J.find after key ≡ overlay state changes key
  changes_overlay laws state changes after key object h = ground (
    arith,
    h key,
    entries_found laws changes key object,
    last_value_or key (entries_of J F changes) (J.find state key),
  )

  -- A request without effect changes no value.
  pub no_effect_overlay :
      (laws : EntryLaws J) (state changes : J.Json) (key : Bytes)
      → J.is_object changes ≡ true
      → has_no_effect J F changes ≡ true
      → J.find state key ≡ overlay state changes key
  no_effect_overlay laws state changes key object h =
      by_entries (entries_of J F changes) (entries_found laws changes key object)
        (entries_found laws changes (codes "transitiontime") object) h
    where
      by_entries :
          (es : List (Bytes × J.Json))
          → J.find changes key ≡ last_value key es none
          → J.find changes (codes "transitiontime") ≡ last_value (codes "transitiontime") es none
          → ((length es == 0) || ((length es == 1) && has J changes (codes "transitiontime")))
            ≡ true
          → J.find state key ≡ overlay state changes key
      by_entries [] found time h = ground arith
      by_entries ((k, v) ∷ []) found time h = ground (
        arith,
        bytes_eq_iff k (codes "transitiontime"),
        bytes_eq_iff k key,
        bytes_eq_iff (codes "transitiontime") key,
      )
      by_entries ((k, v) ∷ d ∷ es) found time h = ground arith
