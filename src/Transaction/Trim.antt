-- ===== src/Transaction/Trim.antt =====
-- What `trimRequest` takes out of a request.
use hueplusplus.Base.{
  All, List, [], ◌∷◌, ◌≡◌, refl, ap, ◌∙◌, sym, subst, Bool, true, false, not, ◌&&◌, Bytes, codes,
  bytes_eq, Option, none, some, Result, ok, err, if◌then◌else◌, arith, ◌⊎◌, inl, inr, Bool-cases,
}
use hueplusplus.Base.Keys.{bytes_eq_iff}
use hueplusplus.Json.{JsonLib, EntryLaws, value_or}
use hueplusplus.Validation.{Floats, same_xy}
use hueplusplus.Transaction.{
  colormode_of, other_remove, near_xy, same_color, put_back, in_mode, is_redundant, trimmed_entry,
  trim_entries, trim_request, entries_of,
}

module _ (J : JsonLib) (F : Floats J) where
  -- Two values are equal, or two colours whose numbers differ by no more than 0.0001.
  abbrev pub Same : J.Json → J.Json → Type 0
  Same old new = (J.equal old new ≡ true) ⊎ (same_xy J F old new ≡ ok true)

  -- The state has the value of the key in the request.
  abbrev pub IsCurrent : J.Json → J.Json → Bytes → Type 0
  IsCurrent state request key =
      (v : J.Json) × (old : J.Json) × (J.find request key ≡ some v)
      × (J.find state key ≡ some old)
      × Same old v

  -- A look at the numbers gives what it would give of constant values.
  near_xy-same_xy : (old new : J.Json) → (near_xy J F new old).0 ≡ same_xy J F old new
  near_xy-same_xy old new = ground arith

  Same-colors : (old new : J.Json) → (same_color J F new old).0 ≡ ok true → Same old new
  Same-colors old new h = by_kind (not (J.is_array new)) (J.equal old new) (J.is_array old) refl h
    where
      by_kind :
          (single equal several : Bool)
          → J.equal old new ≡ equal
          → (if single && equal
              then (ok true, old)
              else if several
              then near_xy J F new old
              else (ok false, old)).0
            ≡ ok true
          → Same old new
      by_kind true true several e h = inl e
      by_kind true false true e h = inr (sym (near_xy-same_xy old new) ∙ h)
      by_kind true false false e h = cc
      by_kind false equal true e h = inr (sym (near_xy-same_xy old new) ∙ h)
      by_kind false equal false e h = cc

  redundant_current :
      (state v : J.Json) (key : Bytes)
      → (is_redundant J F state (key, v)).0 ≡ ok true
      → (old : J.Json) × (J.find state key ≡ some old) × Same old v
  unfolding is_redundant
  redundant_current state v key h =
      by_mode (colormode_of key) (J.find state key) (other_remove key) refl h
    where
      by_color :
          (old : J.Json) (r : Result Bool × J.Json)
          → (r.0 ≡ ok true → Same old v)
          → (put_back J F state key r).0 ≡ ok true
          → Same old v
      by_color old (ok b, after) same h = same h
      by_color old (err e, after) same h = cc

      by_current :
          (old : J.Json) (mode : Bytes) (current : Result Bytes)
          → (in_mode J F state (key, v) old mode current).0 ≡ ok true
          → Same old v
      by_current old mode (err e) h = cc
      by_current old mode (ok c) h = by_equal (bytes_eq c mode) h
        where
          by_equal :
              (b : Bool)
              → (if b then put_back J F state key (same_color J F v old) else (ok false, state)).0
                ≡ ok true
              → Same old v
          by_equal true h = by_color old (same_color J F v old) (Same-colors old v) h
          by_equal false h = cc

      by_mode :
          (mode : Option Bytes) (o : Option J.Json) (other : Bool)
          → J.find state key ≡ o
          → (elim mode as (λ x. Result Bool × J.Json) [
            | some m ↦ elim o [
              | none ↦ (ok false, state)
              | some old ↦
                  in_mode J F state
                    (key, v)
                    old
                    m
                    (value_or J J.to_text state (codes "colormode") [])
            ]
            | none ↦ (
              if other then ok (elim o [ none ↦ false | some old ↦ J.equal old v ]) else ok false,
              state,
            )
          ]).0
            ≡ ok true
          → (old : J.Json) × (J.find state key ≡ some old) × Same old v
      by_mode (some m) none other e h = cc
      by_mode (some m) (some old) other e h = (old, e, by_current old m _ h)
      by_mode none none true e h = cc
      by_mode none (some old) true e h = (old, e, inl (ground (arith, h)))
      by_mode none o false e h = cc

  -- Each key has the value of the original request, or it is gone and was current.
  abbrev pub IsTrimmed : J.Json → J.Json → J.Json → Type 0
  IsTrimmed state original request =
      (J.is_object request ≡ true)
      × ((key : Bytes)
          → (J.find request key ≡ J.find original key)
            ⊎ ((J.find request key ≡ none) × IsCurrent state original key))

  -- A loop over an object sees the values that `find` gives.
  pub entries_are_found :
      (laws : EntryLaws J) (request : J.Json)
      → J.is_object request ≡ true
      → All (λ e. J.find request e.0 ≡ some e.1) (entries_of J F request)
  entries_are_found laws request object =
      let (es, listed, values, found) = laws.entries-find request object in
      subst (λ o. All (λ e. J.find request e.0 ≡ some e.1) (elim o [ none ↦ [] | some ds ↦ ds ]))
        (sym listed) found

  module _ (laws : EntryLaws J) (state original : J.Json) where
    erased_entry :
        (request v : J.Json) (k : Bytes)
        → J.find original k ≡ some v
        → (is_redundant J F state (k, v)).0 ≡ ok true
        → IsTrimmed state original request
        → IsTrimmed state original (J.erase request k)
    erased_entry request v k found redundant (object, all) =
        (laws.erase_is request k object, λ key. by_key key (Bool-cases (bytes_eq k key)) (all key))
      where
        by_key :
            (key : Bytes)
            → (bytes_eq k key ≡ true) ⊎ (bytes_eq k key ≡ false)
            → ((J.find request key ≡ J.find original key)
                ⊎ ((J.find request key ≡ none) × IsCurrent state original key))
            → (J.find (J.erase request k) key ≡ J.find original key)
              ⊎ ((J.find (J.erase request k) key ≡ none) × IsCurrent state original key)
        by_key key (inl same) h = inr (
          ground (arith, laws.find-erase request k key object),
          subst (IsCurrent state original) ((bytes_eq_iff k key).0 same) (
            v,
            (redundant_current state v k redundant).0,
            found,
            (redundant_current state v k redundant).1,
            (redundant_current state v k redundant).2,
          ),
        )
        by_key key (inr other) (inl h) = inl (ground (arith, laws.find-erase request k key object))
        by_key key (inr other) (inr (h, current)) =
            inr (ground (arith, laws.find-erase request k key object), current)

    IsTrimmed-entries :
        (es : List (Bytes × J.Json)) (request : J.Json)
        → All (λ e. J.find original e.0 ≡ some e.1) es
        → IsTrimmed state original request
        → IsTrimmed state original (trim_entries J F state es request).request
    unfolding trim_entries
    IsTrimmed-entries [] request found h = h
    IsTrimmed-entries ((k, v) ∷ es) request (here, later) h =
        by_test (is_redundant J F state (k, v)) refl (λ r t. IsTrimmed-entries es r later t)
      where
        by_test :
            (r : Result Bool × J.Json)
            → is_redundant J F state (k, v) ≡ r
            → ((q : J.Json)
                → IsTrimmed state original q
                → IsTrimmed state original (trim_entries J F state es q).request)
            → IsTrimmed state original
                (trimmed_entry J F r request
                  (trim_entries J F state es (J.erase request k))
                  (trim_entries J F state es request)).request
        by_test (ok true, after) e rest =
            rest (J.erase request k) (erased_entry request v k here (ap (λ r. r.0) e) h)
        by_test (ok false, after) e rest = rest request h
        by_test (err x, after) e rest = h

  -- For a request that is an object: whether trimRequest returns or throws, the request is still an
  -- object, and each key has its value as before, or it was taken out and the state has the same
  -- value: an equal one, or a colour whose numbers are at most 0.0001 away.
  pub trim_request-IsTrimmed :
      (laws : EntryLaws J) (state request : J.Json)
      → J.is_object request ≡ true
      → IsTrimmed state request (trim_request J F (some state) request).request
  unfolding trim_request
  trim_request-IsTrimmed laws state request object =
      IsTrimmed-entries laws state request (entries_of J F request) request
        (entries_are_found laws request object) (object, λ key. inl refl)
