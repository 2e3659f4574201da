-- ===== src/Transaction/Filled.antt =====
-- What `trimRequest` does to the state that it reads: `[]` of a variable array fills it.
use hueplusplus.Base.{
  ℕ, suc, ◌+◌, ◌-◌, ◌<◌, ◌≤◌, List, [], ◌∷◌, ◌++◌, replicate, length, ltb, ◌≡◌, refl, ap, sym,
  subst, ◌∙◌, Bool, true, false, not, ◌&&◌, Bytes, codes, bytes_eq, Option, none, some, Result, ok,
  err, ◌⊎◌, inl, inr, if◌then◌else◌, ◌>>=◌, arith, Bool-cases,
}
use hueplusplus.Base.Keys.{bytes_eq_iff}
use hueplusplus.Base.Action.{Action, lift, and_then}
use hueplusplus.Json.{JsonLib, ObjectLaws, takes_keys, value_or, or_throw}
use hueplusplus.Validation.{Floats, float_equals}
use hueplusplus.Transaction.{
  Trimmed, colormode_of, other_remove, grown, reached, near_at, near_xy, same_color, put_back,
  in_mode, is_redundant, trimmed_entry, trim_entries, trim_request, entries_of,
}

module _ (J : JsonLib) (F : Floats J) where
  -- An array of fewer than two values, filled with nulls to two at most.
  abbrev pub Filled : J.Json → J.Json → Type 0
  Filled old new =
      (J.is_array old ≡ true)
      × ((n : ℕ) × (0 < n)
          × (length (J.elements old) + n ≤ 2)
          × (new ≡ J.array (J.elements old ++ replicate n J.null)))

  -- A key has its value as before, or that was filled.
  abbrev pub IsSpared : J.Json → J.Json → Bytes → Type 0
  IsSpared state after key =
      (J.find after key ≡ J.find state key)
      ⊎ ((old : J.Json) × (new : J.Json) × (J.find state key ≡ some old)
          × (J.find after key ≡ some new)
          × Filled old new)

  abbrev pub Spares : J.Json → J.Json → Type 0
  Spares state after =
      (J.is_object state ≡ true → J.is_object after ≡ true)
      × ((key : Bytes) → IsSpared state after key)

  pub all_spared : (state : J.Json) → Spares state state
  all_spared state = (λ o. o, λ key. inl refl)

  reached-Filled :
      (j : J.Json) (i : ℕ) (o : Option J.Float)
      → i < 2
      → J.is_array j ≡ true
      → (reached J F j i o ≡ j) ⊎ Filled j (reached J F j i o)
  reached-Filled j i (some x) low array = inl refl
  reached-Filled j i none low array = by_size (ltb i (length (J.elements j))) refl
    where
      by_size :
          (b : Bool)
          → ltb i (length (J.elements j)) ≡ b
          → ((if b then j else grown J F j i) ≡ j) ⊎ Filled j (if b then j else grown J F j i)
      by_size true inside = inl refl
      by_size false outside = inr (
        array,
        (suc i - length (J.elements j), ground (arith, outside), ground (arith, outside), refl),
      )

  near_at-state :
      (new old : J.Json) (i : ℕ) → (near_at J F new i old).1 ≡ reached J F old i (J.float_at old i)
  near_at-state new old i = by_read (J.float_at old i) (reached J F old i (J.float_at old i))
    where
      by_read :
          (o : Option J.Float) (after : J.Json)
          → (and_then
              (λ x. lift (or_throw (J.float_at new i) >>= λ y. ok (float_equals J F x y)))
              (or_throw o, after)).1
            ≡ after
      by_read none after = refl
      by_read (some x) after = refl

  near_xy-Filled :
      (new old : J.Json)
      → J.is_array old ≡ true
      → ((near_xy J F new old).1 ≡ old) ⊎ Filled old (near_xy J F new old).1
  near_xy-Filled new old array = by_first (J.float_at old 0)
    where
      MayFill : Result Bool × J.Json → Type 0
      MayFill r = (r.1 ≡ old) ⊎ Filled old r.1

      second : Bool → Action J.Json Bool
      second same = if same then near_at J F new 1 else lift (ok false)

      near : J.Float → Result Bool
      near x = or_throw (J.float_at new 0) >>= λ y. ok (float_equals J F x y)

      by_verdict : (r : Result Bool) → MayFill (and_then second (r, old))
      by_verdict (ok true) =
          subst (λ a. (a ≡ old) ⊎ Filled old a) (sym (near_at-state new old 1))
            (reached-Filled old 1 (J.float_at old 1) (omega arith) array)
      by_verdict (ok false) = inl refl
      by_verdict (err e) = inl refl

      by_first :
          (o : Option J.Float)
          → MayFill
              (and_then second (and_then (λ x. lift (near x)) (or_throw o, reached J F old 0 o)))
      by_first none = reached-Filled old 0 none (omega arith) array
      by_first (some x) = by_verdict (near x)

  same_color-Filled :
      (new old : J.Json)
      → ((same_color J F new old).1 ≡ old) ⊎ Filled old (same_color J F new old).1
  same_color-Filled new old =
      by_kind (not (J.is_array new) && J.equal old new) (J.is_array old) refl
    where
      by_kind :
          (single several : Bool)
          → J.is_array old ≡ several
          → ((if single
                then (ok true, old)
                else if several
                then near_xy J F new old
                else (ok false, old)).1
              ≡ old)
            ⊎ Filled old
                (if single
                  then (ok true, old)
                  else if several
                  then near_xy J F new old
                  else (ok false, old)).1
      by_kind true several e = inl refl
      by_kind false true e = near_xy-Filled new old e
      by_kind false false e = inl refl

  module _ (laws : ObjectLaws J) (state : J.Json) (takes : takes_keys J state ≡ true) where
    -- A verdict leaves the state, and an exception spares it.
    abbrev pub Looks : Result Bool × J.Json → Type 0
    Looks r = ((b : Bool) → r.0 ≡ ok b → r.1 ≡ state) × Spares state r.1

    put_back-Looks :
        (key : Bytes) (old : J.Json) (r : Result Bool × J.Json)
        → J.find state key ≡ some old
        → ((r.1 ≡ old) ⊎ Filled old r.1)
        → Looks (put_back J F state key r)
    put_back-Looks key old (ok b, new) found look = (λ c e. refl, all_spared state)
    put_back-Looks key old (err e, new) found look = (
      λ b h. cc,
      (
        λ o. laws.set_is state key new takes,
        λ other. by_key other look (Bool-cases (bytes_eq key other)),
      ),
    )
      where
        by_key :
            (other : Bytes)
            → ((new ≡ old) ⊎ Filled old new)
            → (bytes_eq key other ≡ true) ⊎ (bytes_eq key other ≡ false)
            → IsSpared state (J.set state key new) other
        by_key other look (inr differs) =
            inl (ground (arith, laws.find-set state key other new takes))
        by_key other look (inl same) =
            subst (IsSpared state (J.set state key new)) ((bytes_eq_iff key other).0 same)
              (here look)
          where
            stored : J.find (J.set state key new) key ≡ some new
            stored = ground (arith, laws.find-set state key key new takes, bytes_eq_iff key key)

            here : ((new ≡ old) ⊎ Filled old new) → IsSpared state (J.set state key new) key
            here (inl unchanged) = inl (stored ∙ ap some unchanged ∙ sym found)
            here (inr filled) = inr (old, new, found, stored, filled)

    is_redundant-Looks : (key : Bytes) (v : J.Json) → Looks (is_redundant J F state (key, v))
    unfolding is_redundant
    is_redundant-Looks key v =
        by_mode (colormode_of key) (J.find state key) refl
          (value_or J J.to_text state (codes "colormode") [])
      where
        still : (r : Result Bool) → Looks (r, state)
        still r = (λ b e. refl, all_spared state)

        by_equal :
            (b : Bool) (old : J.Json)
            → J.find state key ≡ some old
            → Looks (if b then put_back J F state key (same_color J F v old) else (ok false, state))
        by_equal true old found =
            put_back-Looks key old (same_color J F v old) found (same_color-Filled v old)
        by_equal false old found = still (ok false)

        by_current :
            (old : J.Json) (mode : Bytes) (current : Result Bytes)
            → J.find state key ≡ some old
            → Looks (in_mode J F state (key, v) old mode current)
        by_current old mode (err e) found = still (err e)
        by_current old mode (ok c) found = by_equal (bytes_eq c mode) old found

        by_mode :
            (mode : Option Bytes) (o : Option J.Json)
            → J.find state key ≡ o
            → (current : Result Bytes)
            → Looks (elim mode as (λ x. Result Bool × J.Json) [
              | some m ↦ elim o [
                | none ↦ (ok false, state)
                | some old ↦ in_mode J F state (key, v) old m current
              ]
              | none ↦ (
                if other_remove key
                    then ok (elim o [ none ↦ false | some old ↦ J.equal old v ])
                    else ok false,
                state,
              )
            ])
        by_mode (some m) none e current = still (ok false)
        by_mode (some m) (some old) e current = by_current old m current e
        by_mode none o e current = still _

    -- What `trimRequest` leaves in the state: the state itself if it returns, and else one that it spares.
    abbrev pub SparesState : Trimmed J F → Type 0
    SparesState t =
        (after : J.Json) × (t.state ≡ some after)
        × ((u : Unit {0}) → t.outcome ≡ ok u → after ≡ state)
        × Spares state after

    trim_entries-SparesState :
        (es : List (Bytes × J.Json)) (request : J.Json)
        → SparesState (trim_entries J F state es request)
    unfolding trim_entries
    trim_entries-SparesState [] request = (state, refl, λ u e. refl, all_spared state)
    trim_entries-SparesState ((k, v) ∷ es) request =
        by_test (is_redundant J F state (k, v)) (is_redundant-Looks k v)
          (trim_entries-SparesState es (J.erase request k)) (trim_entries-SparesState es request)
      where
        by_test :
            (r : Result Bool × J.Json)
            → Looks r
            → SparesState (trim_entries J F state es (J.erase request k))
            → SparesState (trim_entries J F state es request)
            → SparesState (
                trimmed_entry J F r request
                  (trim_entries J F state es (J.erase request k))
                  (trim_entries J F state es request))
        by_test (ok true, after) looks erased kept = erased
        by_test (ok false, after) looks erased kept = kept
        by_test (err e, after) looks erased kept = (after, refl, λ u h. cc, looks.1)

    pub trim_request-SparesState :
        (request : J.Json) → SparesState (trim_request J F (some state) request)
    unfolding trim_request
    trim_request-SparesState request = trim_entries-SparesState (entries_of J F request) request
