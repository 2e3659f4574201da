-- ===== src/Validation/Confirmed.antt =====
-- Which replies `validatePUTReply` accepts.
use hueplusplus.Base.{
  All, List, [], ◌∷◌, ◌++◌, ◌≡◌, ◌≢◌, refl, ap, sym, ◌∙◌, Bool, true, false, Bytes, codes, Option,
  none, some, Result, ok, err, ◌>>=◌, if◌then◌else◌,
}
use hueplusplus.Json.{JsonLib}
use hueplusplus.Validation.Matches.{Matches, confirms-Matches}
use hueplusplus.Validation.{
  Floats, with_slash, confirms, last_confirms, all_entries, succeeds, all_succeed,
  validate_put_reply,
}

module _ (J : JsonLib) (F : Floats J) (prefix : Bytes) (request : J.Json) where
  -- The check of an entry throws no exception.
  abbrev pub Checks : Bytes × J.Json → Type 0
  Checks e = (b : Bool) × (confirms J F prefix request e ≡ ok b)

  -- The value has a success object, and the last of its entries, if there is one, matches the request.
  abbrev pub IsConfirmed : J.Json → Type 0
  IsConfirmed v =
      (s : J.Json) × (es : List (Bytes × J.Json)) × (J.find v (codes "success") ≡ some s)
      × (J.entries s ≡ some es)
      × ((front : List (Bytes × J.Json)) (e : Bytes × J.Json)
          → es ≡ front ++ (e ∷ [])
          → Matches J F prefix request e)

  -- The verdict on the entries before the last is forgotten.
  last_confirms-append :
      (front : List (Bytes × J.Json)) (e : Bytes × J.Json) (success : Bool)
      → All Checks front
      → last_confirms J F prefix request success (front ++ (e ∷ [])) ≡ confirms J F prefix request e
  unfolding last_confirms
  last_confirms-append [] e success h = by_verdict (confirms J F prefix request e)
    where
      by_verdict : (r : Result Bool) → (r >>= λ s. ok s) ≡ r
      by_verdict (ok s) = refl
      by_verdict (err x) = refl
  last_confirms-append (d ∷ front) e success ((b, h), hs) =
      ap (λ r. r >>= λ s. last_confirms J F prefix request s (front ++ (e ∷ []))) h
      ∙ last_confirms-append front e b hs

  last_is_true :
      (front : List (Bytes × J.Json)) (e : Bytes × J.Json) (success : Bool)
      → last_confirms J F prefix request success (front ++ (e ∷ [])) ≡ ok true
      → confirms J F prefix request e ≡ ok true
  unfolding last_confirms
  last_is_true [] e success = by_verdict (confirms J F prefix request e)
    where
      by_verdict : (r : Result Bool) → (r >>= λ s. ok s) ≡ ok true → r ≡ ok true
      by_verdict (ok s) h = h
      by_verdict (err x) h = h
  last_is_true (d ∷ front) e success =
      by_verdict (λ s. last_is_true front e s) (confirms J F prefix request d)
    where
      by_verdict :
          ((s : Bool)
            → last_confirms J F prefix request s (front ++ (e ∷ [])) ≡ ok true
            → confirms J F prefix request e ≡ ok true)
          → (r : Result Bool)
          → (r >>= λ s. last_confirms J F prefix request s (front ++ (e ∷ []))) ≡ ok true
          → confirms J F prefix request e ≡ ok true
      by_verdict later (ok s) h = later s h
      by_verdict later (err x) h = cc

  IsConfirmed-value : (v : J.Json) → succeeds J F prefix request v ≡ ok true → IsConfirmed v
  unfolding succeeds
  IsConfirmed-value v = by_success (J.find v (codes "success")) refl
    where
      by_entries :
          (s : J.Json) (o : Option (List (Bytes × J.Json)))
          → J.find v (codes "success") ≡ some s
          → J.entries s ≡ o
          → all_entries J F prefix request o ≡ ok true
          → IsConfirmed v
      by_entries s none found listed h = cc
      by_entries s (some es) found listed h = (
        s,
        es,
        found,
        listed,
        λ front e split. confirms-Matches J F prefix request e.1 e.0 (
            last_is_true front e true
              (ap (λ l. last_confirms J F prefix request true l) (sym split) ∙ h)),
      )

      by_success :
          (o : Option J.Json)
          → J.find v (codes "success") ≡ o
          → (elim o [ none ↦ ok false | some s ↦ all_entries J F prefix request (J.entries s) ])
            ≡ ok true
          → IsConfirmed v
      by_success none found h = cc
      by_success (some s) found h = by_entries s (J.entries s) found refl h

  IsConfirmed-values :
      (success : Bool) (vs : List J.Json)
      → all_succeed J F prefix request success vs ≡ ok true
      → All IsConfirmed vs
  unfolding all_succeed
  IsConfirmed-values success [] = λ h. tt
  IsConfirmed-values success (v ∷ vs) =
      by_verdict (IsConfirmed-values true vs) (succeeds J F prefix request v) (IsConfirmed-value v)
    where
      by_verdict :
          (all_succeed J F prefix request true vs ≡ ok true → All IsConfirmed vs)
          → (r : Result Bool) → (r ≡ ok true → IsConfirmed v)
          → (r >>= λ s. if s then all_succeed J F prefix request true vs else ok false) ≡ ok true
          → All IsConfirmed (v ∷ vs)
      by_verdict later (ok true) here h = (here refl, later h)
      by_verdict later (ok false) here h = cc
      by_verdict later (err x) here h = cc

  -- For a path that is not empty: a reply that validatePUTReply accepts is not empty, and each of
  -- its values has a success object whose last entry, if there is one, names a key of the request
  -- below the path with the same value, or with "Updated.", or with a colour at most 0.0001 away.
  pub validate_put_reply-IsConfirmed :
      (path : Bytes) (reply : J.Json)
      → with_slash path ≡ ok prefix
      → validate_put_reply J F path request reply ≡ ok true
      → (J.elements reply ≢ []) × All IsConfirmed (J.elements reply)
  unfolding validate_put_reply all_succeed
  validate_put_reply-IsConfirmed path reply slash h = (
    λ empty. never_empty (ap (all_succeed J F prefix request false) (sym empty) ∙ loop),
    IsConfirmed-values false (J.elements reply) loop,
  )
    where
      loop : all_succeed J F prefix request false (J.elements reply) ≡ ok true
      loop = ap (λ r. r >>= λ p. all_succeed J F p request false (J.elements reply)) (sym slash) ∙ h

      never_empty : ok false ≡ ok true → ⊥
      never_empty h = cc

  -- For a path that is not empty, and a reply with one success object, whose entries before the
  -- last are checked without an exception, the verdict on the last entry is the result, whatever
  -- the verdicts on the others were.
  pub validate_put_reply-last :
      (path : Bytes) (reply v s : J.Json) (front : List (Bytes × J.Json)) (e : Bytes × J.Json)
      → with_slash path ≡ ok prefix
      → J.elements reply ≡ v ∷ []
      → J.find v (codes "success") ≡ some s
      → J.entries s ≡ some (front ++ (e ∷ []))
      → All Checks front
      → validate_put_reply J F path request reply ≡ confirms J F prefix request e
  unfolding validate_put_reply all_succeed succeeds
  validate_put_reply-last path reply v s front e slash only found listed checks =
      ap (λ r. r >>= λ p. all_succeed J F p request false (J.elements reply)) slash
      ∙ ap (all_succeed J F prefix request false) only
      ∙ ap (λ r. r >>= λ b. if b then ok true else ok false) value
      ∙ by_verdict (confirms J F prefix request e)
    where
      value : succeeds J F prefix request v ≡ confirms J F prefix request e
      value =
          ap
            (λ o. elim o [
              | none ↦ ok false
              | some s ↦ all_entries J F prefix request (J.entries s)
            ])
            found
          ∙ ap (all_entries J F prefix request) listed
          ∙ last_confirms-append front e true checks

      by_verdict : (r : Result Bool) → (r >>= λ b. if b then ok true else ok false) ≡ r
      by_verdict (ok true) = refl
      by_verdict (ok false) = refl
      by_verdict (err x) = refl
