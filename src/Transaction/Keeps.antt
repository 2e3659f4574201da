-- ===== src/Transaction/Keeps.antt =====
-- The keys of the state that a transaction does not write.
use hueplusplus.Base.{
  ℕ, ◌≡◌, refl, sym, subst, List, [], ◌∷◌, Bool, true, false, ◌||◌, Bytes, codes, bytes_eq, none,
  some, Result, ok, err, Error, ◌⊎◌, ◌>>=◌, ◌∙◌, if◌then◌else◌, arith, inl, inr, ap,
}
use hueplusplus.Json.{JsonLib, ObjectLaws, EntryLaws, assign, takes_keys}
use hueplusplus.Validation.{Floats, validate_put_reply}
use hueplusplus.Commands.{Network, Line, request, put}
use hueplusplus.Transaction.{
  Transaction, Trimmed, Committed, with_on, trim_request, change_state, entries_of, has_no_effect,
  written, validated, replied, send, switched, commit,
}
use hueplusplus.Transaction.Changes.{overlay}
use hueplusplus.Transaction.Filled.{trim_request-SparesState}
use hueplusplus.Transaction.Trim.{IsCurrent, trim_request-IsTrimmed}
use hueplusplus.Transaction.Commit.{on_state, commit-LeavesState}

module _ (J : JsonLib) (F : Floats J) where
  -- The state is an object that has each key as before that a request does not write.
  abbrev pub Keeps : J.Json → J.Json → J.Json → Type 0
  Keeps state with after =
      (J.is_object after ≡ true)
      × ((key : Bytes) → J.find with key ≡ none → J.find after key ≡ J.find state key)

  change_state_object :
      (laws : ObjectLaws J) (es : List (Bytes × J.Json)) (state after : J.Json)
      → J.is_object state ≡ true
      → change_state J F state es ≡ ok after
      → J.is_object after ≡ true
  unfolding change_state
  change_state_object laws [] state after object done = ground (arith, object, done)
  change_state_object laws ((k, v) ∷ es) state after object done =
      by_time (bytes_eq k (codes "transitiontime"))
        (λ s o h. change_state_object laws es s after o h) done
    where
      takes : takes_keys J state ≡ true
      takes = ap (λ b. b || J.is_null state) object

      by_time :
          (b : Bool)
          → ((s : J.Json)
              → J.is_object s ≡ true
              → change_state J F s es ≡ ok after
              → J.is_object after ≡ true)
          → (if b
              then change_state J F state es
              else assign J state k v >>= λ changed. change_state J F changed es)
            ≡ ok after
          → J.is_object after ≡ true
      by_time true rest h = rest state object h
      by_time false rest h = rest (J.set state k v) (laws.set_is state k v takes) (
          sym (
            ap
              (λ b. (if b then ok (J.set state k v) else err Error.json_exception) >>= λ changed.
                change_state J F changed es)
              takes)
          ∙ h)

  module _ (N : Network J) (username : Bytes) (d : ℕ) (laws : ObjectLaws J) where
    -- What is sent stands in the transaction, and its state is an object or gone.
    abbrev Sent : J.Json → Committed J F → Type 0
    Sent left c =
        (c.transaction.request ≡ left)
        × ((after : J.Json) → c.transaction.state ≡ some after → J.is_object after ≡ true)

    send-Sent :
        (path : Bytes) (state left : J.Json) (line : Line) (r : Result (Unit {0}))
        → J.is_object state ≡ true
        → Sent left (send J F N username d (on_state J F path state left) line r)
    unfolding send
    send-Sent path state left line r object = by_outcome r
      where
        t : Transaction J
        t = on_state J F path state left

        kept : (after : J.Json) → some state ≡ some after → J.is_object after ≡ true
        kept after same = ground (arith, object, same)

        by_write :
            (line2 : Line) (r : Result J.Json)
            → change_state J F state (entries_of J F left) ≡ r
            → Sent left (written J F N username d t line2 r)
        by_write line2 (err e) eq = (refl, kept)
        by_write line2 (ok next) eq = (
          refl,
          λ after same.
              ground
                (arith, change_state_object laws (entries_of J F left) state next object eq, same),
        )

        by_verdict :
            (line2 : Line) (v : Result Bool) → Sent left (validated J F N username d t line2 v)
        by_verdict line2 (ok true) =
            by_write line2 (change_state J F state (entries_of J F left)) refl
        by_verdict line2 (ok false) = (refl, kept)
        by_verdict line2 (err e) = (refl, kept)

        by_reply : (r : Result J.Json × Line) → Sent left (replied J F N username d t r)
        by_reply (ok reply, line2) = by_verdict line2 (validate_put_reply J F path left reply)
        by_reply (err e, line2) = (refl, kept)

        by_effect :
            (b : Bool) (r : Result J.Json × Line)
            → Sent left (
                if b
                then record { result = ok true; transaction = t; line = line }
                else replied J F N username d t r)
        by_effect true r = (refl, kept)
        by_effect false r = by_reply r

        by_outcome : (r : Result (Unit {0})) → Sent left (send J F N username d t line r)
        by_outcome (err e) = (refl, kept)
        by_outcome (ok u) =
            by_effect (has_no_effect J F left) (request J N put username path left d line)

    module _ (path : Bytes) (state changes with : J.Json) (line : Line) where
      -- The transaction of a commit with trimming, and what it leaves.
      abbrev outcome : Committed J F
      outcome = commit J F N username d true (on_state J F path state changes) line

      commit-Sent :
          J.is_object state ≡ true
          → with_on J F state changes ≡ ok with
          → Sent (trim_request J F (some state) with).request outcome
      unfolding commit
      commit-Sent object switched_on =
          let trimmed : Trimmed J F = trim_request J F (some state) with in
          let (after, here, same, spares) =
            trim_request-SparesState J F laws state (ap (λ b. b || J.is_null state) object) with in
          subst
            (λ r.
              Sent trimmed.request
                (switched J F N username d true (on_state J F path state changes) line r))
            (sym switched_on)
            (subst
              (λ s. Sent trimmed.request (
                send J F N username d (record { path = path; state = s; request = trimmed.request })
                  line trimmed.outcome))
              (sym here)
              (send-Sent path after trimmed.request line trimmed.outcome (spares.0 object)))

      -- If commit gives true back, the state has each key as before that the request does not have, once
      -- it may turn the light on or off.
      pub commit-Keeps :
          EntryLaws J
          → J.is_object state ≡ true
          → J.is_object changes ≡ true
          → with_on J F state changes ≡ ok with
          → J.is_object with ≡ true
          → outcome.result ≡ ok true
          → (after : J.Json) × (outcome.transaction.state ≡ some after) × Keeps state with after
      commit-Keeps entry_laws object changes_object switched_on with_object done =
          let (after, here, values) =
            (commit-LeavesState J F N username d laws entry_laws true path state changes line
                (ap (λ b. b || J.is_null state) object) changes_object).0
              done in
          (
            after,
            here,
            (
              (commit-Sent object switched_on).1 after here,
              λ key gone. values key ∙ untouched key gone,
            ),
          )
        where
          left_none :
              (key : Bytes) → J.find with key ≡ none → J.find outcome.transaction.request key ≡ none
          left_none key gone =
              subst (λ j. J.find j key ≡ none) (sym (commit-Sent object switched_on).0)
                (by_trim ((trim_request-IsTrimmed J F entry_laws state with with_object).1 key))
            where
              by_trim :
                  (J.find (trim_request J F (some state) with).request key ≡ J.find with key)
                    ⊎ ((J.find (trim_request J F (some state) with).request key ≡ none)
                        × IsCurrent J F state with key)
                  → J.find (trim_request J F (some state) with).request key ≡ none
              by_trim (inl same) = same ∙ gone
              by_trim (inr (none_left, current)) = none_left

          untouched :
              (key : Bytes)
              → J.find with key ≡ none
              → overlay J F state outcome.transaction.request key ≡ J.find state key
          untouched key gone = ground (arith, left_none key gone)
