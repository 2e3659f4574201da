-- ===== src/Transaction/Commit.antt =====
-- What `commit` leaves in the state.
use hueplusplus.Base.{
  ℕ, ◌≡◌, refl, ap, subst, Bool, true, false, ◌||◌, Bytes, codes, some, Result, ok, err, Error, sym,
  ◌>>=◌, if◌then◌else◌, arith,
}
use hueplusplus.Json.{JsonLib, ObjectLaws, EntryLaws, takes_keys, has}
use hueplusplus.Validation.{Floats, validate_put_reply}
use hueplusplus.Commands.{Network, Line, request, put}
use hueplusplus.Transaction.{
  Transaction, Trimmed, Committed, with_on, trim_request, change_state, entries_of, has_no_effect,
  written, validated, replied, send, switched, commit,
}
use hueplusplus.Transaction.Trim.{trim_request-IsTrimmed}
use hueplusplus.Transaction.Filled.{Spares, all_spared, trim_request-SparesState}
use hueplusplus.Transaction.Changes.{overlay, changed, changes_overlay, no_effect_overlay}

module _ (J : JsonLib) (F : Floats J) where
  -- If `commit` gives true back, each key of the state has the value of the request that is left, the
  -- time of the transition apart, or its value before; if it gives false back, the state is as before; and
  -- else too, but for an array that trimming filled.
  abbrev pub LeavesState : Bool → J.Json → Committed J F → Type 0
  LeavesState trim state c =
      (c.result ≡ ok true
        → (after : J.Json) × (c.transaction.state ≡ some after)
          × ((key : Bytes) → J.find after key ≡ overlay J F state c.transaction.request key))
      × (c.result ≡ ok false → c.transaction.state ≡ some state)
      × ((e : Error)
          → c.result ≡ err e
          → (after : J.Json) × (c.transaction.state ≡ some after)
            × (trim ≡ false → after ≡ state)
            × Spares J F state after)

  -- A transaction on a state.
  abbrev pub on_state : Bytes → J.Json → J.Json → Transaction J
  on_state path state request = record { path = path; state = some state; request = request }

  -- The first part of `commit` leaves an object.
  with_on_object :
      (laws : ObjectLaws J) (state request with : J.Json)
      → J.is_object request ≡ true
      → with_on J F state request ≡ ok with
      → J.is_object with ≡ true
  unfolding with_on
  with_on_object laws state request with object h = by_test (has J request (codes "on")) _ _ h
    where
      takes : takes_keys J request ≡ true
      takes = ap (λ b. b || J.is_null request) object

      becomes : (r : J.Json) → J.is_object r ≡ true → ok r ≡ ok with → J.is_object with ≡ true
      becomes r o e = ground (arith, o, e)

      turned : Bool → J.Json
      turned b = J.set request (codes "on") (J.of_bool b)

      by_off :
          (off : Result Bool)
          → (off >>= λ b. ok (if b then turned false else request)) ≡ ok with
          → J.is_object with ≡ true
      by_off (ok true) e = becomes (turned false) (laws.set_is request _ _ takes) e
      by_off (ok false) e = becomes request object e
      by_off (err x) e = cc

      by_test :
          (b : Bool) (on off : Result Bool)
          → (if b
              then ok request
              else on >>= λ n.
                  if n
                  then ok (turned true)
                  else off >>= λ f. ok (if f then turned false else request))
            ≡ ok with
          → J.is_object with ≡ true
      by_test true on off e = becomes request object e
      by_test false (ok true) off e = becomes (turned true) (laws.set_is request _ _ takes) e
      by_test false (ok false) off e = by_off off e
      by_test false (err x) off e = cc

  module _ (N : Network J) (username : Bytes) (d : ℕ) (laws : ObjectLaws J)
      (entry_laws : EntryLaws J) where
    module _ (trim : Bool) (path : Bytes) (state : J.Json) (takes : takes_keys J state ≡ true) where
      threw :
          (after : J.Json) (r : Result Bool)
          → (trim ≡ false → after ≡ state)
          → Spares J F state after
          → (e : Error) → r ≡ err e
          → (last : J.Json) × (some after ≡ some last)
            × (trim ≡ false → last ≡ state)
            × Spares J F state last
      threw after r same spares e h = (after, refl, same, spares)

      still :
          (e : Error) (r : Result Bool)
          → r ≡ err e
          → (last : J.Json) × (some state ≡ some last)
            × (trim ≡ false → last ≡ state)
            × Spares J F state last
      still e r h = threw state r (λ f. refl) (all_spared J F state) e h

      sent :
          (left : J.Json) (line : Line)
          → J.is_object left ≡ true
          → LeavesState trim state (send J F N username d (on_state path state left) line (ok tt))
      unfolding send
      sent left line object =
          by_effect (has_no_effect J F left) refl (request J N put username path left d line)
        where
          t : Transaction J
          t = on_state path state left

          by_write :
              (line2 : Line) (r : Result J.Json)
              → change_state J F state (entries_of J F left) ≡ r
              → LeavesState trim state (written J F N username d t line2 r)
          by_write line2 (err e) eq = (λ h. cc, λ h. refl, λ x. still x (err e))
          by_write line2 (ok after) eq =
              let (changes, done, h) = changed J F laws (entries_of J F left) state takes in
              (
                λ _. (
                  after,
                  refl,
                  λ key.
                      subst (λ s. J.find s key ≡ overlay J F state left key)
                        (ground (arith, done, eq))
                        (changes_overlay J F entry_laws state left changes key object h),
                ),
                λ no. cc,
                λ x no. cc,
              )

          by_verdict :
              (line2 : Line) (v : Result Bool)
              → LeavesState trim state (validated J F N username d t line2 v)
          by_verdict line2 (ok true) =
              by_write line2 (change_state J F state (entries_of J F left)) refl
          by_verdict line2 (ok false) = (λ h. cc, λ h. refl, λ x no. cc)
          by_verdict line2 (err e) = (λ h. cc, λ h. refl, λ x. still x (err e))

          by_reply :
              (r : Result J.Json × Line) → LeavesState trim state (replied J F N username d t r)
          by_reply (ok reply, line2) = by_verdict line2 (validate_put_reply J F path left reply)
          by_reply (err e, line2) = (λ h. cc, λ h. refl, λ x. still x (err e))

          by_effect :
              (b : Bool)
              → has_no_effect J F left ≡ b
              → (r : Result J.Json × Line)
              → LeavesState trim state (
                  if b
                  then record { result = ok true; transaction = t; line = line }
                  else replied J F N username d t r)
          by_effect true e r = (
            λ _. (state, refl, λ key. no_effect_overlay J F entry_laws state left key object e),
            λ no. cc,
            λ x no. cc,
          )
          by_effect false e r = by_reply r

      -- What follows the trimming, which spared the state.
      sent_trimmed :
          (left after : J.Json) (line : Line) (r : Result (Unit {0}))
          → J.is_object left ≡ true
          → ((u : Unit {0}) → r ≡ ok u → after ≡ state)
          → (trim ≡ false → after ≡ state)
          → Spares J F state after
          → LeavesState trim state (send J F N username d (on_state path after left) line r)
      unfolding send
      sent_trimmed left after line (ok u) object same whole spares =
          subst
            (λ s. LeavesState trim state (send J F N username d (on_state path s left) line (ok u)))
            (sym (same u refl)) (sent left line object)
      sent_trimmed left after line (err e) object same whole spares =
          (λ h. cc, λ h. cc, λ x. threw after (err e) whole spares x)

    -- For a transaction on a state that is an object or null, with a request that is an object,
    -- with or without trimming: if commit returns true, each key of the state has the value of the
    -- request that is left after trimming, except for the time of the transition, or the value it
    -- had before if the request has no such key; if it returns false, the state is as before; and
    -- if an exception leaves it, the state is as before without trimming, and with trimming each
    -- key has its value as before, but for an array of fewer than two values, which may have been
    -- filled with nulls. The JSON library keeps the laws of objects and of loops over them.
    pub commit-LeavesState :
        (trim : Bool) (path : Bytes) (state changes : J.Json) (line : Line)
        → takes_keys J state ≡ true
        → J.is_object changes ≡ true
        → LeavesState trim state (commit J F N username d trim (on_state path state changes) line)
    unfolding commit
    commit-LeavesState trim path state changes line takes object =
        by_on (with_on J F state changes) refl
      where
        by_trim :
            (b : Bool) (with : J.Json)
            → J.is_object with ≡ true
            → LeavesState b state
                (switched J F N username d b (on_state path state changes) line (ok with))
        by_trim true with o =
            let trimmed : Trimmed J F = trim_request J F (some state) with in
            let (after, here, same, spares) = trim_request-SparesState J F laws state takes with in
            subst
              (λ s. LeavesState true state (
                send J F N username d (record { path = path; state = s; request = trimmed.request })
                  line trimmed.outcome))
              (sym here)
              (sent_trimmed true path state takes trimmed.request after line trimmed.outcome
                (trim_request-IsTrimmed J F entry_laws state with o).0 same (λ f. cc) spares)
        by_trim false with o = sent false path state takes with line o

        by_on :
            (r : Result J.Json)
            → with_on J F state changes ≡ r
            → LeavesState trim state
                (switched J F N username d trim (on_state path state changes) line r)
        by_on (err e) eq = (λ h. cc, λ h. refl, λ x. still trim path state takes x (err e))
        by_on (ok with) eq = by_trim trim with (with_on_object laws state changes with object eq)
