-- ===== src/Groups/Effects.antt =====
-- A commit of a request with an effect sends it.
use hueplusplus.Base.{
  ℕ, ◌<◌, List, [], ◌∷◌, ◌≡◌, refl, ap, sym, subst, ◌∙◌, Bool, true, false, ◌&&◌, ◌||◌, Bytes,
  codes, bytes_eq, Option, none, some, if◌then◌else◌, Result, ok, err, length, ◌==◌, arith,
}
use hueplusplus.Base.Keys.{bytes_eq_iff}
use hueplusplus.Json.{JsonLib, EntryLaws, has, last_value}
use hueplusplus.Validation.{Floats, validate_put_reply}
use hueplusplus.Commands.{Network, Line, put, request}
use hueplusplus.Transaction.{
  Transaction, with_on, has_no_effect, entries_of, change_state, applied, written, validated,
  replied, send, switched, commit, trim_request, changes,
}
use hueplusplus.Commands.Calls.{request_calls}

module _ (J : JsonLib) (F : Floats J) where
  -- A key other than the time of the transition is an effect.
  has_effect :
      EntryLaws J
      → (request v : J.Json) (key : Bytes) → J.is_object request ≡ true
      → J.find request key ≡ some v
      → bytes_eq key (codes "transitiontime") ≡ false
      → has_no_effect J F request ≡ false
  has_effect laws request v key object found other =
      let (es, listed, values, all) = laws.entries-find request object in
      subst
        (λ o.
          ((length (elim o [ none ↦ [] | some ds ↦ ds ]) == 0)
            || ((length (elim o [ none ↦ [] | some ds ↦ ds ]) == 1)
                && has J request (codes "transitiontime")))
          ≡ false)
        (sym listed)
        (by_entries es (sym (values key) ∙ found)
          (ap (λ o. elim o [ none ↦ false | some _ ↦ true ]) (values (codes "transitiontime"))))
    where
      by_entries :
          (es : List (Bytes × J.Json))
          → last_value key es none ≡ some v
          → has J request (codes "transitiontime")
            ≡ (elim (last_value (codes "transitiontime") es none) [ none ↦ false | some _ ↦ true ])
          → ((length es == 0) || ((length es == 1) && has J request (codes "transitiontime")))
            ≡ false
      by_entries [] here time = cc
      by_entries ((k, w) ∷ []) here time =
          ground
            (arith, bytes_eq_iff k key, bytes_eq_iff k (codes "transitiontime"), other, here, time)
      by_entries (e ∷ e2 ∷ es) here time = ground arith

  module _ (N : Network J) (username : Bytes) (d : ℕ) where
    -- The line behind a request stays.
    replied_line :
        (t : Transaction J) (r : Result J.Json × Line) → (replied J F N username d t r).line ≡ r.1
    replied_line t (err e, line) = refl
    replied_line t (ok reply, line) = by_verdict (validate_put_reply J F t.path t.request reply)
      where
        by_write : (r : Result J.Json) → (written J F N username d t line r).line ≡ line
        by_write (ok s) = refl
        by_write (err e) = refl

        by_state : (o : Option J.Json) → (applied J F N username d t line o).line ≡ line
        by_state none = refl
        by_state (some s) = by_write (change_state J F s (entries_of J F t.request))

        by_verdict : (v : Result Bool) → (validated J F N username d t line v).line ≡ line
        by_verdict (ok true) = by_state t.state
        by_verdict (ok false) = refl
        by_verdict (err e) = refl

    -- A commit without a state, of a request with an effect once it turns the light on or off, sends it.
    pub commit_calls :
        EntryLaws J
        → (path key : Bytes) (changes with v : J.Json) (line : Line)
        → with_on J F J.object changes ≡ ok with
        → J.is_object with ≡ true
        → J.find with key ≡ some v
        → bytes_eq key (codes "transitiontime") ≡ false
        → line.calls
          < (commit J F N username d true
              (record { path = path; state = none; request = changes })
              line).line.calls
    unfolding commit send trim_request
    commit_calls laws path key changes with v line switched_on object found other =
        subst
          (λ r.
            line.calls
            < (switched J F N username d true
                (record { path = path; state = none; request = changes }) line r).line.calls)
          (sym switched_on)
          (subst
            (λ b.
              line.calls
              < (if b
                  then record { result = ok true; transaction = t; line = line }
                  else replied J F N username d t
                      (request J N put username path with d line)).line.calls)
            (sym (has_effect laws with v key object found other))
            (subst (λ l. line.calls < l.calls)
              (sym (replied_line t (request J N put username path with d line)))
              (request_calls J N put username path with d line)))
      where
        t : Transaction J
        t = record { path = path; state = none; request = with }
