-- ===== src/Transaction/Silent.antt =====
-- Transactions with entries that trimming takes out.
use hueplusplus.Base.{
  All, ℕ, List, [], ◌∷◌, ◌≡◌, refl, ◌∙◌, sym, subst, Bool, true, false, ◌&&◌, ◌||◌, Bytes, codes,
  bytes_eq, none, some, Result, ok, err, if◌then◌else◌, arith, ◌⊎◌, inl, inr, length, ◌==◌,
  Bool-cases,
}
use hueplusplus.Base.Keys.{bytes_eq_iff}
use hueplusplus.Json.{JsonLib, EntryLaws, KeyLaws, Distinct, has, last_value}
use hueplusplus.Validation.{Floats}
use hueplusplus.Commands.{Network, Line, request}
use hueplusplus.Transaction.{
  Trimmed, Committed, with_on, is_redundant, trimmed_entry, trim_entries, trim_request,
  has_no_effect, entries_of, send, switched, commit,
}
use hueplusplus.Transaction.Trim.{entries_are_found}
use hueplusplus.Transaction.Changes.{last_value_or}
use hueplusplus.Transaction.Commit.{on_state}

module _ (J : JsonLib) (F : Floats J) where
  -- An entry is the time of the transition, or the state has its value.
  abbrev pub Needless : J.Json → Bytes × J.Json → Type 0
  Needless state (key, v) =
      (bytes_eq key (codes "transitiontime") ≡ true)
      ⊎ ((is_redundant J F state (key, v)).0 ≡ ok true)

  -- Each key of the request with a value, the time of the transition apart, is one of the entries.
  abbrev Covered : List (Bytes × J.Json) → J.Json → Type 0
  Covered es request =
      (key : Bytes)
      → bytes_eq key (codes "transitiontime") ≡ false
      → last_value key es none ≡ none
      → J.find request key ≡ none

  -- Nothing is left but the time of the transition.
  abbrev pub OnlyTime : J.Json → Type 0
  OnlyTime request =
      (J.is_object request ≡ true)
      × ((key : Bytes) → bytes_eq key (codes "transitiontime") ≡ false → J.find request key ≡ none)

  abbrev Swept : J.Json → Trimmed J F → Type 0
  Swept state t = (t.outcome ≡ ok tt) × OnlyTime t.request × (t.state ≡ some state)

  time_is_kept :
      (state v : J.Json) (key : Bytes)
      → bytes_eq key (codes "transitiontime") ≡ true
      → (is_redundant J F state (key, v)).0 ≡ ok false
  unfolding is_redundant bytes_eq
  time_is_kept state v key same =
      subst (λ k. (is_redundant J F state (k, v)).0 ≡ ok false)
        (sym ((bytes_eq_iff key (codes "transitiontime")).0 same)) refl

  module _ (laws : EntryLaws J) (state : J.Json) where
    sweep :
        (es : List (Bytes × J.Json)) (request : J.Json)
        → All (Needless state) es
        → J.is_object request ≡ true
        → Covered es request
        → Swept state (trim_entries J F state es request)
    unfolding trim_entries
    sweep [] request _ object covered = (refl, (object, λ key other. covered key other refl), refl)
    sweep ((k, v) ∷ es) request (needless, later) object covered =
        by_test needless (λ r o c. sweep es r later o c)
      where
        erased : Covered es (J.erase request k)
        erased key other gone =
            ground (arith, laws.find-erase request k key object, covered key other, gone)

        kept : bytes_eq k (codes "transitiontime") ≡ true → Covered es request
        kept same key other gone = covered key other (
            ground
              (arith, bytes_eq_iff k (codes "transitiontime"), bytes_eq_iff k key, other, gone))

        by_verdict :
            (r : Result Bool × J.Json) (b : Bool)
            → r.0 ≡ ok b
            → Swept state (trim_entries J F state es (if b then J.erase request k else request))
            → Swept state (
                trimmed_entry J F r request
                  (trim_entries J F state es (J.erase request k))
                  (trim_entries J F state es request))
        by_verdict (ok true, after) true e h = h
        by_verdict (ok true, after) false e h = cc
        by_verdict (ok false, after) true e h = cc
        by_verdict (ok false, after) false e h = h
        by_verdict (err x, after) b e h = cc

        by_test :
            Needless state (k, v)
            → ((r : J.Json)
                → J.is_object r ≡ true
                → Covered es r
                → Swept state (trim_entries J F state es r))
            → Swept state (
                trimmed_entry J F
                  (is_redundant J F state (k, v))
                  request
                  (trim_entries J F state es (J.erase request k))
                  (trim_entries J F state es request))
        by_test (inl same) rest =
            by_verdict (is_redundant J F state (k, v)) false (time_is_kept state v k same)
              (rest request object (kept same))
        by_test (inr redundant) rest =
            by_verdict (is_redundant J F state (k, v)) true redundant
              (rest (J.erase request k) (laws.erase_is request k object) erased)

    -- What holds of the keys of a request holds of its entries.
    pub Needless-entries :
        (with : J.Json)
        → J.is_object with ≡ true
        → ((key : Bytes) (v : J.Json) → J.find with key ≡ some v → Needless state (key, v))
        → All (Needless state) (entries_of J F with)
    Needless-entries with object needless =
        each (entries_of J F with) (entries_are_found J F laws with object)
      where
        each :
            (es : List (Bytes × J.Json))
            → All (λ e. J.find with e.0 ≡ some e.1) es
            → All (Needless state) es
        each [] found = tt
        each ((k, v) ∷ es) (here, later) = (needless k v here, each es later)

    module _ (key_laws : KeyLaws J) where
      All-times :
          (request : J.Json) (es : List (Bytes × J.Json))
          → OnlyTime request
          → All (λ e. J.find request e.0 ≡ some e.1) es
          → All (λ e. bytes_eq e.0 (codes "transitiontime") ≡ true) es
      All-times request [] only found = tt
      All-times request ((k, v) ∷ es) (object, only) (here, later) = (
        by_time (Bool-cases (bytes_eq k (codes "transitiontime"))),
        All-times request es (object, only) later,
      )
        where
          by_time :
              (bytes_eq k (codes "transitiontime") ≡ true)
                ⊎ (bytes_eq k (codes "transitiontime") ≡ false)
              → bytes_eq k (codes "transitiontime") ≡ true
          by_time (inl same) = same
          by_time (inr other) = ground (arith, only k other, here)

      -- Entries that stand for the same key are one.
      one_time :
          (request : J.Json) (es : List (Bytes × J.Json))
          → Distinct es
          → All (λ e. J.find request e.0 ≡ some e.1) es
          → All (λ e. bytes_eq e.0 (codes "transitiontime") ≡ true) es
          → ((length es == 0) || ((length es == 1) && has J request (codes "transitiontime")))
            ≡ true
      one_time request [] d found times = refl
      one_time request ((k, v) ∷ []) d (found, _) (time, _) =
          ground (arith, bytes_eq_iff k (codes "transitiontime"), found, time)
      one_time request ((k, v) ∷ (l, w) ∷ es) (once, _) found (time, (again, _)) = ground (
        arith,
        bytes_eq_iff k (codes "transitiontime"),
        bytes_eq_iff l (codes "transitiontime"),
        bytes_eq_iff l k,
        last_value_or J F k es (some w),
        once,
        time,
        again,
      )

      OnlyTime-has_no_effect :
          (request : J.Json) → OnlyTime request → has_no_effect J F request ≡ true
      OnlyTime-has_no_effect request (object, only) =
          let (es, listed, values, found) = laws.entries-find request object in
          subst
            (λ o.
              ((length (elim o [ none ↦ [] | some ds ↦ ds ]) == 0)
                || ((length (elim o [ none ↦ [] | some ds ↦ ds ]) == 1)
                    && has J request (codes "transitiontime")))
              ≡ true)
            (sym listed)
            (one_time request es (key_laws.entries-Distinct request es listed) found
              (All-times request es (object, only) found))

      module _ (N : Network J) (username : Bytes) (d : ℕ) where
        -- A commit gives true back, sends nothing and leaves the state as it is.
        abbrev pub IsSilent : J.Json → Line → Committed J F → Type 0
        IsSilent before line c =
            (c.result ≡ ok true) × (c.line ≡ line) × (c.transaction.state ≡ some before)

        send-IsSilent :
            (path : Bytes) (line : Line) (t : Trimmed J F)
            → Swept state t
            → IsSilent state line (
                send J F N username d
                  (record { path = path; state = t.state; request = t.request })
                  line
                  t.outcome)
        unfolding send
        send-IsSilent path line t (done, only, left) =
            rw (done, OnlyTime-has_no_effect t.request only) (refl, refl, left)

        -- A commit with trimming of needless entries.
        pub Needless-IsSilent :
            (path : Bytes) (changes with : J.Json) (line : Line)
            → with_on J F state changes ≡ ok with
            → J.is_object with ≡ true
            → All (Needless state) (entries_of J F with)
            → IsSilent state line
                (commit J F N username d true (on_state J F path state changes) line)
        unfolding commit trim_request
        Needless-IsSilent path changes with line switched_on object needless =
            subst
              (λ r.
                IsSilent state line
                  (switched J F N username d true (on_state J F path state changes) line r))
              (sym switched_on)
              (send-IsSilent path line (trim_entries J F state (entries_of J F with) with)
                (sweep (entries_of J F with) with needless object covers))
          where
            covers : Covered (entries_of J F with) with
            covers key other gone =
                let (es, listed, values, found) = laws.entries-find with object in
                values key
                ∙ subst (λ o. last_value key (elim o [ none ↦ [] | some ds ↦ ds ]) none ≡ none)
                    listed gone
