-- ===== src/Lights/Shown.antt =====
-- A light whose cache holds its state and does not ask the bridge for it: what its transactions do then.
use hueplusplus.Base.{
  List, ◌≡◌, ap, sym, subst, ◌∙◌, true, ◌||◌, Bytes, codes, bytes_eq, none, some, ok, err, Error,
}
use hueplusplus.Base.Action.{lift, and_then, ◌>>=◌}
use hueplusplus.Json.{JsonLib, ObjectLaws, EntryLaws, KeyLaws, takes_keys, at_key}
use hueplusplus.Validation.{Floats}
use hueplusplus.Settings.{Setting}
use hueplusplus.Settings.Range.{requested}
use hueplusplus.Commands.{Line}
use hueplusplus.Transaction.{Committed, with_on, commit}
use hueplusplus.Transaction.Commit.{on_state}
use hueplusplus.Transaction.Keeps.{Keeps, commit-Keeps}
use hueplusplus.Transaction.Silent.{Needless, Needless-entries, Needless-IsSilent}
use hueplusplus.Lights.{
  CacheOf, Site, Light, state_path, state_entry, const_state, written_back, commit_on, transact,
}

module _ (J : JsonLib) (C : CacheOf J) where
  -- The cell holds a value with the state as its entry.
  abbrev pub Shows : J.Json → C.Cell → Type 0
  Shows state cell =
      (v : J.Json) × C.Holds v cell
      × (J.is_object v ≡ true)
      × (J.find v (codes "state") ≡ some state)

  -- The reading of the state gives it, and asks nobody.
  pub state_entry-Shows :
      (state : J.Json) (cell : C.Cell) (line : Line)
      → Shows state cell
      → (after : C.Cell) × (state_entry J C (cell, line) ≡ (ok state, (after, line)))
        × Shows state after
  state_entry-Shows state cell line (v, held, object, found) =
      let (next, read, holds) = C.read-Holds v cell line held in
      (C.store v next, rw (read, takes, found), (v, C.store-Holds v v next holds, object, found))
    where
      takes : takes_keys J v ≡ true
      takes = ap (λ b. b || J.is_null v) object

  pub const_state-Shows :
      (state : J.Json) (cell : C.Cell) (line : Line)
      → Shows state cell
      → const_state J C (cell, line) ≡ (ok state, (cell, line))
  const_state-Shows state cell line (v, held, object, found) =
      rw (C.peek-Holds v cell held, object, found)

module _ (J : JsonLib) (F : Floats J) (S : Site J) (C : CacheOf J) (laws : ObjectLaws J) where
  module _ (light : Light) (settings : List (Setting J)) (state : J.Json) (cell : C.Cell)
      (line : Line) where
    abbrev committed : Committed J F
    committed =
        commit J F S.network S.username S.min_delay true
          (on_state J F (state_path light) state (requested J F settings J.object)) line

    transact-Shows :
        (v : J.Json)
        → C.Holds v cell
        → J.find v (codes "state") ≡ some state
        → (after : C.Cell) × (transact J F S C light settings (cell, line)
            ≡ written_back J F S C after v committed)
          × C.Holds v after
    unfolding transact
    transact-Shows v held found =
        let (next, read, holds) = C.read-Holds v cell line held in
        (
          next,
          ap
                (and_then λ value.
                  lift (at_key J value (codes "state")) >>= commit_on J F S C light settings value)
                read
              ∙ ap
                  (λ o.
                    and_then (commit_on J F S C light settings v)
                      (elim o [ none ↦ err Error.json_exception | some s ↦ ok s ], (next, line)))
                  found,
          holds,
        )

    module _ (entry_laws : EntryLaws J) (with : J.Json)
        (switched_on : with_on J F state (requested J F settings J.object) ≡ ok with)
        (with_object : J.is_object with ≡ true) where
      stored-Shows :
          (v after : J.Json) (next : C.Cell)
          → J.is_object v ≡ true
          → C.Holds v next
          → committed.transaction.state ≡ some after
          → Shows J C after (written_back J F S C next v committed).1.0
      unfolding bytes_eq
      stored-Shows v after next object held here =
          subst
            (λ o.
              Shows J C after
                (elim o [ none ↦ next | some s ↦ C.store (J.set v (codes "state") s) next ]))
            (sym here)
            (
              J.set v (codes "state") after,
              C.store-Holds v (J.set v (codes "state") after) next held,
              laws.set_is v (codes "state") after takes,
              laws.find-set v (codes "state") (codes "state") after takes,
            )
        where
          takes : takes_keys J v ≡ true
          takes = ap (λ b. b || J.is_null v) object

      -- If a transaction gives true back, the cell shows a state that keeps what its request does not have.
      pub transact-Keeps :
          J.is_object state ≡ true
          → J.is_object (requested J F settings J.object) ≡ true
          → Shows J C state cell
          → (transact J F S C light settings (cell, line)).0 ≡ ok true
          → (after : J.Json) × Shows J C after (transact J F S C light settings (cell, line)).1.0
            × Keeps J F state with after
      transact-Keeps state_object object (v, held, value_object, found) done =
          let (next, same, holds) = transact-Shows v held found in
          let (after, here, keeps) =
            commit-Keeps J F S.network S.username S.min_delay laws (state_path light) state
              (requested J F settings J.object) with line entry_laws state_object object switched_on
              with_object (ap (λ r. r.0) (sym same) ∙ done) in
          (
            after,
            subst (λ p. Shows J C after p.1.0) (sym same)
                (stored-Shows v after next value_object holds here),
            keeps,
          )

      -- A transaction for what the state has already gives true back and sends nothing.
      pub transact-IsSilent :
          KeyLaws J
          → ((key : Bytes) (v : J.Json) → J.find with key ≡ some v → Needless J F state (key, v))
          → Shows J C state cell
          → ((transact J F S C light settings (cell, line)).0 ≡ ok true)
            × ((transact J F S C light settings (cell, line)).1.1 ≡ line)
            × Shows J C state (transact J F S C light settings (cell, line)).1.0
      transact-IsSilent key_laws needless (v, held, value_object, found) =
          let (next, same, holds) = transact-Shows v held found in
          let (done, quiet, here) =
            Needless-IsSilent J F entry_laws state key_laws S.network S.username S.min_delay
              (state_path light) (requested J F settings J.object) with line switched_on with_object
              (Needless-entries J F entry_laws state with with_object needless) in
          rw same (done, quiet, stored-Shows v state next value_object holds here)
