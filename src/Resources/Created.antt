-- ===== src/Resources/Created.antt =====
-- The id of a created resource, and the list behind its creation.
use hueplusplus.Base.{
  ◌≡◌, refl, ap, ◌∙◌, [], ◌∷◌, ◌++◌, true, false, Bytes, codes, some, ok, err, Error, length, drop,
  arith, if◌then◌else◌, ◌⊎◌, inl, inr,
}
use hueplusplus.Base.Int.{pos, eqb_ℤ}
use hueplusplus.Std.Text.{begins_with}
use hueplusplus.Json.{JsonLib, has}
use hueplusplus.Cache.{
  Info, World, Surroundings, refresh, fetch, answered, store, request_path, cached,
}
use hueplusplus.Commands.{Line, request, post}
use hueplusplus.Lights.{Site}
use hueplusplus.Resources.{IdType, create, created_id, without_path, exists_cached}

begins_with-prefix : (path key : Bytes) → begins_with path (path ++ key) ≡ true
unfolding begins_with
begins_with-prefix [] key = refl
begins_with-prefix (c ∷ path) key = ground (arith, begins_with-prefix path key)

drop-prefix : (path key : Bytes) → drop (length path) (path ++ key) ≡ key
drop-prefix [] key = refl
drop-prefix (c ∷ path) key = drop-prefix path key

-- How a bridge may name the id: alone, or behind the path of the list.
abbrev pub Names : Bytes → Bytes → Bytes → Type 0
Names path key text = ((text ≡ key) × (begins_with path key ≡ false)) ⊎ (text ≡ path ++ key)

without_path-Names : (path key text : Bytes) → Names path key text → without_path path text ≡ key
without_path-Names path key text (inl (same, other)) =
    rw (same) (ap (λ b. if b then drop (length path) key else key) other)
without_path-Names path key text (inr behind) = rw (behind) (
    ap (λ b. if b then drop (length path) (path ++ key) else path ++ key)
      (begins_with-prefix path key)
    ∙ drop-prefix path key)

module _ (J : JsonLib) (S : Site J) (W : Surroundings J) (I : IdType) where
  -- Where the bridge answers the creation in a list with a cache of its own by the key of a valid
  -- id, alone or behind the path of the list, and the refresh of the list by a value, and the clock
  -- is not at its epoch, create gives back that id, and exists of the constant list then says of
  -- every id whether its key is in the value.
  pub create_id :
      (params response v : J.Json) (i : Info J) (w : World) (line : Line) (id : I.Ids)
      (text : Bytes)
      → I.IsValid id
      → Names (i.path ++ codes "/") (I.to_key id) text
      → (request J S.network post S.username i.path params S.min_delay line).0 ≡ ok response
      → J.is_text (created_id J response) ≡ true
      → J.to_text (created_id J response) ≡ some text
      → W.answer (length w.sent) i.path ≡ ok v
      → eqb_ℤ (W.now w.readings) (pos 0) ≡ false
      → let after =
          create J S W I params (record { top = i; bases = []; world = w; line = line }) in
        (after.0 ≡ ok id)
        × ((other : I.Ids) → exists_cached J W I other after.1 ≡ ok (has J v (I.to_key other)))
  unfolding create refresh fetch answered store request_path cached
  create_id params response v i w line id text valid names replied is_text to_text answer clock =
      rw (replied, is_text, to_text, answer)
        (
          ap I.of_key (without_path-Names (i.path ++ codes "/") (I.to_key id) text names)
              ∙ I.of_key-to_key id valid,
          λ other.
              ap
                (λ b. elim (if b then err Error.hue_exception else ok v) [
                  | err e ↦ err e
                  | ok state ↦ ok (has J state (I.to_key other))
                ])
                clock,
        )
