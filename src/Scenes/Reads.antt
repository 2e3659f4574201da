-- ===== src/Scenes/Reads.antt =====
-- What a scene reads back: the lights of a request, and the state of the cache behind a setter.
use hueplusplus.Base.{
  All, List, [], ◌∷◌, map, ◌≡◌, refl, ap, ◌∙◌, Bytes, codes, bytes_eq, some, none, ok, err, Error,
  ◌++◌, ◌>>=◌,
}
use hueplusplus.Base.Int.{ℤ}
use hueplusplus.Std.Number.{to_string}
use hueplusplus.Std.Number.Whole.{IsInt, stoi-to_string}
use hueplusplus.Json.{JsonLib, ObjectLaws, TextLaws, is_object-takes_keys}
use hueplusplus.Rules.RoundTrip.{elements-pushed}
use hueplusplus.Commands.{Line, request, put}
use hueplusplus.Lights.{CacheOf, Site}
use hueplusplus.Scenes.Create.{id_list}
use hueplusplus.Scenes.Stored.{parse_ids, get_light_ids}
use hueplusplus.Scenes.Scene.{Change, set_light_ids, body_of, change}

module _ (J : JsonLib) (laws : ObjectLaws J) (texts : TextLaws J) where
  parse_ids-map :
      (ids : List ℤ)
      → All IsInt ids
      → parse_ids J (map (λ id. J.of_text (to_string id)) ids) ≡ ok ids
  unfolding parse_ids
  parse_ids-map [] small = refl
  parse_ids-map (id ∷ ids) (here, later) =
      rw (texts.to_text-of_text (to_string id), stoi-to_string id here, parse_ids-map ids later)

  -- The body of setLightIds, for numbers of an int, is a state whose getLightIds gives the same
  -- numbers in the same order. The JSON library keeps the laws of objects, texts and arrays.
  pub get_light_ids-body_of :
      (ids : List ℤ) → All IsInt ids → get_light_ids J (body_of J (set_light_ids ids)) ≡ ok ids
  unfolding get_light_ids body_of id_list bytes_eq
  get_light_ids-body_of ids small =
      ap
        (λ o. (elim o [ none ↦ err Error.json_exception | some v ↦ ok v ]) >>= λ v.
          parse_ids J (J.elements v))
        (laws.find-set J.object (codes "lights") (codes "lights") (id_list J ids)
          (is_object-takes_keys J J.object laws.object_is))
      ∙ ap (parse_ids J) (elements-pushed J laws texts (map (λ id. J.of_text (to_string id)) ids))
      ∙ parse_ids-map ids small

module _ (J : JsonLib) (S : Site J) (C : CacheOf J) (id : Bytes) where
  -- A setter of a scene whose request is answered returns, but if the cache of the scene does not
  -- ask the bridge, the constant getters read the value that it held before.
  pub change-stale :
      (c : Change J) (cell : C.Cell) (line : Line) (v reply : J.Json)
      → C.Holds v cell
      → (request J S.network put S.username
          (codes "/scenes/" ++ (id ++ []))
          (body_of J c)
          S.min_delay
          line).0
        ≡ ok reply
      → ((change J S C id c (cell, line)).0 ≡ ok tt)
        × (C.peek (change J S C id c (cell, line)).1.0 ≡ ok v)
  unfolding change
  change-stale c cell line v reply held answered =
      let (after, read, holds) =
        C.read-Holds v cell
          (request J S.network put S.username (codes "/scenes/" ++ (id ++ [])) (body_of J c)
            S.min_delay line).1
          held in
      rw (answered, read) (refl, C.peek-Holds v after holds)
