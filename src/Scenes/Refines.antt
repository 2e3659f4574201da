-- ===== src/Scenes/Refines.antt =====
-- `LightStateBuilder` of src/Scene.cpp against its abstract view.
use hueplusplus.Base.{
  ◌≡◌, refl, ap, ◌∙◌, true, false, List, [], ◌∷◌, Bytes, codes, bytes_eq, Option, none, some,
  if◌then◌else◌, arith,
}
use hueplusplus.Json.{JsonLib, ObjectLaws, TextLaws, ScalarLaws, takes_keys, is_object-takes_keys}
use hueplusplus.Scenes.{
  Call, set_on, set_brightness, set_hue_sat, set_xy, set_ct, set_color_loop, set_transition_time,
  apply, build, create,
}
use hueplusplus.Scenes.Told.{Told, nothing_told, tell, tell_all, Reads, Shows, Shows-Reads}

module _ (J : JsonLib) (laws : ObjectLaws J) where
  now :
      {s : J.Json} {k : Bytes} {v : J.Json}
      → takes_keys J s ≡ true
      → bytes_eq k k ≡ true
      → J.find (J.set s k v) k ≡ some v
  now {s = s} {k = k} {v = v} takes same =
      laws.find-set s k k v takes ∙ ap (λ b. if b then some v else J.find s k) same

  kept :
      {s : J.Json} {k key : Bytes} {v : J.Json} {o : Option J.Json}
      → takes_keys J s ≡ true
      → bytes_eq k key ≡ false
      → J.find s key ≡ o
      → J.find (J.set s k v) key ≡ o
  kept {s = s} {k = k} {key = key} {v = v} takes other found =
      laws.find-set s k key v takes ∙ ap (λ b. if b then some v else J.find s key) other ∙ found

  apply-Shows :
      (c : Call J) (s : J.Json) (t : Told J)
      → takes_keys J s ≡ true
      → Shows J s t
      → (J.is_object (apply J c s) ≡ true) × Shows J (apply J c s) (tell c t)
  unfolding apply bytes_eq
  apply-Shows (set_on b) s t takes (on, bri, hue, sat, xy, ct, effect, time) = (
    laws.set_is s _ _ takes,
    (
      now takes refl,
      kept takes refl bri,
      kept takes refl hue,
      kept takes refl sat,
      kept takes refl xy,
      kept takes refl ct,
      kept takes refl effect,
      kept takes refl time,
    ),
  )
  apply-Shows (set_brightness b) s t takes (on, bri, hue, sat, xy, ct, effect, time) = (
    laws.set_is s _ _ takes,
    (
      kept takes refl on,
      now takes refl,
      kept takes refl hue,
      kept takes refl sat,
      kept takes refl xy,
      kept takes refl ct,
      kept takes refl effect,
      kept takes refl time,
    ),
  )
  apply-Shows (set_xy x y) s t takes (on, bri, hue, sat, xy, ct, effect, time) = (
    laws.set_is s _ _ takes,
    (
      kept takes refl on,
      kept takes refl bri,
      kept takes refl hue,
      kept takes refl sat,
      now takes refl,
      kept takes refl ct,
      kept takes refl effect,
      kept takes refl time,
    ),
  )
  apply-Shows (set_ct mired) s t takes (on, bri, hue, sat, xy, ct, effect, time) = (
    laws.set_is s _ _ takes,
    (
      kept takes refl on,
      kept takes refl bri,
      kept takes refl hue,
      kept takes refl sat,
      kept takes refl xy,
      now takes refl,
      kept takes refl effect,
      kept takes refl time,
    ),
  )
  apply-Shows (set_color_loop b) s t takes (on, bri, hue, sat, xy, ct, effect, time) = (
    laws.set_is s _ _ takes,
    (
      kept takes refl on,
      kept takes refl bri,
      kept takes refl hue,
      kept takes refl sat,
      kept takes refl xy,
      kept takes refl ct,
      now takes refl,
      kept takes refl time,
    ),
  )
  apply-Shows (set_transition_time time_told) s t takes (on, bri, hue, sat, xy, ct, effect, time) =
      (
        laws.set_is s _ _ takes,
        (
          kept takes refl on,
          kept takes refl bri,
          kept takes refl hue,
          kept takes refl sat,
          kept takes refl xy,
          kept takes refl ct,
          kept takes refl effect,
          now takes refl,
        ),
      )
  apply-Shows (set_hue_sat c) s t takes (on, bri, hue, sat, xy, ct, effect, time) =
      let then_takes =
        is_object-takes_keys J (J.set s (codes "hue") (J.of_int c.hue)) (laws.set_is s _ _ takes) in
      (
        laws.set_is _ _ _ then_takes,
        (
          kept then_takes refl (kept takes refl on),
          kept then_takes refl (kept takes refl bri),
          kept then_takes refl (now takes refl),
          now then_takes refl,
          kept then_takes refl (kept takes refl xy),
          kept then_takes refl (kept takes refl ct),
          kept then_takes refl (kept takes refl effect),
          kept then_takes refl (kept takes refl time),
        ),
      )

  build-Shows :
      (calls : List (Call J)) (s : J.Json) (t : Told J)
      → J.is_object s ≡ true
      → Shows J s t
      → (J.is_object (build J calls s) ≡ true) × Shows J (build J calls s) (tell_all calls t)
  unfolding build
  build-Shows [] s t object shows = (object, shows)
  build-Shows (c ∷ calls) s t object shows =
      let (object', shows') = apply-Shows c s t (is_object-takes_keys J s object) shows in
      build-Shows calls (apply J c s) (tell c t) object' shows'

module _ (J : JsonLib) (texts : TextLaws J) (scalars : ScalarLaws J) where
  -- Whatever setters a LightStateBuilder is given, one at least, in which order and how often: each
  -- getter and test of the state it creates but getXY gives the value of the last call of its
  -- setter, or else the default of the class. The JSON library keeps the laws of objects, texts and
  -- scalars.
  pub create-Reads :
      (laws : ObjectLaws J) (c : Call J) (calls : List (Call J))
      → Reads J (create J (c ∷ calls)) (tell_all (c ∷ calls) (nothing_told J))
  unfolding build
  create-Reads laws c calls =
      let (object, shows) =
        apply-Shows J laws c J.null (nothing_told J) null_takes
          (nil _, nil _, nil _, nil _, nil _, nil _, nil _, nil _) in
      let (object', shows') =
        build-Shows J laws calls (apply J c J.null) (tell c (nothing_told J)) object shows in
      Shows-Reads J texts scalars (create J (c ∷ calls)) (tell_all (c ∷ calls) (nothing_told J))
        object' shows'
    where
      nil : (k : Bytes) → J.find J.null k ≡ none
      nil k = laws.find-null k

      null_takes : takes_keys J J.null ≡ true
      null_takes = ground (arith, laws.null_is)
