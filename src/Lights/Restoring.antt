-- ===== src/Lights/Restoring.antt =====
-- The transactions of an alert by hue and saturation on a light that shows an xy colour: the change, the
-- alert, and the one that changes back.
use hueplusplus.Base.{
  ℕ, ◌<◌, List, [], ◌∷◌, ◌≡◌, refl, ap, subst, ◌∙◌, true, false, ◌||◌, Bytes, codes, bytes_eq, none,
  some, ok, arith, Bool-cases, ◌⊎◌, inl, inr,
}
use hueplusplus.Base.Int.{pos}
use hueplusplus.Base.Keys.{bytes_eq_iff}
use hueplusplus.Json.{JsonLib, ObjectLaws, TextLaws, ScalarLaws, takes_keys, is_object-takes_keys}
use hueplusplus.Validation.{Floats, float_equals}
use hueplusplus.Settings.{
  Setting, apply, clamp, set_color_hue_saturation, set_color_xy_brightness, set_on, set_transition,
  alert,
}
use hueplusplus.Settings.Range.{requested}
use hueplusplus.Transaction.{with_on, is_redundant}
use hueplusplus.Transaction.Keeps.{Keeps}
use hueplusplus.Transaction.Silent.{Needless}
use hueplusplus.Lights.Color.{HueSaturation}
use hueplusplus.Lights.Steps.{ShowsXy}

module _ (J : JsonLib) (F : Floats J) where
  -- A coordinate above 0, up to 1, that differs from itself by no more than 0.0001.
  abbrev pub IsCoordinate : J.Float → Type 0
  IsCoordinate x = (F.lt F.one x ≡ false) × (F.lt F.zero x ≡ true) × (float_equals J F x x ≡ true)

  -- The transaction that changes back.
  abbrev pub back : J.Float → J.Float → ℕ → List (Setting J)
  back x y b =
      set_color_xy_brightness x y (F.over_254 (pos b)) ∷ set_on true ∷ set_transition 1 ∷ []

  module _ (laws : ObjectLaws J) where
    set_lacks :
        (request : J.Json) (k key : Bytes) (v : J.Json)
        → takes_keys J request ≡ true
        → bytes_eq k key ≡ false
        → J.find request key ≡ none
        → J.find (J.set request k v) key ≡ none
    set_lacks request k key v takes other gone = ground (arith, laws.find-set request k key v takes)

    module _ (state : J.Json) where
      abbrev AllNeedless : J.Json → Type 0
      AllNeedless request =
          (J.is_object request ≡ true)
          × ((key : Bytes) (v : J.Json) → J.find request key ≡ some v → Needless J F state (key, v))

      set-Needless :
          (request : J.Json) (k : Bytes) (v : J.Json)
          → Needless J F state (k, v)
          → AllNeedless request
          → AllNeedless (J.set request k v)
      set-Needless request k v here (object, all) = (
        laws.set_is request k v takes,
        λ key w found. by_key key w found (Bool-cases (bytes_eq k key)),
      )
        where
          takes : takes_keys J request ≡ true
          takes = ap (λ b. b || J.is_null request) object

          by_key :
              (key : Bytes) (w : J.Json)
              → J.find (J.set request k v) key ≡ some w
              → (bytes_eq k key ≡ true) ⊎ (bytes_eq k key ≡ false)
              → Needless J F state (key, w)
          by_key key w found (inl same) =
              subst (λ j. Needless J F state (j, w)) ((bytes_eq_iff k key).0 same)
                (subst (λ x. Needless J F state (k, x))
                  (ground (arith, laws.find-set request k key v takes)) here)
          by_key key w found (inr other) =
              all key w (ground (arith, laws.find-set request k key v takes))

    -- The keys that the first two transactions of the alert do not write stay as they are.
    pub ShowsXy-Keeps :
        (x y : J.Float) (b : ℕ) (state with after : J.Json)
        → ShowsXy J x y b state
        → Keeps J F state with after
        → J.find with (codes "colormode") ≡ none
        → J.find with (codes "xy") ≡ none
        → J.find with (codes "bri") ≡ none
        → J.find with (codes "on") ≡ none
        → ShowsXy J x y b after
    ShowsXy-Keeps x y b state with after (object, mode, xy, bri, on) (after_object, kept) m p q r =
        (after_object, kept _ m ∙ mode, kept _ p ∙ xy, kept _ q ∙ bri, kept _ r ∙ on)

    set_object :
        (request v : J.Json) (k : Bytes)
        → J.is_object request ≡ true
        → J.is_object (J.set request k v) ≡ true
    set_object request v k object = laws.set_is request k v (is_object-takes_keys J request object)

    -- The transactions before it write none of the keys that it needs.
    abbrev pub Lacks : J.Json → Type 0
    Lacks request =
        (J.is_object request ≡ true)
        × (J.find request (codes "colormode") ≡ none)
        × (J.find request (codes "xy") ≡ none)
        × (J.find request (codes "bri") ≡ none)
        × (J.find request (codes "on") ≡ none)

    object-Lacks : Lacks J.object
    object-Lacks = (
      laws.object_is,
      laws.find-object _,
      laws.find-object _,
      laws.find-object _,
      laws.find-object _,
    )

    set-Lacks :
        (request v : J.Json) (k : Bytes)
        → bytes_eq k (codes "colormode") ≡ false
        → bytes_eq k (codes "xy") ≡ false
        → bytes_eq k (codes "bri") ≡ false
        → bytes_eq k (codes "on") ≡ false
        → Lacks request
        → Lacks (J.set request k v)
    set-Lacks request v k a b c d (object, mode, xy, bri, on) =
        let takes = is_object-takes_keys J request object in
        (
          set_object request v k object,
          set_lacks request k _ v takes a mode,
          set_lacks request k _ v takes b xy,
          set_lacks request k _ v takes c bri,
          set_lacks request k _ v takes d on,
        )

    abbrev pub change : HueSaturation → List (Setting J)
    change c = set_color_hue_saturation c.hue c.saturation ∷ set_transition 1 ∷ []

    pub change-Lacks : (c : HueSaturation) → Lacks (requested J F (change c) J.object)
    unfolding apply bytes_eq
    change-Lacks c = set-Lacks _ _ (codes "transitiontime") refl refl refl refl (
        set-Lacks _ _ (codes "sat") refl refl refl refl
          (set-Lacks _ _ (codes "hue") refl refl refl refl object-Lacks))

    pub alert-Lacks : Lacks (requested J F (alert ∷ []) J.object)
    unfolding apply bytes_eq
    alert-Lacks = set-Lacks _ _ (codes "alert") refl refl refl refl object-Lacks

    module _ (texts : TextLaws J) (scalars : ScalarLaws J) (x y : J.Float) (b : ℕ) (state : J.Json)
        (shows : ShowsXy J x y b state) where
      -- Without a brightness in the request, a light that is on stays on.
      pub with_on-kept :
          (request : J.Json)
          → J.is_object request ≡ true
          → J.find request (codes "on") ≡ none
          → J.find request (codes "bri") ≡ none
          → with_on J F state request ≡ ok request
      unfolding with_on
      with_on-kept request object on bri =
          ground (arith, on, shows.0, shows.4, scalars.to_bool-of_bool true, object, bri)

      bri-Needless : Needless J F state (codes "bri", J.of_int (pos b))
      unfolding is_redundant bytes_eq
      bri-Needless = inr (rw (shows.3, scalars.equal-of_int (pos b)))

      on-Needless : Needless J F state (codes "on", J.of_bool true)
      unfolding is_redundant bytes_eq
      on-Needless = inr (rw (shows.4, scalars.equal-of_bool true))

      xy-Needless :
          IsCoordinate x → IsCoordinate y → Needless J F state (codes "xy", J.of_floats x y)
      unfolding is_redundant bytes_eq
      xy-Needless cx cy = inr (
          rw (
            shows.2,
            shows.0,
            shows.1,
            texts.to_text-of_text (codes "xy"),
            scalars.floats_are_array x y,
            scalars.first-of_floats x y,
            cx.2,
            scalars.second-of_floats x y,
            cy.2,
          ))

      within : b < 255 → pos b ≡ clamp J F (pos 0) (pos 254) (pos b)
      within small = ground arith

      pub back-Needless :
          IsCoordinate x
          → IsCoordinate y
          → F.round_254 (F.over_254 (pos b)) ≡ pos b
          → b < 255
          → AllNeedless state (requested J F (back x y b) J.object)
      unfolding apply bytes_eq
      back-Needless cx cy exact small = set-Needless state _ (codes "transitiontime") _ (inl refl) (
          set-Needless state _ (codes "on") _ on-Needless (
            set-Needless state _ (codes "xy") _ (rw (cx.0, cx.1, cy.0, cy.1) (xy-Needless cx cy)) (
              set-Needless state _ (codes "bri") _
                (rw exact (
                  subst (λ z. Needless J F state (codes "bri", J.of_int z)) (within small)
                    bri-Needless))
                (laws.object_is, λ key v found. ground (arith, laws.find-object key)))))

      found_on :
          (request : J.Json)
          → J.is_object request ≡ true
          → J.find
              (J.set
                (J.set request (codes "on") (J.of_bool true))
                (codes "transitiontime")
                (J.of_int (pos 1)))
              (codes "on")
            ≡ some (J.of_bool true)
      unfolding bytes_eq
      found_on request object =
          laws.find-set _ (codes "transitiontime") (codes "on") _ (
            is_object-takes_keys J _
              (laws.set_is request _ _ (is_object-takes_keys J request object)))
          ∙ laws.find-set request (codes "on") (codes "on") _
              (is_object-takes_keys J request object)

      with_on-has :
          (request v : J.Json)
          → J.find request (codes "on") ≡ some v
          → with_on J F state request ≡ ok request
      unfolding with_on
      with_on-has request v found = ground (arith, found)

      pub back-with_on :
          with_on J F state (requested J F (back x y b) J.object)
          ≡ ok (requested J F (back x y b) J.object)
      unfolding apply
      back-with_on =
          with_on-has _ (J.of_bool true)
            (found_on _ (set_object _ _ _ (set_object _ _ _ laws.object_is)))
