-- ===== src/Groups/Ready.antt =====
-- The requests of a group before and after `commit` turns the light on or off.
use hueplusplus.Base.{
  ℕ, ◌≡◌, refl, ap, sym, subst, Bool, true, false, not, ◌&&◌, Bytes, codes, bytes_eq, none, some,
  if◌then◌else◌, if_both, Result, ok, ◌>>=◌, ◌==◌, arith, ◌⊎◌, inl, inr,
}
use hueplusplus.Base.Int.{ℤ, pos, eqb_ℤ}
use hueplusplus.Json.{
  JsonLib, ObjectLaws, ScalarLaws, has, value_or, takes_keys, is_object-takes_keys,
}
use hueplusplus.Validation.{Floats}
use hueplusplus.Settings.{apply, set_transition}
use hueplusplus.Commands.{request}
use hueplusplus.Transaction.{with_on, brightness, must_turn_on, must_turn_off, changes}

module _ (J : JsonLib) (F : Floats J) where
  module _ (laws : ObjectLaws J) (scalars : ScalarLaws J) where
    -- The brightness of a request can be read.
    abbrev pub HasBrightness : J.Json → Type 0
    HasBrightness request =
        (J.find request (codes "bri") ≡ none)
        ⊎ ((z : ℤ) × (J.find request (codes "bri") ≡ some (J.of_int z)))

    brightness_ok :
        (request : J.Json)
        → J.is_object request ≡ true
        → HasBrightness request
        → (z : ℤ) × (brightness J F request ≡ ok z)
    brightness_ok request object (inl gone) = (pos 254, rw (object, gone))
    brightness_ok request object (inr (z, found)) = (z, rw (object, found, scalars.to_int-of_int z))

    -- The request with its key, also after `with_on`.
    abbrev pub Switched : Bytes → J.Json → Result J.Json → Type 0
    Switched key v r =
        (with : J.Json) × (r ≡ ok with) × (J.is_object with ≡ true) × (J.find with key ≡ some v)

    turn_on_ok :
        (request : J.Json) (z : ℤ)
        → brightness J F request ≡ ok z
        → (b : Bool) × (must_turn_on J F J.object request ≡ ok b)
    turn_on_ok request z bri = (
      not (eqb_ℤ z (pos 0)) && changes J F request,
      rw (laws.object_is, laws.find-object (codes "on"))
          (ap (λ r. r >>= λ b. ok (not (eqb_ℤ b (pos 0)) && changes J F request)) bri),
    )

    turn_off_ok :
        (request : J.Json) (z : ℤ)
        → brightness J F request ≡ ok z
        → (b : Bool) × (must_turn_off J F J.object request ≡ ok b)
    turn_off_ok request z bri =
        subst
          (λ r.
            (b : Bool) × ((r >>= λ bri.
            if eqb_ℤ bri (pos 0) then value_or J J.to_bool J.object (codes "on") true else ok false)
              ≡ ok b))
          (sym bri)
          (if_both (λ r. (b : Bool) × (r ≡ ok b)) (eqb_ℤ z (pos 0))
            (true, rw (laws.object_is, laws.find-object (codes "on"))) (false, refl))

    set_on-Switched :
        (request v : J.Json) (key : Bytes) (b : Bool)
        → J.is_object request ≡ true
        → J.find request key ≡ some v
        → bytes_eq (codes "on") key ≡ false
        → Switched key v (ok (J.set request (codes "on") (J.of_bool b)))
    set_on-Switched request v key b object found other =
        let takes = is_object-takes_keys J request object in
        (
          J.set request (codes "on") (J.of_bool b),
          refl,
          laws.set_is request (codes "on") (J.of_bool b) takes,
          ground (arith, laws.find-set request (codes "on") key (J.of_bool b) takes, other, found),
        )

    pub with_on-Switched :
        (request v : J.Json) (key : Bytes)
        → J.is_object request ≡ true
        → HasBrightness request
        → J.find request key ≡ some v
        → bytes_eq (codes "on") key ≡ false
        → Switched key v (with_on J F J.object request)
    unfolding with_on
    with_on-Switched request v key object readable found other =
        let (z, bri) = brightness_ok request object readable in
        let (on, turns_on) = turn_on_ok request z bri in
        let (off, turns_off) = turn_off_ok request z bri in
        if_both (Switched key v) (has J request (codes "on")) (request, refl, object, found)
          (subst
            (λ r. Switched key v (
              r >>= λ turn_on.
              if turn_on
              then ok (J.set request (codes "on") (J.of_bool true))
              else must_turn_off J F J.object request >>= λ turn_off.
                  ok (if turn_off then J.set request (codes "on") (J.of_bool false) else request)))
            (sym turns_on)
            (if_both (Switched key v) on (set_on-Switched request v key true object found other) (
              subst
                (λ r. Switched key v (
                  r >>= λ turn_off.
                  ok (if turn_off then J.set request (codes "on") (J.of_bool false) else request)))
                (sym turns_off)
                (if_both (λ j. Switched key v (ok j)) off
                  (set_on-Switched request v key false object found other)
                  (request, refl, object, found)))))

    -- A request with a brightness that can be read, and a value for the key.
    abbrev pub Ready : Bytes → J.Json → J.Json → Type 0
    Ready key v r = (J.is_object r ≡ true) × HasBrightness r × (J.find r key ≡ some v)

    -- Another key in the request.
    pub other-Ready :
        (key : Bytes) (v r : J.Json) (k : Bytes) (w : J.Json)
        → bytes_eq k key ≡ false
        → bytes_eq k (codes "bri") ≡ false
        → Ready key v r
        → Ready key v (J.set r k w)
    other-Ready key v r k w other bri (object, readable, found) = (
      laws.set_is r k w takes,
      by_brightness readable,
      ground (arith, laws.find-set r k key w takes, other, found),
    )
      where
        takes : takes_keys J r ≡ true
        takes = is_object-takes_keys J r object

        by_brightness : HasBrightness r → HasBrightness (J.set r k w)
        by_brightness (inl gone) =
            inl (ground (arith, laws.find-set r k (codes "bri") w takes, bri, gone))
        by_brightness (inr (z, here)) =
            inr (z, ground (arith, laws.find-set r k (codes "bri") w takes, bri, here))

    pub transition-Ready :
        (key : Bytes) (v r : J.Json) (t : ℕ)
        → bytes_eq (codes "transitiontime") key ≡ false
        → Ready key v r
        → Ready key v (apply J F (set_transition t) r)
    unfolding apply bytes_eq
    transition-Ready key v r t other ready =
        if_both (Ready key v) (t == 4) ready
          (other-Ready key v r (codes "transitiontime") (J.of_int (pos t)) other refl ready)

    object_takes : takes_keys J J.object ≡ true
    object_takes = is_object-takes_keys J J.object laws.object_is

    -- One key in an empty request, which is not the brightness or is a number.
    pub set-Ready :
        (key : Bytes) (v : J.Json)
        → HasBrightness (J.set J.object key v)
        → bytes_eq key key ≡ true
        → Ready key v (J.set J.object key v)
    set-Ready key v readable same = (
      laws.set_is J.object key v object_takes,
      readable,
      ground (arith, laws.find-set J.object key key v object_takes, same),
    )

    pub without_brightness :
        (key : Bytes) (v : J.Json)
        → bytes_eq key (codes "bri") ≡ false
        → HasBrightness (J.set J.object key v)
    without_brightness key v other = inl (
        ground (
          arith,
          laws.find-set J.object key (codes "bri") v object_takes,
          laws.find-object (codes "bri"),
          other,
        ))

    -- A request that has "on" stays as it is.
    pub on-Switched :
        (v r : J.Json) → Ready (codes "on") v r → Switched (codes "on") v (with_on J F J.object r)
    unfolding with_on
    on-Switched v r (object, readable, found) = (r, ground (arith, found), object, found)

    pub brightness-Ready :
        (z : ℤ) → Ready (codes "bri") (J.of_int z) (J.set J.object (codes "bri") (J.of_int z))
    unfolding bytes_eq
    brightness-Ready z =
        set-Ready (codes "bri") (J.of_int z)
          (inr (z, laws.find-set J.object (codes "bri") (codes "bri") (J.of_int z) object_takes))
          refl
