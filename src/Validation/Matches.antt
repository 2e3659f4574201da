-- ===== src/Validation/Matches.antt =====
-- One entry of a success object and the request that it confirms.
use hueplusplus.Base.{
  ℕ, [], ◌∷◌, ◌++◌, ◌≡◌, ◌≢◌, refl, Bool, true, false, ◌||◌, ◌&&◌, Bytes, codes, bytes_eq, drop,
  length, Option, none, some, Result, ok, err, ◌>>=◌, if◌then◌else◌, ◌⊎◌, inl, inr, arith,
}
use hueplusplus.Base.Keys.{bytes_eq_iff}
use hueplusplus.Std.Text.{begins_with}
use hueplusplus.Json.{JsonLib, or_throw}
use hueplusplus.Validation.{Floats, float_equals, same_at, same_xy, confirms}
use hueplusplus.Validation.Near.{NearAt, NearXy}

begins_with-drop : (p text : Bytes) → begins_with p text ≡ true → text ≡ p ++ drop (length p) text
unfolding begins_with
begins_with-drop [] text h = refl
begins_with-drop (c ∷ p) [] h = cc
begins_with-drop (c ∷ p) (d ∷ text) h =
    ground (arith, h, begins_with-drop p text (ground (arith, h)))

module _ (J : JsonLib) (F : Floats J) where
  same_at-NearAt : (a b : J.Json) (i : ℕ) → same_at J F a b i ≡ ok true → NearAt J F a b i
  same_at-NearAt a b i h = by_numbers (J.float_at a i) (J.float_at b i) refl refl h
    where
      by_numbers :
          (o p : Option J.Float)
          → J.float_at a i ≡ o
          → J.float_at b i ≡ p
          → (or_throw o >>= λ x. or_throw p >>= λ y. ok (float_equals J F x y)) ≡ ok true
          → NearAt J F a b i
      by_numbers none p d e h = cc
      by_numbers (some x) none d e h = cc
      by_numbers (some x) (some y) d e h = (x, y, d, e, ground (arith, h))

  same_xy-NearXy : (a b : J.Json) → same_xy J F a b ≡ ok true → NearXy J F a b
  same_xy-NearXy a b h = by_first (same_at J F a b 0) refl h
    where
      by_first :
          (r : Result Bool)
          → same_at J F a b 0 ≡ r
          → (r >>= λ same. if same then same_at J F a b 1 else ok false) ≡ ok true
          → NearXy J F a b
      by_first (ok true) e h = (same_at-NearAt a b 0 e, same_at-NearAt a b 1 h)
      by_first (ok false) e h = cc
      by_first (err x) e h = cc

  -- The path is that of a key of the request, and the value is the one of the request, or the text "Updated.";
  -- or, for the key "xy", its two numbers are at most 0.0001 away from those of the request.
  abbrev pub Matches : Bytes → J.Json → Bytes × J.Json → Type 0
  Matches prefix request (path, v) =
      (key : Bytes) × (r : J.Json) × (path ≡ prefix ++ key)
      × (J.find request key ≡ some r)
      × (((key ≡ codes "xy") × NearXy J F r v)
          ⊎ ((key ≢ codes "xy")
              × ((J.equal r v ≡ true)
                  ⊎ ((J.is_text v ≡ true) × (J.equal v (J.of_text (codes "Updated.")) ≡ true)))))

  pub confirms-Matches :
      (prefix : Bytes) (request v : J.Json) (path : Bytes)
      → confirms J F prefix request (path, v) ≡ ok true
      → Matches prefix request (path, v)
  unfolding confirms
  confirms-Matches prefix request v path h = by_begin (begins_with prefix path) refl h
    where
      key : Bytes
      key = drop (length prefix) path

      by_key :
          (r : J.Json) (b : Bool)
          → bytes_eq key (codes "xy") ≡ b
          → path ≡ prefix ++ key
          → J.find request key ≡ some r
          → (if b
              then same_xy J F r v
              else ok (J.equal r v || (J.is_text v && J.equal v (J.of_text (codes "Updated.")))))
            ≡ ok true
          → Matches prefix request (path, v)
      by_key r true e split found h =
          (key, r, split, found, inl ((bytes_eq_iff key (codes "xy")).0 e, same_xy-NearXy r v h))
      by_key r false e split found h = (
        key,
        r,
        split,
        found,
        inr (λ same. ground (arith, e, (bytes_eq_iff key (codes "xy")).1 same), ground (arith, h)),
      )

      by_find :
          (o : Option J.Json)
          → J.find request key ≡ o
          → path ≡ prefix ++ key
          → (elim o [
            | none ↦ ok false
            | some r ↦
                if bytes_eq key (codes "xy")
                then same_xy J F r v
                else ok (J.equal r v || (J.is_text v && J.equal v (J.of_text (codes "Updated."))))
          ])
            ≡ ok true
          → Matches prefix request (path, v)
      by_find none e split h = cc
      by_find (some r) e split h = by_key r (bytes_eq key (codes "xy")) refl split e h

      by_begin :
          (b : Bool)
          → begins_with prefix path ≡ b
          → (if b
              then elim (J.find request key) [
                | none ↦ ok false
                | some r ↦
                    if bytes_eq key (codes "xy")
                    then same_xy J F r v
                    else ok
                        (J.equal r v || (J.is_text v && J.equal v (J.of_text (codes "Updated."))))
              ]
              else ok false)
            ≡ ok true
          → Matches prefix request (path, v)
      by_begin true e h = by_find (J.find request key) refl (begins_with-drop prefix path e) h
      by_begin false e h = cc
