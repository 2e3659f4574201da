-- ===== src/Cache/Requests.antt =====
-- How many requests a cache sends, and for which part of the state.
use hueplusplus.Base.{
  List, [], ◌∷◌, ◌++◌, ◌≡◌, ◌⊎◌, inl, inr, refl, ap, ◌∙◌, if◌then◌else◌, arith, Bool, true, false,
  Bytes, Result, ok, err,
}
use hueplusplus.Json.{JsonLib, assign}
use hueplusplus.Cache.{
  Surroundings, World, Info, Outcome, request_path, caught_up, is_due, store, store_in, answered,
  above, then_read, fetch, refresh, get_value,
}

module _ {J : JsonLib} where
  -- The path is that of the cache, or of one of its bases.
  abbrev pub Concerns : Bytes → Info J → List (Info J) → Type 0
  Concerns p i [] = p ≡ request_path J i []
  Concerns p i (b ∷ bs) = (p ≡ request_path J i (b ∷ bs)) ⊎ Concerns p b bs

  Concerns-own : (i : Info J) (bs : List (Info J)) → Concerns (request_path J i bs) i bs
  Concerns-own i [] = refl
  Concerns-own i (b ∷ bs) = inl refl

  path_caught_up :
      (i : Info J) (bs : List (Info J)) → request_path J (caught_up J i bs) bs ≡ request_path J i bs
  unfolding request_path
  path_caught_up i [] = refl
  path_caught_up i (b ∷ bs) = refl

  pub path_over :
      (i b : Info J) (bs : List (Info J))
      → request_path J i (caught_up J b bs ∷ bs) ≡ request_path J i (b ∷ bs)
  unfolding request_path
  path_over i b bs = ap (λ p. (p ++ b'/' ∷ []) ++ i.path) (path_caught_up b bs)

  -- Catching up with a base changes no path.
  Concerns-caught_up :
      (p : Bytes) (i : Info J) (bs : List (Info J))
      → Concerns p (caught_up J i bs) bs
      → Concerns p i bs
  unfolding request_path
  Concerns-caught_up p i [] h = h
  Concerns-caught_up p i (b ∷ bs) h = h

module _ (J : JsonLib) (S : Surroundings J) where
  store-sent :
      (i : Info J) (bs : List (Info J)) (w : World) (v : J.Json) → (store J S i bs w v).world ≡ w
  unfolding store
  store-sent i [] w v = refl
  store-sent i (b ∷ bs) w v = both (assign J b.value i.path v)
    where
      both : (r : Result J.Json) → (store_in J S i b bs w r).world ≡ w
      both (ok _) = unfold store_in in refl
      both (err _) = unfold store_in in refl

  answered-sent :
      (i : Info J) (bs : List (Info J)) (w : World) (r : Result J.Json)
      → (answered J S i bs w r).world.sent ≡ w.sent
  unfolding answered
  answered-sent i bs w (err e) = refl
  answered-sent i bs w (ok v) = ap (λ (u : World). u.sent) (store-sent _ bs _ v)

  fetch-sent :
      (i : Info J) (bs : List (Info J)) (w : World)
      → (fetch J S i bs w).world.sent ≡ request_path J i bs ∷ w.sent
  unfolding fetch
  fetch-sent i bs w = answered-sent i bs _ _

  pub is_due-sent : (i : Info J) (w : World) → (is_due J S i w).1.sent ≡ w.sent
  unfolding is_due
  is_due-sent i w = ground arith

  -- `refresh` sends exactly one request, for the cache itself or for one of its bases.
  pub refresh-sent :
      (i : Info J) (bs : List (Info J)) (w : World)
      → (p : Bytes) × ((refresh J S i bs w).world.sent ≡ p ∷ w.sent) × Concerns p i bs
  unfolding refresh
  refresh-sent i [] w = (request_path J i [], fetch-sent i [] w, refl)
  refresh-sent i (b ∷ bs) w =
      choose (is_due J S base w) (is_due-sent base w) (refresh-sent base bs (is_due J S base w).1)
    where
      base : Info J
      base = caught_up J b bs

      choose :
          (d : Bool × World)
          → d.1.sent ≡ w.sent
          → (p : Bytes) × ((refresh J S base bs d.1).world.sent ≡ p ∷ d.1.sent) × Concerns p base bs
          → (p : Bytes) × ((if d.0
                then above J S i (refresh J S base bs d.1)
                else fetch J S i (base ∷ bs) d.1).world.sent
              ≡ p ∷ w.sent)
            × Concerns p i (b ∷ bs)
      choose (true, w') e (p, sent, on) =
          (p, sent ∙ ap (λ s. p ∷ s) e, inr (Concerns-caught_up p b bs on))
      choose (false, w') e _ = (
        request_path J i (base ∷ bs),
        fetch-sent i (base ∷ bs) w' ∙ ap (λ s. request_path J i (base ∷ bs) ∷ s) e,
        inl (path_over i b bs),
      )

  -- A call of getValue sends no request if the cache, with its time of refresh caught up with that
  -- of its base, is not due, and else exactly one, to the path of the cache itself or of one of its
  -- bases.
  pub get_value-sent :
      (i : Info J) (bs : List (Info J)) (w : World)
      → ((is_due J S (caught_up J i bs) w).0 ≡ false → (get_value J S i bs w).world.sent ≡ w.sent)
        × ((is_due J S (caught_up J i bs) w).0 ≡ true
            → (p : Bytes) × ((get_value J S i bs w).world.sent ≡ p ∷ w.sent) × Concerns p i bs)
  unfolding get_value
  get_value-sent i bs w =
      choose (is_due J S top w) (is_due-sent top w) (refresh-sent top bs (is_due J S top w).1)
    where
      top : Info J
      top = caught_up J i bs

      same : World → Outcome J (Unit {0})
      same w' = record { result = ok tt; top = top; bases = bs; world = w' }

      choose :
          (d : Bool × World)
          → d.1.sent ≡ w.sent
          → (p : Bytes) × ((refresh J S top bs d.1).world.sent ≡ p ∷ d.1.sent) × Concerns p top bs
          → (d.0 ≡ false
              → (then_read J S (if d.0 then refresh J S top bs d.1 else same d.1)).world.sent
                ≡ w.sent)
            × (d.0 ≡ true
                → (p : Bytes) × ((then_read J S
                      (if d.0 then refresh J S top bs d.1 else same d.1)).world.sent
                    ≡ p ∷ w.sent)
                  × Concerns p i bs)
      choose (true, w') e (p, sent, on) =
          (λ h. cc, λ _. (p, sent ∙ ap (λ s. p ∷ s) e, Concerns-caught_up p i bs on))
      choose (false, w') e _ = (λ _. e, λ h. cc)
