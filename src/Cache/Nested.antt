-- ===== src/Cache/Nested.antt =====
-- A cache on a base that has a base itself, as a resource of a list with shared state is: `getValue` looks
-- for its entry in the `value` of its base, while the base keeps its value as an entry of its own base.
use hueplusplus.Base.{
  List, ◌∷◌, ◌≡◌, ◌⊎◌, inl, inr, refl, ap, ◌∙◌, Bool, true, false, none, Result, ok, err, Error,
  if◌then◌else◌, ◌>>=◌,
}
use hueplusplus.Json.{JsonLib}
use hueplusplus.Cache.{
  Surroundings, World, Info, Outcome, caught_up, is_due, store, store_in, answered, fetch, refresh,
  read, then_read, above, get_value,
}

module _ (J : JsonLib) (S : Surroundings J) where
  -- A call that throws.
  abbrev pub Throws {ℓ} : {A : Type ℓ} → Result A → Type ℓ
  Throws {A = A} r = (e : Error) × (r ≡ err e)

  -- The refresh of a cache with a base writes to its base, and not to its own value or path.
  abbrev Keeps : Info J → Outcome J (Unit {0}) → Type 0
  Keeps i o = (o.top.value ≡ i.value) × (o.top.path ≡ i.path)

  store_in-Keeps :
      (i b : Info J) (bs : List (Info J)) (w : World) (r : Result J.Json)
      → Keeps i (store_in J S i b bs w r)
  unfolding store_in
  store_in-Keeps i b bs w (ok v) = (refl, refl)
  store_in-Keeps i b bs w (err e) = (refl, refl)

  answered-Keeps :
      (i b : Info J) (bs : List (Info J)) (w : World) (r : Result J.Json)
      → Keeps i (answered J S i (b ∷ bs) w r)
  unfolding answered store
  answered-Keeps i b bs w (ok v) = store_in-Keeps _ b bs _ _
  answered-Keeps i b bs w (err e) = (refl, refl)

  refresh-Keeps :
      (i b : Info J) (bs : List (Info J)) (w : World) → Keeps i (refresh J S i (b ∷ bs) w)
  unfolding refresh fetch
  refresh-Keeps i b bs w = by_due (is_due J S (caught_up J b bs) w)
    where
      by_due :
          (d : Bool × World)
          → Keeps i (
              if d.0
              then above J S i (refresh J S (caught_up J b bs) bs d.1)
              else fetch J S i (caught_up J b bs ∷ bs) d.1)
      by_due (true, w') = (refl, refl)
      by_due (false, w') = answered-Keeps i (caught_up J b bs) bs _ _

  missing :
      (i b : Info J) (bs : List (Info J))
      → J.find b.value i.path ≡ none
      → Throws (read J S i (b ∷ bs))
  missing i b bs h = (Error.hue_exception, rw (h, read))

  after_refresh :
      (i : Info J) (o : Outcome J (Unit {0}))
      → J.find o.top.value i.path ≡ none
      → Throws (then_read J S (above J S i o)).result
  after_refresh i o h = by_result o.result
    where
      by_result : (r : Result (Unit {0})) → Throws (r >>= λ _. read J S i (o.top ∷ o.bases))
      by_result (ok _) = missing i o.top o.bases h
      by_result (err e) = (e, refl)

  -- On a base that lies on another base and has no such entry in its own value, getValue throws
  -- whenever the cache is not due for a refresh, and whenever it is due and its base is due too.
  pub get_value_nested :
      (i b c : Info J) (bs : List (Info J)) (w : World)
      → J.find b.value i.path ≡ none
      → ((is_due J S (caught_up J i (b ∷ c ∷ bs)) w).0 ≡ false)
        ⊎ ((is_due J S (caught_up J b (c ∷ bs)) (is_due J S (caught_up J i (b ∷ c ∷ bs)) w).1).0
            ≡ true)
      → Throws (get_value J S i (b ∷ c ∷ bs) w).result
  unfolding get_value
  get_value_nested i b c bs w h which = by_due (is_due J S top w) which
    where
      top : Info J
      top = caught_up J i (b ∷ c ∷ bs)

      base : Info J
      base = caught_up J b (c ∷ bs)

      both_due :
          (w' : World) (d : Bool × World)
          → d.0 ≡ true
          → Throws
              (then_read J S (
                if d.0
                then above J S top (refresh J S base (c ∷ bs) d.1)
                else fetch J S top (base ∷ c ∷ bs) d.1)).result
      both_due w' (true, w'') e =
          after_refresh top (refresh J S base (c ∷ bs) w'')
            (ap (λ v. J.find v i.path) (refresh-Keeps base c bs w'').0 ∙ h)
      both_due w' (false, w'') e = absurd (cc)

      by_due :
          (d : Bool × World)
          → (d.0 ≡ false) ⊎ ((is_due J S base d.1).0 ≡ true)
          → Throws
              (then_read J S (
                if d.0
                then refresh J S top (b ∷ c ∷ bs) d.1
                else record { result = ok tt; top = top; bases = b ∷ c ∷ bs; world = d.1 })).result
      by_due (false, w') e = missing top b (c ∷ bs) h
      by_due (true, w') (inl e) = absurd (cc)
      by_due (true, w') (inr e) = unfold refresh in both_due w' (is_due J S base w') e
