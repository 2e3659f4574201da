-- ===== src/Cache/Reads.antt =====
-- What `getValue` returns, and what a refresh writes.
use hueplusplus.Base.{
  suc, List, [], ◌∷◌, ◌≡◌, refl, ◌∙◌, arith, Bool, true, false, not, ◌||◌, length, Result, ok, err,
  if◌then◌else◌,
}
use hueplusplus.Base.Int.{ℤ, pos, ◌≤ℤ◌, ◌+ℤ◌, ◌-ℤ◌, ltb_ℤ, eqb_ℤ, +ℤ_parts, -ℤ_parts}
use hueplusplus.Json.{JsonLib}
use hueplusplus.Cache.{
  Surroundings, World, Info, duration_max, request_path, caught_up, is_due, store, answered, fetch,
  refresh, read, then_read, get_value,
}

-- The time of the last refresh is known, and the next one is due at a time that does not overflow.
pub record IsTimed {J : JsonLib} (i : Info J) : Type 0 where
  pub filled : pos 1 ≤ℤ i.last_refresh
  pub positive : pos 0 ≤ℤ i.refresh_duration
  pub fits : i.last_refresh +ℤ i.refresh_duration +ℤ pos 1 ≤ℤ duration_max

known :
    (last refresh : ℤ)
    → pos 1 ≤ℤ last
    → pos 0 ≤ℤ refresh
    → (eqb_ℤ last (pos 0) || ltb_ℤ refresh (pos 0)) ≡ false
known last refresh h k = ground arith

no_overflow :
    (last refresh : ℤ)
    → last +ℤ refresh +ℤ pos 1 ≤ℤ duration_max
    → ltb_ℤ last (duration_max -ℤ refresh) ≡ true
no_overflow last refresh h = ground (
  arith,
  +ℤ_parts last refresh,
  +ℤ_parts (last +ℤ refresh) (pos 1),
  -ℤ_parts duration_max refresh,
)

no_room : (last : ℤ) → pos 1 ≤ℤ last → ltb_ℤ last (duration_max -ℤ duration_max) ≡ false
no_room last h = ground (arith, -ℤ_parts duration_max duration_max)

module _ (J : JsonLib) (S : Surroundings J) where
  -- The answer of the bridge to the next request for this cache.
  abbrev pub next_answer : Info J → World → Result J.Json
  next_answer i w = S.answer (length w.sent) i.path

  is_due_timed :
      (i : Info J) (w : World)
      → IsTimed i
      → is_due J S i w ≡ (
        not (ltb_ℤ (S.now w.readings) (i.last_refresh +ℤ i.refresh_duration)),
        record w { readings = suc w.readings },
      )
  unfolding is_due
  is_due_timed i w t = rw (
    known i.last_refresh i.refresh_duration t.filled t.positive,
    no_overflow i.last_refresh i.refresh_duration t.fits,
  )

  answered_own :
      (i : Info J) (w : World) (r : Result J.Json)
      → (then_read J S (answered J S i [] w r)).result ≡ r
  unfolding answered store
  answered_own i w (ok v) = refl
  answered_own i w (err e) = refl

  -- An own cache that holds a value, with a refresh duration that is not negative and does not make
  -- the time of the next refresh overflow: until the duration is over, getValue returns the value,
  -- and from then on it returns the bridge's answer or passes its exception on.
  pub get_value_own :
      (i : Info J) (w : World)
      → IsTimed i
      → (get_value J S i [] w).result ≡ (
          if ltb_ℤ (S.now w.readings) (i.last_refresh +ℤ i.refresh_duration)
          then ok i.value
          else next_answer i w)
  unfolding get_value refresh fetch request_path
  get_value_own i w t = choose (is_due J S i w) (is_due_timed i w t)
    where
      early : Bool
      early = ltb_ℤ (S.now w.readings) (i.last_refresh +ℤ i.refresh_duration)

      w₁ : World
      w₁ = record w { readings = suc w.readings }

      by_test :
          (b : Bool)
          → (then_read J S (
              if not b
              then refresh J S i [] w₁
              else record { result = ok tt; top = i; bases = []; world = w₁ })).result
            ≡ (if b then ok i.value else next_answer i w)
      by_test true = refl
      by_test false = answered_own i _ (next_answer i w)

      choose :
          (d : Bool × World)
          → d ≡ (not early, w₁)
          → (then_read J S (
              if d.0
              then refresh J S i [] d.1
              else record { result = ok tt; top = i; bases = []; world = d.1 })).result
            ≡ (if early then ok i.value else next_answer i w)
      choose d e = rw e (by_test early)

  never :
      (i : Info J) (w : World)
      → i.refresh_duration ≡ duration_max
      → pos 1 ≤ℤ i.last_refresh
      → is_due J S i w ≡ (false, w)
  unfolding is_due
  never i w e filled =
      rw (e, known i.last_refresh duration_max filled (omega arith), no_room i.last_refresh filled)

  -- A cache with the refresh duration c_refreshNever that is filled, or lies on a filled base,
  -- never refreshes: getValue reads what is there, and neither the clock is read nor a request
  -- sent.
  pub get_value_never :
      (i : Info J) (bs : List (Info J)) (w : World)
      → i.refresh_duration ≡ duration_max
      → pos 1 ≤ℤ (caught_up J i bs).last_refresh
      → get_value J S i bs w ≡ record {
        result = read J S (caught_up J i bs) bs;
        top = caught_up J i bs;
        bases = bs;
        world = w;
      }
  unfolding get_value
  get_value_never i bs w e filled = rw (never (caught_up J i bs) w (same_duration i bs ∙ e) filled)
    where
      same_duration :
          (i : Info J) (bs : List (Info J))
          → (caught_up J i bs).refresh_duration ≡ i.refresh_duration
      same_duration i [] = refl
      same_duration i (b ∷ bs) = refl
