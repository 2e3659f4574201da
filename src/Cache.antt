-- ===== src/Cache.antt =====
-- `APICache` of src/APICache.cpp: a cached part of the bridge's state, on its own or as an entry of a
-- base cache, which may have a base itself.
pub mod Requests
pub mod Reads
pub mod Parts
pub mod Nested
pub mod Holder
pub mod Fresh
mod Examples
use hueplusplus.Base.{
  ℕ, suc, ◌+◌, ◌-◌, ◌^◌, List, [], ◌∷◌, ◌++◌, Bool, true, false, not, ◌||◌, Option, none, some,
  Bytes, length, if◌then◌else◌, Result, ok, err, Error, ◌>>=◌,
}
use hueplusplus.Base.Int.{ℤ, pos, ◌+ℤ◌, ◌-ℤ◌, ltb_ℤ, eqb_ℤ}
use hueplusplus.Json.{JsonLib, assign, at_key}

-- `steady_clock::duration::max()`, in ticks of 64 bits.
abbrev pub duration_max : ℤ
duration_max = pos (2 ^ 63 - 1)

-- What a cache meets: the readings of the clock, and the answers of `HueCommandAPI::GETRequest` to the
-- requests, both by their number.
pub record Surroundings (J : JsonLib) : Type 0 where
  pub now : ℕ → ℤ
  pub answer : ℕ → Bytes → Result J.Json

-- How often the clock was read, and the paths that were requested, the latest first.
pub record World : Type 0 where
  pub readings : ℕ
  pub sent : List Bytes

-- The members of one cache. A time point is its ticks from the epoch of the clock, where zero means
-- that nothing was cached yet. With a base, `value` is written by the caches that lie on this one only.
pub record Info (J : JsonLib) : Type 0 where
  pub path : Bytes
  pub refresh_duration : ℤ
  pub last_refresh : ℤ
  pub value : J.Json

-- A cache with its base caches, the nearest first, in the world after a call.
pub record Outcome (J : JsonLib) (A : Type 0) : Type 0 where
  pub result : Result A
  pub top : Info J
  pub bases : List (Info J)
  pub world : World

module _ (J : JsonLib) where
  -- The constructors.
  abbrev pub on_base : Info J → Bytes → ℤ → Info J
  on_base base sub_entry refresh = record {
    path = sub_entry;
    refresh_duration = refresh;
    last_refresh = base.last_refresh;
    value = J.null;
  }

  abbrev pub own : Bytes → ℤ → J.Json → ℤ → Info J
  own path refresh initial now = record {
    path = path;
    refresh_duration = refresh;
    last_refresh = if J.is_null initial then pos 0 else now;
    value = initial;
  }

  unfoldable pub request_path : Info J → List (Info J) → Bytes
  request_path i [] = i.path
  request_path i (b ∷ bs) = (request_path b bs ++ b'/' ∷ []) ++ i.path

  unfoldable pub set_refresh_duration : Info J → ℤ → Info J
  set_refresh_duration i refresh = record i { refresh_duration = refresh }

  -- `std::max`
  abbrev pub later : ℤ → ℤ → ℤ
  later a b = if ltb_ℤ a b then b else a

  abbrev pub caught_time : ℤ → List (Info J) → ℤ
  caught_time t [] = t
  caught_time t (b ∷ bs) = later t b.last_refresh

  -- The first statement of `needsRefresh`.
  abbrev pub caught_up : Info J → List (Info J) → Info J
  caught_up i bs = record i { last_refresh = caught_time i.last_refresh bs }

module _ (J : JsonLib) (S : Surroundings J) where
  -- The tests of `needsRefresh`, with the world after them: the clock may be read.
  unfoldable pub is_due : Info J → World → Bool × World
  is_due i w =
      if eqb_ℤ i.last_refresh (pos 0) || ltb_ℤ i.refresh_duration (pos 0)
      then (true, w)
      else if ltb_ℤ i.last_refresh (duration_max -ℤ i.refresh_duration)
      then (
        not (ltb_ℤ (S.now w.readings) (i.last_refresh +ℤ i.refresh_duration)),
        record w { readings = suc w.readings },
      )
      else (false, w)

  -- `base->value[path] = result`
  unfoldable pub store_in :
      Info J → Info J → List (Info J) → World → Result J.Json → Outcome J (Unit {0})
  store_in i b bs w (err e) = record { result = err e; top = i; bases = b ∷ bs; world = w }
  store_in i b bs w (ok v) = record {
    result = ok tt;
    top = i;
    bases = record b { value = v } ∷ bs;
    world = w;
  }

  unfoldable pub store : Info J → List (Info J) → World → J.Json → Outcome J (Unit {0})
  store i [] w result = record {
    result = ok tt;
    top = record i { value = result };
    bases = [];
    world = w;
  }
  store i (b ∷ bs) w result = store_in i b bs w (assign J b.value i.path result)

  -- `w` is the world after the request was sent.
  unfoldable pub answered : Info J → List (Info J) → World → Result J.Json → Outcome J (Unit {0})
  answered i bs w (err e) = record { result = err e; top = i; bases = bs; world = w }
  answered i bs w (ok result) =
      store (record i { last_refresh = S.now w.readings }) bs
        (record w { readings = suc w.readings }) result

  -- The second branch of `refresh`.
  unfoldable pub fetch : Info J → List (Info J) → World → Outcome J (Unit {0})
  fetch i bs w =
      let requested : Bytes = request_path J i bs in
      answered i bs (record w { sent = requested ∷ w.sent }) (S.answer (length w.sent) requested)

  abbrev pub above : Info J → Outcome J (Unit {0}) → Outcome J (Unit {0})
  above i o = record { result = o.result; top = i; bases = o.top ∷ o.bases; world = o.world }

  unfoldable pub refresh : Info J → List (Info J) → World → Outcome J (Unit {0})
  refresh i [] w = fetch i [] w
  refresh i (b ∷ bs) w =
      let base : Info J = caught_up J b bs in
      let (due, w') = is_due base w in
      let refreshed : Outcome J (Unit {0}) = refresh base bs w' in
      if due then above i refreshed else fetch i (base ∷ bs) w'

  -- The entry of the base cache, or the own value.
  abbrev pub read : Info J → List (Info J) → Result J.Json
  read i [] = ok i.value
  read i (b ∷ bs) = elim (J.find b.value i.path) [ none ↦ err Error.hue_exception | some v ↦ ok v ]

  abbrev pub then_read : Outcome J (Unit {0}) → Outcome J J.Json
  then_read o = record {
    result = o.result >>= λ _. read o.top o.bases;
    top = o.top;
    bases = o.bases;
    world = o.world;
  }

  -- `getValue()`
  unfoldable pub get_value : Info J → List (Info J) → World → Outcome J J.Json
  get_value i bs w =
      let top : Info J = caught_up J i bs in
      let (due, w') = is_due top w in
      then_read (
        if due
        then refresh top bs w'
        else record { result = ok tt; top = top; bases = bs; world = w' })

module _ (J : JsonLib) where
  -- `getValue() const`, which asks nobody.
  unfoldable pub cached : Info J → List (Info J) → Result J.Json
  cached i [] = if eqb_ℤ i.last_refresh (pos 0) then err Error.hue_exception else ok i.value
  cached i (b ∷ bs) = do value ← cached b bs; at_key J value i.path
