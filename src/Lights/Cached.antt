-- ===== src/Lights/Cached.antt =====
-- The cache of a light as an `APICache` without a base, of src/APICache.cpp. Its requests have their own
-- world, and are not counted on the line of the light.
use hueplusplus.Base.{[], ◌≡◌, refl, ap, ◌∙◌, ok, arith}
use hueplusplus.Base.Int.{pos, ◌≤ℤ◌}
use hueplusplus.Json.{JsonLib}
use hueplusplus.Cache.{Info, World, Surroundings, duration_max, get_value, cached}
use hueplusplus.Cache.Reads.{get_value_never}
use hueplusplus.Lights.{CacheOf}

module _ (J : JsonLib) (S : Surroundings J) where
  -- It was read once, at a time behind the epoch of the clock, and is never refreshed again.
  abbrev pub Settled : J.Json → Info J × World → Type 0
  Settled v (i, w) = (i.value ≡ v) × (i.refresh_duration ≡ duration_max) × (pos 1 ≤ℤ i.last_refresh)

  pub get_value-Settled :
      (v : J.Json) (i : Info J) (w : World)
      → Settled v (i, w)
      → get_value J S i [] w ≡ record { result = ok v; top = i; bases = []; world = w }
  get_value-Settled v i w (value, never, filled) =
      get_value_never J S i [] w never filled
      ∙ ap (λ x. record { result = ok x; top = i; bases = []; world = w }) value

  pub cached-Settled :
      (v : J.Json) (i : Info J) (w : World) → Settled v (i, w) → cached J i [] ≡ ok v
  unfolding cached
  cached-Settled v i w (value, never, filled) = ground (arith, value, filled)

  abbrev pub cached_light : CacheOf J
  cached_light = record {
    Cell = Info J × World;
    read = λ (i, w) line. let o = get_value J S i [] w in (o.result, ((o.top, o.world), line));
    peek = λ (i, w). cached J i [];
    store = λ v (i, w). (record i { value = v }, w);
    Holds = Settled;
    read-Holds = λ v (i, w) line held. (
      (i, w),
      ap (λ o. (o.result, ((o.top, o.world), line))) (get_value-Settled v i w held),
      held,
    );
    peek-Holds = λ v (i, w) held. cached-Settled v i w held;
    store-Holds = λ v u (i, w) (value, never, filled). (refl, never, filled);
  }
