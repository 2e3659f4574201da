-- ===== src/Cache/Holder.antt =====
-- An object that keeps an `APICache`, with the line on which it sends its own requests. The requests of
-- the cache have their own world, and are not counted on that line.
use hueplusplus.Base.{List, Result}
use hueplusplus.Base.Action.{Action}
use hueplusplus.Json.{JsonLib}
use hueplusplus.Cache.{Info, World, Surroundings, refresh, get_value, cached}
use hueplusplus.Commands.{Line}

-- The cache with its base caches, the nearest first.
pub record Holder (J : JsonLib) : Type 0 where
  pub top : Info J
  pub bases : List (Info J)
  pub world : World
  pub line : Line

module _ (J : JsonLib) (W : Surroundings J) where
  -- `refresh()` of the cache
  abbrev pub refresh_held : Action (Holder J) (Unit {0})
  refresh_held s =
      let o = refresh J W s.top s.bases s.world in
      (o.result, record { top = o.top; bases = o.bases; world = o.world; line = s.line })

  -- `getValue()`
  abbrev pub get_held : Action (Holder J) J.Json
  get_held s =
      let o = get_value J W s.top s.bases s.world in
      (o.result, record { top = o.top; bases = o.bases; world = o.world; line = s.line })

module _ (J : JsonLib) where
  -- `getValue() const`
  abbrev pub peek_held : Holder J → Result J.Json
  peek_held s = cached J s.top s.bases

  -- A request on the line.
  abbrev pub on_line : (Line → Result J.Json × Line) → Action (Holder J) J.Json
  on_line send s = let (r, after) = send s.line in (r, record s { line = after })
