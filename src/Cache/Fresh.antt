-- ===== src/Cache/Fresh.antt =====
-- An object whose request is followed by a refresh of its cache.
use hueplusplus.Base.{◌≡◌, refl, ap, [], ◌∷◌, Result, ok, err, Error, length, false, if◌then◌else◌}
use hueplusplus.Base.Action.{◌>>=◌}
use hueplusplus.Base.Int.{pos, eqb_ℤ}
use hueplusplus.Json.{JsonLib}
use hueplusplus.Cache.{
  Info, World, Surroundings, refresh, fetch, answered, store, request_path, cached,
}
use hueplusplus.Cache.Holder.{on_line, refresh_held}
use hueplusplus.Commands.{Line}

module _ (J : JsonLib) (W : Surroundings J) (send : Line → Result J.Json × Line) where
  -- If a request of an object with a cache of its own is answered, the refresh behind it asks the bridge
  -- once, whenever the cache was read; if that is answered and the clock is not at its epoch, the cache
  -- gives the answer.
  pub refresh_held-fresh :
      (i : Info J) (w : World) (line : Line) (reply v : J.Json)
      → (send line).0 ≡ ok reply
      → W.answer (length w.sent) i.path ≡ ok v
      → eqb_ℤ (W.now w.readings) (pos 0) ≡ false
      → let after =
          (on_line J send >>= λ r. refresh_held J W)
            (record { top = i; bases = []; world = w; line = line }) in
        (after.0 ≡ ok tt)
        × (after.1.world.sent ≡ i.path ∷ w.sent)
        × (cached J after.1.top after.1.bases ≡ ok v)
  unfolding refresh fetch answered store request_path cached
  refresh_held-fresh i w line reply v replied answer clock =
      rw (replied, answer) (refl, refl, ap (λ b. if b then err Error.hue_exception else ok v) clock)
