-- ===== src/Groups/Fresh.antt =====
-- The state of the cache of a group behind a setter.
use hueplusplus.Base.{◌≡◌, [], ◌∷◌, ◌++◌, codes, ok, length, false}
use hueplusplus.Base.Int.{ℤ, pos, eqb_ℤ}
use hueplusplus.Std.Number.{to_string}
use hueplusplus.Json.{JsonLib}
use hueplusplus.Validation.{Floats}
use hueplusplus.Cache.{Info, World, Surroundings, cached}
use hueplusplus.Cache.Fresh.{refresh_held-fresh}
use hueplusplus.Groups.{send_put_request}
use hueplusplus.Commands.{Line, request, put}
use hueplusplus.Lights.{Site}
use hueplusplus.Groups.Setters.{Change, body_of, change}

module _ (J : JsonLib) (F : Floats J) (S : Site J) (W : Surroundings J) (id : ℤ) where
  -- A setter of a group with a cache of its own, whose request is answered, asks the bridge once
  -- for the state of the group, whenever the cache was read; if that is answered and the clock is
  -- not at its epoch, the setter returns, and the constant getters read the answer.
  pub change-fresh :
      (c : Change) (i : Info J) (w : World) (line : Line) (reply v : J.Json)
      → (request J S.network put S.username
          (codes "/groups/" ++ (to_string id ++ []))
          (body_of J c)
          S.min_delay
          line).0
        ≡ ok reply
      → W.answer (length w.sent) i.path ≡ ok v
      → eqb_ℤ (W.now w.readings) (pos 0) ≡ false
      → let after = change J F S W id c (record { top = i; bases = []; world = w; line = line }) in
        (after.0 ≡ ok tt)
        × (after.1.world.sent ≡ i.path ∷ w.sent)
        × (cached J after.1.top after.1.bases ≡ ok v)
  unfolding change
  change-fresh c i w line reply v replied answer clock =
      refresh_held-fresh J W (send_put_request J F S id [] (body_of J c)) i w line reply v replied
        answer clock
