-- ===== src/Groups/Sends.antt =====
-- Which setters of a group send a request.
use hueplusplus.Base.{ℕ, ◌<◌, [], ◌∷◌, ◌≡◌, refl, Bool, true, false, Bytes, codes, bytes_eq, ok}
use hueplusplus.Base.Int.{ℤ}
use hueplusplus.Json.{JsonLib, ObjectLaws, EntryLaws, ScalarLaws}
use hueplusplus.Validation.{Floats}
use hueplusplus.Settings.{
  Setting, apply, set_on, set_transition, set_brightness, set_color_temperature,
  set_color_hue_saturation, set_color_xy_brightness,
}
use hueplusplus.Settings.Range.{requested}
use hueplusplus.Commands.{Line, first}
use hueplusplus.Transaction.{with_on}
use hueplusplus.Lights.{Site}
use hueplusplus.Groups.{
  ActionChange, switch, brighten, color, color_xy, temperature, color_loop, transact, change_action,
}
use hueplusplus.Groups.Effects.{commit_calls}
use hueplusplus.Groups.Ready.{
  Switched, Ready, with_on-Switched, other-Ready, transition-Ready, set-Ready, without_brightness,
  on-Switched, brightness-Ready,
}

-- Whether a setter commits the transaction that it builds.
abbrev pub commits : {J : JsonLib} → ActionChange J → Bool
commits (color_loop on t) = false
commits _ = true

module _ (J : JsonLib) (F : Floats J) where
  module _ (S : Site J) (id : ℤ) (laws : ObjectLaws J) (entry_laws : EntryLaws J)
      (scalars : ScalarLaws J) where
    sends :
        (setting : Setting J) (t : ℕ) (key : Bytes) (v : J.Json) (line : Line)
        → Switched J F laws scalars key v
            (with_on J F J.object (requested J F (setting ∷ set_transition t ∷ []) J.object))
        → bytes_eq key (codes "transitiontime") ≡ false
        → line.calls < (transact J F S id (setting ∷ set_transition t ∷ []) line).1.calls
    unfolding transact
    sends setting t key v line (with, switched_on, object, found) other =
        commit_calls J F S.network S.username S.min_delay entry_laws _ key _ with v line switched_on
          object found other

    -- For a key other than "on" that a setting writes.
    sends-Ready :
        (setting : Setting J) (t : ℕ) (key : Bytes) (v : J.Json) (line : Line)
        → Ready J F laws scalars key v (apply J F setting J.object)
        → bytes_eq (codes "on") key ≡ false
        → bytes_eq (codes "transitiontime") key ≡ false
        → bytes_eq key (codes "transitiontime") ≡ false
        → line.calls < (transact J F S id (setting ∷ set_transition t ∷ []) line).1.calls
    sends-Ready setting t key v line ready on first other =
        let (object, readable, found) =
          transition-Ready J F laws scalars key v (apply J F setting J.object) t first ready in
        sends setting t key v line
          (with_on-Switched J F laws scalars _ v key object readable found on) other

    -- Each setter of a group's action but setColorLoop calls the HTTP handler at least once,
    -- whatever its arguments are; setColorLoop returns without a call, and the line to the bridge
    -- is as before. The JSON library keeps the laws of objects, of loops over them and of the
    -- values that are stored.
    pub change_action-sends :
        (c : ActionChange J) (line : Line)
        → (commits c ≡ true → line.calls < (change_action J F S id c line).1.calls)
          × (commits c ≡ false → change_action J F S id c line ≡ (ok tt, line))
    unfolding change_action apply bytes_eq
    change_action-sends (switch on t) line = (
      λ _.
          sends (set_on on) t (codes "on") (J.of_bool on) line
            (on-Switched J F laws scalars _ _ (
              transition-Ready J F laws scalars (codes "on") _ _ t refl (
                set-Ready J F laws scalars (codes "on") _
                  (without_brightness J F laws scalars (codes "on") _ refl) refl)))
            refl,
      λ no. cc,
    )
    change_action-sends (brighten b t) line = (
      λ _.
          sends-Ready (set_brightness b) t (codes "bri") _ line
            (brightness-Ready J F laws scalars _) refl refl refl,
      λ no. cc,
    )
    change_action-sends (color c t) line = (
      λ _.
          sends-Ready (set_color_hue_saturation c.hue c.saturation) t (codes "hue") _ line
            (other-Ready J F laws scalars (codes "hue") _ _ (codes "sat") _ refl refl (
              set-Ready J F laws scalars (codes "hue") _
                (without_brightness J F laws scalars (codes "hue") _ refl) refl))
            refl refl refl,
      λ no. cc,
    )
    change_action-sends (color_xy c t) line = (
      λ _.
          sends-Ready (set_color_xy_brightness c.x c.y c.brightness) t (codes "bri") _ line
            (other-Ready J F laws scalars (codes "bri") _ _ (codes "xy") _ refl refl
              (brightness-Ready J F laws scalars _))
            refl refl refl,
      λ no. cc,
    )
    change_action-sends (temperature mired t) line = (
      λ _.
          sends-Ready (set_color_temperature mired) t (codes "ct") _ line
            (set-Ready J F laws scalars (codes "ct") _
              (without_brightness J F laws scalars (codes "ct") _ refl) refl)
            refl refl refl,
      λ no. cc,
    )
    change_action-sends (color_loop on t) line = (λ no. cc, λ _. refl)
