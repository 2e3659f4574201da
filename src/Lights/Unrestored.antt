-- ===== src/Lights/Unrestored.antt =====
-- The alert by hue and saturation of a light that shows an xy colour.
use hueplusplus.Base.{ℕ, ◌+◌, ◌<◌, List, [], ◌∷◌, ◌≡◌, ap, sym, subst, ◌∙◌, Bool, true, Result, ok}
use hueplusplus.Base.Int.{ℤ, pos}
use hueplusplus.Json.{JsonLib, ObjectLaws, EntryLaws, KeyLaws, TextLaws, ScalarLaws}
use hueplusplus.Validation.{Floats}
use hueplusplus.Settings.{Setting, alert}
use hueplusplus.Settings.Range.{requested}
use hueplusplus.Commands.{Line, sleep_until}
use hueplusplus.Lights.{CacheOf, Site, Light, HueStrategy, state_entry, transact}
use hueplusplus.Lights.Color.{HueSaturation, set_hue_saturation}
use hueplusplus.Lights.Alerts.{flash, simple_alert_hue_saturation}
use hueplusplus.Lights.Shown.{Shows, state_entry-Shows, transact-Keeps, transact-IsSilent}
use hueplusplus.Lights.Steps.{ShowsXy, color_light, flashed, flashed_end, flash-last, alert-flash}
use hueplusplus.Lights.Restoring.{
  IsCoordinate, ShowsXy-Keeps, with_on-kept, back, back-Needless, back-with_on, Lacks, change,
  change-Lacks, alert-Lacks,
}

module _ (J : JsonLib) (F : Floats J) (S : Site J) (C : CacheOf J) (laws : ObjectLaws J)
    (entry_laws : EntryLaws J) (key_laws : KeyLaws J) (texts : TextLaws J) (scalars : ScalarLaws J)
    (x y : J.Float) (b : ℕ) where
  -- A transaction that writes none of the keys keeps the colour in the state.
  kept :
      (light : Light) (settings : List (Setting J)) (state : J.Json) (cell : C.Cell) (line : Line)
      → (shows : ShowsXy J x y b state) → Lacks J F laws (requested J F settings J.object)
      → Shows J C state cell
      → (transact J F S C light settings (cell, line)).0 ≡ ok true
      → (after : J.Json) × ShowsXy J x y b after
        × Shows J C after (transact J F S C light settings (cell, line)).1.0
  kept light settings state cell line shows (object, mode, xy, bri, on) held done =
      let switched_on =
        with_on-kept J F laws texts scalars x y b state shows (requested J F settings J.object)
          object on bri in
      let (after, showed, keeps) =
        transact-Keeps J F S C laws light settings state cell line entry_laws
          (requested J F settings J.object) switched_on object shows.0 object held done in
      (after, ShowsXy-Keeps J F laws x y b state _ after shows keeps mode xy bri on, showed)

  module _ (id : ℤ) (brightness temperature : Bool) (strategy : HueStrategy)
      (c : HueSaturation) where
    abbrev light : Light
    light = color_light id brightness temperature strategy

    abbrev to_color : C.Cell × Line → Result Bool × (C.Cell × Line)
    to_color = set_hue_saturation J F S C light c 1

    -- What changes back finds its values in the state.
    back_is_silent :
        (state : J.Json) (cell : C.Cell) (line : Line)
        → IsCoordinate J F x
        → IsCoordinate J F y
        → F.round_254 (F.over_254 (pos b)) ≡ pos b
        → b < 255
        → ShowsXy J x y b state
        → Shows J C state cell
        → ((transact J F S C light (back J F x y b) (cell, line)).0 ≡ ok true)
          × ((transact J F S C light (back J F x y b) (cell, line)).1.1 ≡ line)
    back_is_silent state cell line cx cy exact small shows held =
        let (object, needless) =
          back-Needless J F laws texts scalars x y b state shows cx cy exact small in
        let (done, quiet, later) =
          transact-IsSilent J F S C laws light (back J F x y b) state cell line entry_laws
            (requested J F (back J F x y b) J.object)
            (back-with_on J F laws texts scalars x y b state shows) object key_laws needless held in
        (done, quiet)

    flash_is_silent :
        (state : J.Json) (cell : C.Cell) (line : Line)
        → IsCoordinate J F x
        → IsCoordinate J F y
        → F.round_254 (F.over_254 (pos b)) ≡ pos b
        → b < 255
        → ShowsXy J x y b state
        → Shows J C state cell
        → (to_color (cell, line)).0 ≡ ok true
        → (flashed J F S C light to_color (back J F x y b) (cell, line)).0 ≡ ok true
        → ((flash J F S C light to_color (back J F x y b) (cell, line)).0 ≡ ok true)
          × ((flash J F S C light to_color (back J F x y b) (cell, line)).1.1
              ≡ (flashed_end J F S C light to_color (back J F x y b) (cell, line)).1)
    flash_is_silent state cell line cx cy exact small shows held changed alerted =
        let (colored, shows1, held1) =
          kept light (change J F laws c) state cell line shows (change-Lacks J F laws c) held
            changed in
        let (flashing, shows2, held2) =
          kept light (alert ∷ []) colored (to_color (cell, line)).1.0
            (sleep_until J S.network ((to_color (cell, line)).1.1.time + S.pre_alert_delay)
              (to_color (cell, line)).1.1)
            shows1 (alert-Lacks J F laws) held1 alerted in
        let (done, quiet) =
          back_is_silent flashing
            (flashed_end J F S C light to_color (back J F x y b) (cell, line)).0
            (flashed_end J F S C light to_color (back J F x y b) (cell, line)).1 cx cy exact small
            shows2 held2 in
        let last =
          flash-last J F S C light to_color (back J F x y b) (cell, line) changed alerted in
        (ap (λ r. r.0) last ∙ done, ap (λ r. r.1.1) last ∙ quiet)

    -- A light is on, shows an xy colour with both coordinates above 0 and up to 1, and has a
    -- brightness up to 254 that survives the division by 254 and the rounded product with 254; its
    -- cache has its state and does not ask the bridge for it. If the change of colour and the flash
    -- of the alert by hue and saturation both give true back, then the alert gives true back too,
    -- but sends nothing after the flash: the line to the bridge is as the second pause leaves it.
    -- The JSON library keeps the laws of objects, of loops over them, of texts and of the values
    -- that are stored.
    pub alert_hue_saturation-unrestored :
        (state : J.Json) (cell : C.Cell) (line : Line)
        → IsCoordinate J F x
        → IsCoordinate J F y
        → F.round_254 (F.over_254 (pos b)) ≡ pos b
        → b < 255
        → ShowsXy J x y b state
        → Shows J C state cell
        → (to_color (state_entry J C (cell, line)).1).0 ≡ ok true
        → (flashed J F S C light to_color (back J F x y b) (state_entry J C (cell, line)).1).0
          ≡ ok true
        → ((simple_alert_hue_saturation J F S C c light (cell, line)).0 ≡ ok true)
          × ((simple_alert_hue_saturation J F S C c light (cell, line)).1.1
              ≡ (flashed_end J F S C light to_color
                  (back J F x y b)
                  (state_entry J C (cell, line)).1).1)
    alert_hue_saturation-unrestored state cell line cx cy exact small shows held changed alerted =
        let (start, read, showed) = state_entry-Shows J C state cell line held in
        let enter : (state_entry J C (cell, line)).1 ≡ (start, line) = ap (λ r. r.1) read in
        let (done, quiet) =
          flash_is_silent state start line cx cy exact small shows showed
            (subst (λ at. (to_color at).0 ≡ ok true) enter changed)
            (subst (λ at. (flashed J F S C light to_color (back J F x y b) at).0 ≡ ok true) enter
              alerted) in
        let steps =
          alert-flash J F S C texts scalars x y b state shows id brightness temperature strategy c
            cell start line read showed in
        (
          ap (λ r. r.0) steps ∙ done,
          ap (λ r. r.1.1) steps
              ∙ quiet
              ∙ ap (λ at. (flashed_end J F S C light to_color (back J F x y b) at).1) (sym enter),
        )
