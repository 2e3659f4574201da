-- ===== src/Scenes/Examples.antt =====
-- The theorems on scenes at inputs.
use hueplusplus.Base.{List, [], ◌∷◌, false, true, codes}
use hueplusplus.Base.Int.{pos}
use hueplusplus.Json.Value.{values_lib}
use hueplusplus.Json.Value.Laws.{values_laws, text_laws, scalar_laws}
use hueplusplus.Scenes.{Call, create}
use hueplusplus.Scenes.Told.{Reads, tell_all, nothing_told}
use hueplusplus.Scenes.Refines.{create-Reads}
use hueplusplus.Scenes.Create.{set_name, set_group_id, create_scene}
use hueplusplus.Scenes.Exclusive.{Expected, create_scene-Expected}

create_scene-Expected_example :
    Expected values_lib true false
      (create_scene values_lib (set_name (codes "evening") ∷ set_group_id (pos 3) ∷ []))
create_scene-Expected_example =
    create_scene-Expected values_lib values_laws
      (set_name (codes "evening") ∷ set_group_id (pos 3) ∷ [])

abbrev dimmed : List (Call values_lib)
dimmed = Call.set_brightness (pos 20) ∷ Call.set_on true ∷ []

create-Reads_example :
    Reads values_lib
      (create values_lib (Call.set_brightness (pos 200) ∷ dimmed))
      (tell_all (Call.set_brightness (pos 200) ∷ dimmed) (nothing_told values_lib))
create-Reads_example =
    create-Reads values_lib text_laws scalar_laws values_laws (Call.set_brightness (pos 200)) dimmed
