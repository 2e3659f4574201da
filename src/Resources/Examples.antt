-- ===== src/Resources/Examples.antt =====
-- The theorem on lists of resources at an input: a group is created.
use hueplusplus.Base.{◌+◌, [], ◌≡◌, refl, inr, codes, ok, arith, bytes_eq, Result}
use hueplusplus.Base.Int.{ℤ, pos}
use hueplusplus.Std.Number.{to_string, decimal, emit}
use hueplusplus.Json.{has}
use hueplusplus.Json.Value.{Value, obj, arr, cons, nil, field, text, stop, values_lib}
use hueplusplus.Bridge.{safe_get_member}
use hueplusplus.Cache.{Info, Surroundings, duration_max, own}
use hueplusplus.Cache.Holder.{Holder}
use hueplusplus.Commands.{Line, response, request, run_with_timeout, handle_error, find_error}
use hueplusplus.Lights.{Site}
use hueplusplus.Resources.{numbers, create, exists_cached}
use hueplusplus.Resources.Created.{create_id}

abbrev reply : Value
reply = arr (
    cons
      (obj
        (field (codes "success") (obj (field (codes "id") (text (codes "/groups/12")) stop)) stop))
      nil)

abbrev site : Site values_lib
site = record {
  network = record { call = λ n t method uri body. (response reply, t + 10); wake = λ t. t };
  username = codes "u";
  min_delay = 1000;
  pre_alert_delay = 120;
  post_alert_delay = 1600;
}

abbrev line : Line
line = record { time = 1000; timeout = 0; calls = 0; starts = [] }

abbrev groups : Value
groups = obj (field (codes "12") (obj stop) stop)

abbrev surroundings : Surroundings values_lib
surroundings = record { now = λ n. pos 1000; answer = λ n path. ok groups }

abbrev cell : Info values_lib
cell = own values_lib (codes "/groups") duration_max (obj stop) (pos 950)

abbrev created : Result ℤ × Holder values_lib
created =
    create values_lib site surroundings numbers (obj stop)
      (record { top = cell; bases = []; world = record { readings = 0; sent = [] }; line = line })

create_id_example :
    (created.0 ≡ ok (pos 12))
    × ((other : ℤ)
        → exists_cached values_lib surroundings numbers other created.1
          ≡ ok (has values_lib groups (to_string other)))
unfolding request run_with_timeout handle_error find_error bytes_eq safe_get_member to_string
    decimal emit
create_id_example =
    create_id values_lib site surroundings numbers (obj stop) reply groups cell
      (record { readings = 0; sent = [] }) line (pos 12) (codes "/groups/12") (omega arith)
      (inr refl) refl refl refl refl refl
