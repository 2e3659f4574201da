-- ===== src/Bridge/Examples.antt =====
-- The theorems on bridges at inputs: the button is pressed between the first two attempts.
use hueplusplus.Base.{
  ℕ, zero, suc, ◌-◌, ◌*◌, ◌<◌, [], ◌∷◌, ◌≡◌, refl, true, codes, some, ok, bytes_eq, arith, Result,
  ltb, if◌then◌else◌,
}
use hueplusplus.Base.Int.{pos}
use hueplusplus.Json.Value.{Value, obj, arr, field, stop, cons, nil, int, text, values_lib, equal}
use hueplusplus.Std.Text.{index_of, begins_with}
use hueplusplus.Cache.{refresh, fetch, answered, store, request_path}
use hueplusplus.Commands.{create}
use hueplusplus.Bridge.{
  Bridge, Handler, Requested, answer_to, safe_get_member, attempt, ask, request_username,
}
use hueplusplus.Bridge.Username.{IsWaiting, request_username-ends, request_username-pressed}
use hueplusplus.Bridge.Finder.{
  Finder, BridgeIdentification, normalize_mac, parse_description, add_username, add_client_key,
  get_bridge,
}
use hueplusplus.Bridge.Finder.Known.{get_bridge-known}

methods : Unit {0}
unfolding bytes_eq equal refresh fetch answered store request_path create safe_get_member attempt
    ask request_username normalize_mac add_username add_client_key get_bridge
methods = tt

abbrev waiting : Value
waiting =
    arr (
      cons (obj (field (codes "error") (obj (field (codes "type") (int (pos 101)) stop)) stop)) nil)

abbrev pressed : Value
pressed = arr (
    cons
      (obj (
        field (codes "success")
          (obj (
            field (codes "username") (text (codes "u"))
              (field (codes "clientkey") (text (codes "k")) stop)))
          stop))
      nil)

-- A bridge whose button is pressed after the first attempt, and what its refresh gives.
abbrev handler : Result Value → Handler values_lib
handler state = record {
  post = λ n ip port uri body. ok (if ltb 0 n then pressed else waiting);
  put = λ ip port uri body. ok pressed;
  clock = λ n. n * 1000;
  state_of = λ u. record { now = λ n. pos 5; answer = λ n path. state };
}

abbrev online : Handler values_lib
online = handler (ok (obj stop))

abbrev bridge : Bridge
bridge = record { ip = codes "b"; port = pos 80; username = []; clientkey = [] }

request_username-ends_example :
    (r : Requested) × (request_username values_lib online (pos 10) 35000 35 bridge ≡ some r)
request_username-ends_example =
    request_username-ends values_lib online (pos 10) 35000 1000 35 bridge (λ n. omega arith)
      (omega arith) (omega arith)

waits :
    (state : Result Value) (i : ℕ)
    → i < 1
    → IsWaiting values_lib (answer_to values_lib (handler state) (pos 10) bridge i)
      × (ltb ((handler state).clock (suc i) - (handler state).clock 0) 35000 ≡ true)
unfolding methods
waits state zero below = (
  (
    waiting,
    obj (field (codes "error") (obj (field (codes "type") (int (pos 101)) stop)) stop),
    [],
    record { error = pos 101; address = []; description = [] },
    refl,
    refl,
    refl,
    refl,
    refl,
    refl,
    refl,
  ),
  refl,
)
waits state (suc i) below = absurd (omega arith)

request_username-pressed_example :
    request_username values_lib online (pos 10) 35000 35 bridge
    ≡ some (record {
      result = ok (codes "u");
      bridge = record bridge { username = codes "u"; clientkey = codes "k" };
      attempts = 2;
    })
unfolding methods
request_username-pressed_example =
    request_username-pressed values_lib online (pos 10) 35000 35 1 bridge (codes "u") (codes "k")
      (omega arith) (waits (ok (obj stop))) (pressed, refl, refl, refl, refl, refl) refl

abbrev finder : Finder
finder = record { usernames = []; clientkeys = [] }

abbrev identification : BridgeIdentification
identification = record { ip = codes "b"; port = pos 80; mac = codes "00:1A" }

abbrev known : Finder
known = record {
  usernames = (codes "001a", codes "u") ∷ [];
  clientkeys = (codes "001a", codes "k") ∷ [];
}

get_bridge-known_example :
    get_bridge values_lib online (pos 10) 35000 0 known identification
    ≡ some (record {
      result = ok (record bridge { username = codes "u"; clientkey = codes "k" });
      finder = known;
      attempts = 0;
    })
unfolding methods
get_bridge-known_example =
    get_bridge-known values_lib online (pos 10) 35000 35 0 finder identification
      (record {
        result = ok (record bridge { username = codes "u"; clientkey = codes "k" });
        finder = known;
        attempts = 2;
      })
      (record bridge { username = codes "u"; clientkey = codes "k" }) refl refl

serial :
    parse_description
      (codes "<modelName>Philips hue bridge 2012</modelName><serialNumber>001a</serialNumber>")
    ≡ codes "001a"
unfolding methods parse_description index_of begins_with
serial = refl
