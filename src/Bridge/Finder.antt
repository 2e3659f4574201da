-- ===== src/Bridge/Finder.antt =====
-- `BridgeFinder` of src/Bridge.cpp: the user names of the known bridges, by their MAC addresses.
pub mod Known
use hueplusplus.Base.{
  ℕ, List, [], ◌∷◌, Bool, ◌||◌, ◌&&◌, ◌+◌, Option, none, some, Bytes, codes, take, drop, leb, ltb,
  bytes_eq, length, ◌==◌, if◌then◌else◌, Result, ok, err, Error,
}
use hueplusplus.Base.Int.{ℤ}
use hueplusplus.Std.Text.{index_of, sub_size}
use hueplusplus.Json.{JsonLib}
use hueplusplus.Bridge.{Bridge, Handler, Requested, request_username}

-- `std::isalnum` and `std::tolower` in the classic locale
abbrev is_upper : ℕ → Bool
is_upper c = leb 65 c && leb c 90

abbrev pub is_alnum : ℕ → Bool
is_alnum c = (leb 48 c && leb c 57) || (is_upper c || (leb 97 c && leb c 122))

abbrev pub to_lower : ℕ → ℕ
to_lower c = if is_upper c then c + 32 else c

-- `normalizeMac`
unfoldable pub normalize_mac : Bytes → Bytes
normalize_mac [] = []
normalize_mac (c ∷ s) = let rest = normalize_mac s in if is_alnum c then to_lower c ∷ rest else rest

-- `parseDescription`: the text between the tags of the serial number, if the text is from a Hue bridge.
abbrev serial_until : Bytes → ℕ → Option ℕ → Bytes
serial_until description begin none = []
serial_until description begin (some end) =
    if ltb begin (length description)
    then take (sub_size end begin) (drop begin description)
    else []

abbrev serial_from : Bytes → Option ℕ → Bytes
serial_from description none = []
serial_from description (some begin) =
    serial_until description (begin + length (codes "<serialNumber>"))
      (index_of (codes "</serialNumber>") (drop begin description) begin)

unfoldable pub parse_description : Bytes → Bytes
parse_description description =
    elim (index_of (codes "<modelName>Philips hue bridge") description 0) [
      | none ↦ []
      | some _ ↦ serial_from description (index_of (codes "<serialNumber>") description 0)
    ]

-- The two maps, with the latest entry of a key first.
pub record Finder : Type 0 where
  pub usernames : List (Bytes × Bytes)
  pub clientkeys : List (Bytes × Bytes)

abbrev pub value_of : List (Bytes × Bytes) → Bytes → Option Bytes
value_of [] key = none
value_of ((k, v) ∷ rest) key = if bytes_eq k key then some v else value_of rest key

-- `addUsername` and `addClientKey`
unfoldable pub add_username : Bytes → Bytes → Finder → Finder
add_username mac username f = record f { usernames = (normalize_mac mac, username) ∷ f.usernames }

unfoldable pub add_client_key : Bytes → Bytes → Finder → Finder
add_client_key mac key f = record f { clientkeys = (normalize_mac mac, key) ∷ f.clientkeys }

pub record BridgeIdentification : Type 0 where
  pub ip : Bytes
  pub port : ℤ
  pub mac : Bytes

-- What `getBridge` gives back or throws, the finder after it, and how often it asked for a user name.
pub record Found : Type 0 where
  pub result : Result Bridge
  pub finder : Finder
  pub attempts : ℕ

abbrev pub bridge_of : BridgeIdentification → Bytes → Bytes → Bridge
bridge_of i username key = record { ip = i.ip; port = i.port; username = username; clientkey = key }

-- The entry of a map, or an empty text
abbrev pub or_empty : Option Bytes → Bytes
or_empty none = []
or_empty (some s) = s

abbrev pub add_bridge : Bytes → Bridge → Finder → Finder
add_bridge mac b f = add_client_key mac b.clientkey (add_username mac b.username f)

-- The end of `getBridge`, behind `requestUsername`.
abbrev pub add_requested : Bytes → Finder → Requested → Found
add_requested mac f r = elim r.result [
  | err e ↦ record { result = err e; finder = f; attempts = r.attempts }
  | ok _ ↦
      if length r.bridge.username == 0
      then record { result = err Error.hue_exception; finder = f; attempts = r.attempts }
      else record {
        result = ok r.bridge;
        finder = add_bridge mac r.bridge f;
        attempts = r.attempts;
      }
]

abbrev pub by_request : Bytes → Finder → Option Requested → Option Found
by_request mac f none = none
by_request mac f (some r) = some (add_requested mac f r)

-- The bridge of a known user name, or what a request gives.
abbrev pub known_or : Finder → BridgeIdentification → Option Found → Option Bytes → Option Found
known_or f i requested none = requested
known_or f i requested (some u) = some (record {
  result = ok (bridge_of i u (or_empty (value_of f.clientkeys (normalize_mac i.mac))));
  finder = f;
  attempts = 0;
})

module _ (J : JsonLib) (H : Handler J) (refresh_duration : ℤ) (timeout : ℕ) where
  -- `getBridge`, with the fuel of the request.
  unfoldable pub get_bridge : ℕ → Finder → BridgeIdentification → Option Found
  get_bridge fuel f i =
      known_or f i
        (by_request (normalize_mac i.mac) f
          (request_username J H refresh_duration timeout fuel (bridge_of i [] [])))
        (value_of f.usernames (normalize_mac i.mac))
