-- ===== src/Resources/NewDevices.antt =====
-- `NewDeviceList` of src/NewDeviceList.cpp, and `getNewDevices` of include/hueplusplus/ResourceList.h.
use hueplusplus.Base.{
  Bool, not, ◌&&◌, ◌==◌, List, [], ◌∷◌, ◌++◌, Bytes, codes, bytes_eq, length, none, some, Result,
  ok, err, Error, if◌then◌else◌, ◌>>=◌,
}
use hueplusplus.Base.Action.{Action, lift, and_then}
use hueplusplus.Base.Int.{ℤ}
use hueplusplus.Std.Number.{stoi}
use hueplusplus.Json.{JsonLib, at_key, or_throw}
use hueplusplus.Scenes.Stored.{emplace}
use hueplusplus.Cache.Holder.{Holder, on_line}
use hueplusplus.Commands.{request, get}
use hueplusplus.Lights.{Site}
use hueplusplus.Resources.{list_path}

-- The devices are a map, the list of its entries in the order of the ids.
pub record NewDevices : Type 0 where
  pub last_scan : Bytes
  pub devices : List (ℤ × Bytes)

abbrev pub has_last_scan_time : NewDevices → Bool
has_last_scan_time l =
    not (length l.last_scan == 0)
    && (not (bytes_eq l.last_scan (codes "none")) && not (bytes_eq l.last_scan (codes "active")))

abbrev pub is_scan_active : NewDevices → Bool
is_scan_active l = bytes_eq l.last_scan (codes "active")

module _ (J : JsonLib) where
  -- The body of the loop of `parse`.
  abbrev add_entry : Bytes → J.Json → NewDevices → Result NewDevices
  add_entry key v l =
      if bytes_eq key (codes "lastscan")
      then or_throw (J.to_text v) >>= (λ scan. ok (record l { last_scan = scan }))
      else stoi key >>= λ id. at_key J v (codes "name") >>= λ n.
          or_throw (J.to_text n) >>= λ device.
          ok (record l { devices = emplace id device l.devices })

  unfoldable pub add_entries : List (Bytes × J.Json) → NewDevices → Result NewDevices
  add_entries [] l = ok l
  add_entries ((key, v) ∷ rest) l = add_entry key v l >>= λ l'. add_entries rest l'

  -- `parse`
  unfoldable pub parse_new_devices : J.Json → Result NewDevices
  parse_new_devices json = elim (J.entries json) [
    | none ↦ err Error.json_exception
    | some es ↦ add_entries es (record { last_scan = []; devices = [] })
  ]

module _ (J : JsonLib) (S : Site J) where
  -- `getNewDevices`
  abbrev pub get_new_devices : Action (Holder J) NewDevices
  get_new_devices s =
      and_then (λ response. lift (parse_new_devices J response))
        (on_line J
          (request J S.network get S.username (list_path J s ++ codes "new") J.object S.min_delay)
          s)
