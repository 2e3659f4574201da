-- ===== src/Lights.antt =====
-- `Light` of src/Light.cpp and include/hueplusplus/Light.h: the transactions of a light on the part of the
-- cached state that is its own. The strategies are in the children.

pub mod Brightness
pub mod Temperature
pub mod Color
pub mod Alerts
pub mod Shown
pub mod Steps
pub mod Restoring
pub mod Unrestored
pub mod Cached
pub mod Gamut
mod Examples
use hueplusplus.Base.{
  ℕ, ◌+◌, ◌%◌, ◌^◌, ◌-◌, List, [], ◌∷◌, ◌++◌, ◌≡◌, Bool, true, false, Option, none, some, Bytes,
  codes, if◌then◌else◌, ltb, length, Result, ok, err, Error, suc,
}
use hueplusplus.Base.Action.{Action, lift, and_then, ◌>>=◌}
use hueplusplus.Base.Int.{ℤ, pos, negsuc}
use hueplusplus.Std.Number.{to_string}
use hueplusplus.Json.{JsonLib, at_key, or_throw, takes_keys}
use hueplusplus.Validation.{Floats}
use hueplusplus.Settings.{Setting, set_on, set_transition, alert}
use hueplusplus.Settings.Range.{requested}
use hueplusplus.Commands.{Network, Line, sleep_until}
use hueplusplus.Transaction.{Transaction, Committed, open_on, commit}

-- What a light asks of its cache: `getValue()` with the line to the bridge, `getValue() const`, and the
-- assignment through the reference that the first gives back. A cell that holds a value and does not
-- ask the bridge gives the value.
pub record CacheOf (J : JsonLib) : Type 1 where
  pub Cell : Type 0
  pub read : Cell → Line → Result J.Json × (Cell × Line)
  pub peek : Cell → Result J.Json
  pub store : J.Json → Cell → Cell
  pub Holds : J.Json → Cell → Type 0
  pub read-Holds :
      (v : J.Json) (cell : Cell) (line : Line)
      → Holds v cell
      → (after : Cell) × (read cell line ≡ (ok v, (after, line))) × Holds v after
  pub peek-Holds : (v : J.Json) (cell : Cell) → Holds v cell → peek cell ≡ ok v
  pub store-Holds : (v w : J.Json) (cell : Cell) → Holds v cell → Holds w (store w cell)

-- `HueCommandAPI` of a light, and the two delays of `Config`, in ticks.
pub record Site (J : JsonLib) : Type 0 where
  pub network : Network J
  pub username : Bytes
  pub min_delay : ℕ
  pub pre_alert_delay : ℕ
  pub post_alert_delay : ℕ

-- The two classes of a `ColorHueStrategy`.
pub data HueStrategy : Type 0 where
  simple extended : HueStrategy

-- The members of a light besides its cache. A pointer to a strategy may be null, and there is one class of
-- each of the first two.
pub record Light : Type 0 where
  pub id : ℤ
  pub has_brightness_control : Bool
  pub has_temperature_control : Bool
  pub hue_strategy : Option HueStrategy

-- `get` of an unsigned type of w bits
abbrev pub to_unsigned : ℕ → ℤ → ℕ
to_unsigned w (pos n) = n % 2 ^ w
to_unsigned w (negsuc n) = 2 ^ w - suc (n % 2 ^ w)

module _ (J : JsonLib) where
  abbrev pub unsigned_of : ℕ → J.Json → Result ℕ
  unsigned_of w v = elim (J.to_int v) [
    | none ↦ err Error.json_exception
    | some z ↦ ok (to_unsigned w z)
  ]

  -- `j[key]` of a constant value: undefined for a missing key.
  abbrev pub const_at : J.Json → Bytes → Result J.Json
  const_at j key =
      if J.is_object j
      then elim (J.find j key) [ none ↦ err Error.unspecified | some v ↦ ok v ]
      else err Error.json_exception

  -- `j[key]` of a variable value, which makes a missing entry null; with the value after it.
  abbrev pub make_at : J.Json → Bytes → Result (J.Json × J.Json)
  make_at j key =
      if takes_keys J j
      then ok (elim (J.find j key) [ none ↦ (J.null, J.set j key J.null) | some v ↦ (v, j) ])
      else err Error.json_exception

  -- `j[i].get<float>()` of a constant value: undefined behind the end of an array.
  abbrev pub const_float_at : J.Json → ℕ → Result J.Float
  const_float_at j i =
      if J.is_array j
      then if ltb i (length (J.elements j))
        then or_throw (J.float_at j i)
        else err Error.unspecified
      else err Error.json_exception

module _ (J : JsonLib) (C : CacheOf J) where
  -- The methods of a light change its cell and the line.
  abbrev pub Act {ℓ} : Type ℓ → Type ℓ
  Act A = Action (C.Cell × Line) A

  -- `getValue()`, and the assignment through its reference
  abbrev pub get_value : Act J.Json
  get_value (cell, line) = C.read cell line

  abbrev pub set_value : J.Json → Act (Unit {0})
  set_value v (cell, line) = (ok tt, (C.store v cell, line))

  -- `getValue() const`
  abbrev pub peek_value : Act J.Json
  peek_value (cell, line) = (C.peek cell, (cell, line))

  abbrev pub pause : Network J → ℕ → Act (Unit {0})
  pause N delay (cell, line) = (ok tt, (cell, sleep_until J N (line.time + delay) line))

  -- `getValue()["state"]`, kept as a constant reference
  abbrev pub state_entry : Act J.Json
  state_entry = do
    value ← get_value
    (state, after) ← lift (make_at J value (codes "state"))
    set_value after >>= λ _. lift (ok state)

  -- `getValue()["state"][key]` of a variable value
  abbrev pub state_member : Bytes → Act J.Json
  state_member key = do
    value ← get_value
    (state, after) ← lift (make_at J value (codes "state"))
    _ ← set_value after
    (member, changed) ← lift (make_at J state key)
    set_value (J.set after (codes "state") changed) >>= λ _. lift (ok member)

  -- `getValue()["state"]` of a constant value
  abbrev pub const_state : Act J.Json
  const_state = peek_value >>= λ value. lift (const_at J value (codes "state"))

  abbrev pub const_member : Bytes → Act J.Json
  const_member key = const_state >>= λ state. lift (const_at J state key)

-- The path of a light's state.
abbrev pub state_path : Light → Bytes
state_path light = codes "/lights/" ++ (to_string light.id ++ codes "/state")

module _ (J : JsonLib) (F : Floats J) (S : Site J) (C : CacheOf J) where
  -- The state in the cached value after a commit, which writes it through the pointer.
  abbrev pub written_back : C.Cell → J.Json → Committed J F → Result Bool × (C.Cell × Line)
  written_back cell value c = (
    c.result,
    (
      elim c.transaction.state [
        | none ↦ cell
        | some state ↦ C.store (J.set value (codes "state") state) cell
      ],
      c.line,
    ),
  )

  -- The setters in their order, and `commit()`, on the state in the cached value.
  abbrev pub commit_on : Light → List (Setting J) → J.Json → J.Json → Act J C Bool
  commit_on light settings value state (cell, line) = written_back cell value (
      commit J F S.network S.username S.min_delay true
        (record {
          path = state_path light;
          state = some state;
          request = requested J F settings J.object;
        })
        line)

  -- `transaction()`, setters, and `commit()`
  unfoldable pub transact : Light → List (Setting J) → Act J C Bool
  transact light settings = do
    value ← get_value J C
    state ← lift (at_key J value (codes "state"))
    commit_on light settings value state

  abbrev pub on : Light → ℕ → Act J C Bool
  on light transition = transact light (set_on true ∷ set_transition transition ∷ [])

  abbrev pub off : Light → ℕ → Act J C Bool
  off light transition = transact light (set_on false ∷ set_transition transition ∷ [])

  abbrev pub alert_light : Light → Act J C Bool
  alert_light light = transact light (alert ∷ [])

  -- `isOn()`
  abbrev pub is_on : Act J C Bool
  is_on = do
    value ← get_value J C
    state ← lift (at_key J value (codes "state"))
    on ← lift (at_key J state (codes "on"))
    lift (or_throw (J.to_bool on))
