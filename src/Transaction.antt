-- ===== src/Transaction.antt =====
-- `StateTransaction::commit` and `trimRequest` of src/StateTransaction.cpp. The setters are in Settings. The state that
-- the transaction points to is a value here, `none` for the null pointer.
pub mod Trim
pub mod Filled
pub mod Changes
pub mod Commit
pub mod Silent
pub mod Shown
pub mod Keeps
mod Examples
use hueplusplus.Base.{
  ℕ, suc, ◌-◌, ◌++◌, replicate, ltb, List, [], ◌∷◌, Bool, true, false, not, ◌&&◌, ◌||◌, Option,
  none, some, Bytes, codes, bytes_eq, ◌==◌, length, if◌then◌else◌, Result, ok, err, Error, ◌>>=◌,
}
use hueplusplus.Base.Int.{ℤ, pos, eqb_ℤ}
use hueplusplus.Base.Action.{Action, lift, and_then}
use hueplusplus.Json.{JsonLib, has, value_or, assign, or_throw}
use hueplusplus.Validation.{Floats, float_equals, validate_put_reply}
use hueplusplus.Commands.{Network, Line, request, put}

-- `path`, `*state` and `request`
pub record Transaction (J : JsonLib) : Type 0 where
  pub path : Bytes
  pub state : Option J.Json
  pub request : J.Json

-- `colormodes`
abbrev pub colormode_of : Bytes → Option Bytes
colormode_of key =
    if bytes_eq key (codes "sat")
    then some (codes "hs")
    else if bytes_eq key (codes "hue")
    then some (codes "hs")
    else if bytes_eq key (codes "xy")
    then some (codes "xy")
    else if bytes_eq key (codes "ct")
    then some (codes "ct")
    else none

-- `otherRemove.count(key)`
abbrev pub other_remove : Bytes → Bool
other_remove key =
    bytes_eq key (codes "on") || (bytes_eq key (codes "bri") || bytes_eq key (codes "effect"))

module _ (J : JsonLib) (F : Floats J) where
  -- The constructor
  abbrev pub open_on : Bytes → Option J.Json → Transaction J
  open_on path state = record { path = path; state = state; request = J.object }

  -- The request has a key that changes the light.
  abbrev pub changes : J.Json → Bool
  changes request =
      has J request (codes "bri")
      || (has J request (codes "effect")
          || (has J request (codes "hue")
              || (has J request (codes "sat")
                  || (has J request (codes "xy") || has J request (codes "ct")))))

  abbrev pub brightness : J.Json → Result ℤ
  brightness request = value_or J J.to_int request (codes "bri") (pos 254)

  abbrev pub must_turn_on : J.Json → J.Json → Result Bool
  must_turn_on state request = value_or J J.to_bool state (codes "on") false >>= λ on.
      if on
      then ok false
      else brightness request >>= λ bri. ok (not (eqb_ℤ bri (pos 0)) && changes request)

  abbrev pub must_turn_off : J.Json → J.Json → Result Bool
  must_turn_off state request = brightness request >>= λ bri.
      if eqb_ℤ bri (pos 0) then value_or J J.to_bool state (codes "on") true else ok false

  -- The first part of `commit`, with the state or an empty object.
  unfoldable pub with_on : J.Json → J.Json → Result J.Json
  with_on state request =
      if has J request (codes "on")
      then ok request
      else must_turn_on state request >>= λ turn_on.
          if turn_on
          then ok (J.set request (codes "on") (J.of_bool true))
          else must_turn_off state request >>= λ turn_off.
              ok (if turn_off then J.set request (codes "on") (J.of_bool false) else request)

  -- An array up to an index, filled with nulls.
  abbrev pub grown : J.Json → ℕ → J.Json
  grown j i = J.array (J.elements j ++ replicate (suc i - length (J.elements j)) J.null)

  -- `j[i].get<float>()` of a variable value. Behind its end, `[]` fills an array with nulls, of which `get`
  -- throws; nothing is filled where there is a number.
  abbrev pub reached : J.Json → ℕ → Option J.Float → J.Json
  reached j i (some x) = j
  reached j i none = if ltb i (length (J.elements j)) then j else grown j i

  abbrev pub number_at : ℕ → Action J.Json J.Float
  number_at i j = (or_throw (J.float_at j i), reached j i (J.float_at j i))

  -- `floatEquals` of a number of the value in the state, which may be filled and is read first, and of one of the
  -- value in the request. The arrays that it looks at in a request are from `setColor`, with two numbers,
  -- so that nothing is filled there.
  abbrev pub near_at : J.Json → ℕ → Action J.Json Bool
  near_at new i old =
      and_then (λ x. lift (or_throw (J.float_at new i) >>= λ y. ok (float_equals J F x y)))
        (number_at i old)

  abbrev pub near_xy : J.Json → Action J.Json Bool
  near_xy new old =
      and_then (λ same. if same then near_at new 1 else lift (ok false)) (near_at new 0 old)

  -- The values of a colour in the state and in the request are the same.
  abbrev pub same_color : J.Json → Action J.Json Bool
  same_color new old =
      if not (J.is_array new) && J.equal old new
      then (ok true, old)
      else if J.is_array old
      then near_xy new old
      else (ok false, old)

  -- The state behind a look at one of its values, which changed only if the look threw.
  abbrev pub put_back : J.Json → Bytes → Result Bool × J.Json → Result Bool × J.Json
  put_back state key (ok same, old) = (ok same, state)
  put_back state key (err e, old) = (err e, J.set state key old)

  abbrev pub in_mode :
      J.Json → Bytes × J.Json → J.Json → Bytes → Result Bytes → Result Bool × J.Json
  in_mode state (key, v) old mode (err e) = (err e, state)
  in_mode state (key, v) old mode (ok current) =
      if bytes_eq current mode then put_back state key (same_color v old) else (ok false, state)

  -- The test of `trimRequest` for an entry of the request, with the state behind it
  unfoldable pub is_redundant : J.Json → Bytes × J.Json → Result Bool × J.Json
  is_redundant state (key, v) = elim (colormode_of key) [
    | some mode ↦ elim (J.find state key) [
      | none ↦ (ok false, state)
      | some old ↦
          in_mode state (key, v) old mode (value_or J J.to_text state (codes "colormode") [])
    ]
    | none ↦ (
      if other_remove key
          then ok (elim (J.find state key) [ none ↦ false | some old ↦ J.equal old v ])
          else ok false,
      state,
    )
  ]

  -- How `trimRequest` ends, with what it leaves in the request and in the state.
  pub record Trimmed : Type 0 where
    pub outcome : Result (Unit {0})
    pub request : J.Json
    pub state : Option J.Json

  -- How the loop of `trimRequest` goes on behind an entry, with what it leaves with the entry and without it.
  abbrev pub trimmed_entry : Result Bool × J.Json → J.Json → Trimmed → Trimmed → Trimmed
  trimmed_entry (ok true, state) request erased kept = erased
  trimmed_entry (ok false, state) request erased kept = kept
  trimmed_entry (err e, state) request erased kept = record {
    outcome = err e;
    request = request;
    state = some state;
  }

  unfoldable pub trim_entries : J.Json → List (Bytes × J.Json) → J.Json → Trimmed
  trim_entries state [] request = record { outcome = ok tt; request = request; state = some state }
  trim_entries state ((key, v) ∷ rest) request =
      let erased = trim_entries state rest (J.erase request key) in
      let kept = trim_entries state rest request in
      trimmed_entry (is_redundant state (key, v)) request erased kept

  -- The entries of a loop over an object
  abbrev pub entries_of : J.Json → List (Bytes × J.Json)
  entries_of j = elim (J.entries j) [ none ↦ [] | some es ↦ es ]

  -- `trimRequest`
  unfoldable pub trim_request : Option J.Json → J.Json → Trimmed
  trim_request none request = record { outcome = ok tt; request = request; state = none }
  trim_request (some state) request = trim_entries state (entries_of request) request

  -- The request is empty, or has only the time of the transition.
  abbrev pub has_no_effect : J.Json → Bool
  has_no_effect request =
      (length (entries_of request) == 0)
      || ((length (entries_of request) == 1) && has J request (codes "transitiontime"))

  -- The changes of the request in the state. It throws at its first entry, where the state is neither an
  -- object nor null, or nowhere.
  unfoldable pub change_state : J.Json → List (Bytes × J.Json) → Result J.Json
  change_state state [] = ok state
  change_state state ((key, v) ∷ rest) =
      if bytes_eq key (codes "transitiontime")
      then change_state state rest
      else assign J state key v >>= λ changed. change_state changed rest

  -- What `commit` gives back or throws, what it leaves in the transaction and in the state, and the line.
  pub record Committed : Type 0 where
    pub result : Result Bool
    pub transaction : Transaction J
    pub line : Line

  module _ (N : Network J) (username : Bytes) (min_delay : ℕ) where
    abbrev pub written : Transaction J → Line → Result J.Json → Committed
    written t line (err e) = record { result = err e; transaction = t; line = line }
    written t line (ok state) = record {
      result = ok true;
      transaction = record t { state = some state };
      line = line;
    }

    abbrev pub applied : Transaction J → Line → Option J.Json → Committed
    applied t line none = record { result = ok true; transaction = t; line = line }
    applied t line (some state) = written t line (change_state state (entries_of t.request))

    abbrev pub validated : Transaction J → Line → Result Bool → Committed
    validated t line (ok true) = applied t line t.state
    validated t line (ok false) = record { result = ok false; transaction = t; line = line }
    validated t line (err e) = record { result = err e; transaction = t; line = line }

    abbrev pub replied : Transaction J → Result J.Json × Line → Committed
    replied t (ok reply, line) = validated t line (validate_put_reply J F t.path t.request reply)
    replied t (err e, line) = record { result = err e; transaction = t; line = line }

    -- The part of `commit` behind `trimRequest`
    unfoldable pub send : Transaction J → Line → Result (Unit {0}) → Committed
    send t line (err e) = record { result = err e; transaction = t; line = line }
    send t line (ok _) =
        if has_no_effect t.request
        then record { result = ok true; transaction = t; line = line }
        else replied t (request J N put username t.path t.request min_delay line)

    abbrev pub switched : Bool → Transaction J → Line → Result J.Json → Committed
    switched trim t line (err e) = record { result = err e; transaction = t; line = line }
    switched trim t line (ok with) =
        let trimmed : Trimmed =
          if trim
          then trim_request t.state with
          else record { outcome = ok tt; request = with; state = t.state } in
        send (record t { request = trimmed.request; state = trimmed.state }) line trimmed.outcome

    -- The state, or an empty object for the null pointer
    abbrev pub state_json : Transaction J → J.Json
    state_json t = elim t.state [ none ↦ J.object | some state ↦ state ]

    -- `commit`
    unfoldable pub commit : Bool → Transaction J → Line → Committed
    commit trim t line = switched trim t line (with_on (state_json t) t.request)
