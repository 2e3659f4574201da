-- ===== src/Entertainment/Connection.antt =====
-- `connect` and `disconnect` of src/EntertainmentMode.cpp.
pub mod Handshake
pub mod Streaming
use hueplusplus.Base.{
  ℕ, zero, suc, ◌-◌, ◌≡◌, ◌≢◌, ◌⊎◌, inl, inr, refl, arith, List, [], ◌∷◌, Bool, true, false, not,
  ◌||◌, Bytes, codes, Option, none, some, if◌then◌else◌, Result, ok, err, Error, ◌>>=◌, Bool-cases,
}
use hueplusplus.Base.Int.{ℤ, pos, negsuc, eqb_ℤ}
use hueplusplus.Std.Number.{to_string}
use hueplusplus.Json.{JsonLib}
use hueplusplus.Bridge.{Bridge, Handler, start_streaming, stop_streaming}
use hueplusplus.Entertainment.{Mode, is_zero}
use hueplusplus.Entertainment.Hex.{hex_to_bytes}

-- The codes that the functions of mbedtls give, the n-th one of the handshake among them.
pub record Tls : Type 0 where
  pub net_connect : Bytes → Bytes → ℤ
  pub config_defaults : ℤ
  pub conf_psk : Bytes → Bytes → ℤ
  pub setup : ℤ
  pub set_hostname : Bytes → ℤ
  pub handshake : ℕ → ℤ

-- -0x6900 and -0x6880
abbrev want_read : ℤ
want_read = negsuc 0x68ff

abbrev want_write : ℤ
want_write = negsuc 0x687f

-- What is told to the bridge and to the other end.
pub data Event : Type 0 where
  start stop close_notify : Event

-- What `connect` gives back or throws, `none` where the fuel is used up, and what it told.
pub record Connected : Type 0 where
  pub result : Option (Result Bool)
  pub events : List Event

abbrev pub wants : ℤ → Bool
wants code = eqb_ℤ code want_read || eqb_ℤ code want_write

module _ (T : Tls) where
  -- The loop of the handshake, from its n-th round.
  unfoldable pub shake : ℕ → ℕ → Option ℤ
  shake zero n = none
  shake (suc fuel) n =
      let rest = shake fuel (suc n) in if wants (T.handshake n) then rest else some (T.handshake n)

module _ (J : JsonLib) (H : Handler J) (refresh_duration : ℤ) (T : Tls) where
  -- The end of each branch with a failure.
  abbrev failed : Mode → Connected
  failed m = record {
    result =
        some
          (stop_streaming J H refresh_duration m.bridge (to_string m.group_id) >>= λ _. ok false);
    events = start ∷ close_notify ∷ stop ∷ [];
  }

  -- The codes that are tested before the handshake, in their order.
  abbrev pub steps : Mode → List ℤ
  steps m =
      T.net_connect m.bridge.ip (codes "2100")
      ∷ T.config_defaults
      ∷ T.conf_psk (hex_to_bytes m.bridge.clientkey) m.bridge.username
      ∷ T.setup
      ∷ T.set_hostname (codes "localhost")
      ∷ []

  -- The rest of `connect` behind the codes that are left.
  unfoldable pub run_steps : ℕ → Mode → List ℤ → Connected
  run_steps fuel m (code ∷ others) =
      let rest = run_steps fuel m others in if is_zero code then rest else failed m
  run_steps fuel m [] = elim (shake T fuel 0) [
    | none ↦ record { result = none; events = start ∷ [] }
    | some code ↦
        if is_zero code then record { result = some (ok true); events = start ∷ [] } else failed m
  ]

  -- `connect`
  unfoldable pub connect : ℕ → Mode → Connected
  connect fuel m = elim (start_streaming J H refresh_duration m.bridge (to_string m.group_id)) [
    | err e ↦ record { result = some (err e); events = start ∷ [] }
    | ok false ↦ record { result = some (ok false); events = start ∷ [] }
    | ok true ↦ run_steps fuel m (steps m)
  ]

  -- `disconnect`
  abbrev pub disconnect : Mode → Result Bool
  disconnect m = stop_streaming J H refresh_duration m.bridge (to_string m.group_id)
