-- ===== src/Entertainment/Connection/Streaming.antt =====
-- When `connect` of src/EntertainmentMode.cpp leaves the stream on.
use hueplusplus.Base.{ℕ, ◌≡◌, ◌≢◌, ◌⊎◌, List, [], ◌∷◌, true, All, codes, some, ok}
use hueplusplus.Base.Int.{ℤ, pos}
use hueplusplus.Json.{JsonLib}
use hueplusplus.Bridge.{Handler}
use hueplusplus.Entertainment.{Mode, is_zero}
use hueplusplus.Entertainment.Hex.{hex_to_bytes}
use hueplusplus.Entertainment.Connection.{Tls, start, stop, close_notify, Connected, shake}
use hueplusplus.Entertainment.Connection.Handshake.{IsLast}

module _ (J : JsonLib) (H : Handler J) (refresh_duration : ℤ) (T : Tls) where
  Passes : ℕ → List ℤ → Type 0
  Passes fuel tested = All (λ code. is_zero code ≡ true) tested × (shake T fuel 0 ≡ some (pos 0))

  -- The connection, the configuration, the key, the session and the name of the other end give
  -- zero, and so does the last round of the handshake.
  abbrev pub Succeeds : Mode → Type 0
  Succeeds m =
      (T.net_connect m.bridge.ip (codes "2100") ≡ pos 0)
      × (T.config_defaults ≡ pos 0)
      × (T.conf_psk (hex_to_bytes m.bridge.clientkey) m.bridge.username ≡ pos 0)
      × (T.setup ≡ pos 0)
      × (T.set_hostname (codes "localhost") ≡ pos 0)
      × ((n : ℕ) × IsLast T n × (T.handshake n ≡ pos 0))

  -- The two ends of what follows the start of the stream.
  abbrev pub Closed : Type 0 → Connected → Type 0
  Closed Success c =
      ((c.result ≡ some (ok true)) × (c.events ≡ start ∷ []) × Success)
      ⊎ ((c.result ≢ some (ok true)) × (c.events ≡ start ∷ close_notify ∷ stop ∷ []) × ¬ Success)
