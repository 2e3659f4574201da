-- ===== src/Sensors/Kinds/Updated.antt =====
-- `getLastUpdated` and the time zone of the process.
use hueplusplus.Base.{
  [], ◌≡◌, Bytes, codes, bytes_eq, if◌then◌else◌, none, some, Result, ok, ◌>>=◌, arith,
}
use hueplusplus.Base.Int.{ℤ, pos}
use hueplusplus.Json.{JsonLib, at_key, or_throw}
use hueplusplus.Time.Timestamp.{Zone, TimeLibrary, parse_timestamp}
use hueplusplus.Time.Timestamp.Utc.{parse_utc_timestamp-parse_timestamp}
use hueplusplus.Sensors.Kinds.{last_updated}

module _ (J : JsonLib) (C : TimeLibrary) where
  abbrev in_utc : Bytes → Result ℤ
  in_utc s = if bytes_eq s (codes "none") then ok (pos 0) else parse_timestamp C (some []) s

  -- The time of a state, read where TZ is the empty text.
  abbrev pub reading : J.Json → Result ℤ
  reading state = at_key J state (codes "state") >>= λ s. elim (J.find s (codes "lastupdated")) [
    | none ↦ ok (pos 0)
    | some v ↦ if J.is_text v then or_throw (J.to_text v) >>= in_utc else ok (pos 0)
  ]

  -- getLastUpdated, for any state and whatever TZ is, gives what a reading in UTC gives, and leaves
  -- TZ as it was, also where it throws: the epoch for a missing time, a time that is no text, and
  -- the text "none", and else the time of the text.
  pub last_updated-reading :
      (tz : Zone) (state : J.Json) → last_updated J C tz state ≡ (reading state, tz)
  unfolding last_updated
  last_updated-reading tz state = grind (arith, parse_utc_timestamp-parse_timestamp)
