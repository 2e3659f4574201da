-- ===== src/Time/Timestamp/Utc.antt =====
-- `parseUTCTimestamp` changes the process's time zone for a while.
use hueplusplus.Base.{[], ◌≡◌, some, Bytes, arith}
use hueplusplus.Time.Timestamp.{Zone, TimeLibrary, parse_timestamp, parse_utc_timestamp}

-- parseUTCTimestamp leaves TZ as it found it, set or not, whether it returns or throws, and gives
-- what parseTimestamp gives where TZ is the empty text.
pub parse_utc_timestamp-parse_timestamp :
    (C : TimeLibrary) (tz : Zone) (s : Bytes)
    → parse_utc_timestamp C tz s ≡ (parse_timestamp C (some []) s, tz)
unfolding parse_utc_timestamp parse_timestamp
parse_utc_timestamp-parse_timestamp C tz s = ground arith
