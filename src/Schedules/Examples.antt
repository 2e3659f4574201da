-- ===== src/Schedules/Examples.antt =====
-- The theorem on schedules at an input: a timer of 90 seconds that runs three times.
use hueplusplus.Base.{◌≡◌, ◌>>=◌, refl, none, ok, arith}
use hueplusplus.Base.Int.{pos}
use hueplusplus.Json.Value.{obj, stop, values_lib}
use hueplusplus.Json.Value.Laws.{values_laws, text_laws}
use hueplusplus.Time.Timestamp.{TimeLibrary}
use hueplusplus.Time.Pattern.{TimePattern, timer}
use hueplusplus.Time.Pattern.Repeats.{timer_of}
use hueplusplus.Time.Pattern.RoundTrip.{after}
use hueplusplus.Schedules.{time, get_time, write}
use hueplusplus.Schedules.RoundTrip.{get_time-write}

-- A C library without any time.
abbrev library : TimeLibrary
library = record { localtime = λ tz t. none; mktime = λ tz tm. pos 0 }

abbrev thrice : TimePattern
thrice = timer (timer_of 90 0 (pos 3))

get_time-write_example :
    (write values_lib library none (obj stop) (time thrice) >>= get_time values_lib library none)
    ≡ ok thrice
get_time-write_example =
    get_time-write values_lib values_laws text_laws library none (obj stop) thrice refl
      (after 90 0 3 (omega arith) (omega arith) (omega arith))
