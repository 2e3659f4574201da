-- ===== src/Time/Timestamp/Errors.antt =====
-- Which exceptions leave `timestampToTm`.
use hueplusplus.Base.{◌≢◌, Bytes, Result, ok, err, Error}
use hueplusplus.Time.Timestamp.{Tm, catch_invalid_argument, timestamp_to_tm}

caught : (r : Result Tm) → catch_invalid_argument r ≢ err Error.invalid_argument
caught (ok a) e = cc
caught (err Error.hue_exception) e = cc
caught (err Error.api_response_exception) e = cc
caught (err Error.invalid_argument) e = cc
caught (err Error.out_of_range) e = cc
caught (err Error.json_exception) e = cc
caught (err Error.system_error) e = cc
caught (err Error.unspecified) e = cc

-- No text makes timestampToTm throw std::invalid_argument.
pub timestamp_to_tm-throws : (s : Bytes) → timestamp_to_tm s ≢ err Error.invalid_argument
unfolding timestamp_to_tm
timestamp_to_tm-throws s = caught _
