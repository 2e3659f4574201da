-- ===== src/Schedules/RoundTrip.antt =====
-- The time of a schedule.
use hueplusplus.Base.{
  ◌≡◌, ap, ◌∙◌, Bytes, codes, bytes_eq, some, none, Result, ok, err, Error, ◌>>=◌, true,
}
use hueplusplus.Json.{JsonLib, ObjectLaws, TextLaws, takes_keys, or_throw}
use hueplusplus.Time.Timestamp.{Zone, TimeLibrary}
use hueplusplus.Time.Pattern.{TimePattern, to_text, parse}
use hueplusplus.Time.Pattern.RoundTrip.{IsPrintable, parse-to_text}
use hueplusplus.Schedules.{time, get_time, write, entry, time_entry}

module _ (J : JsonLib) (laws : ObjectLaws J) (texts : TextLaws J) (C : TimeLibrary)
    (tz : Zone) where
  get_time-set :
      (json : J.Json) (s : Bytes)
      → takes_keys J json ≡ true
      → get_time J C tz (J.set json (codes "localtime") (J.of_text s)) ≡ parse C tz s
  unfolding bytes_eq
  get_time-set json s takes =
      ap
        (λ o.
          (elim o [ none ↦ err Error.json_exception | some v ↦ ok v ])
          >>= (λ v. or_throw (J.to_text v))
          >>= parse C tz)
        (laws.find-set json (codes "localtime") (codes "localtime") (J.of_text s) takes)
      ∙ ap (λ o. or_throw o >>= parse C tz) (texts.to_text-of_text s)

  -- A time pattern that toString writes without loss, set in a request that is an object or null,
  -- is the time that getTime reads of a schedule with that request as its state; setTime does not
  -- throw for it. The JSON library keeps the laws of objects and texts.
  pub get_time-write :
      (json : J.Json) (p : TimePattern)
      → takes_keys J json ≡ true
      → IsPrintable C tz p
      → (write J C tz json (time p) >>= get_time J C tz) ≡ ok p
  unfolding entry
  get_time-write json p takes printable = by_text (to_text C tz p) (parse-to_text p printable)
    where
      by_text :
          (r : Result Bytes)
          → (r >>= parse C tz) ≡ ok p
          → ((r >>= λ s. ok (time_entry J C tz s))
              >>= (λ e. ok (J.set json e.0 e.1))
              >>= get_time J C tz)
            ≡ ok p
      by_text (ok s) parsed = get_time-set json s takes ∙ parsed
      by_text (err e) parsed = parsed
