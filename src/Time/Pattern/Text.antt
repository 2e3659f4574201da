-- ===== src/Time/Pattern/Text.antt =====
-- The texts of whole durations inside a time pattern, and where a search finds their marks.
use hueplusplus.Base.{ℕ, zero, suc, ◌*◌, ◌≤◌, ◌<◌, [], ◌∷◌, ◌≡◌, refl, arith, Bytes, ok}
use hueplusplus.Base.Int.{pos}
use hueplusplus.Std.Text.{index_from, count}
use hueplusplus.Time.Duration.{ticks_per_second, duration_to_hh_mm_ss}
use hueplusplus.Time.Duration.Clock.{clock, duration_to_hh_mm_ss-clock}
use hueplusplus.Time.Weekdays.RoundTrip.{mask_text}
use hueplusplus.Time.Pattern.{variation_text}

pub whole_text :
    (s : ℕ) → s ≤ 86400 → duration_to_hh_mm_ss (pos (s * ticks_per_second)) ≡ ok (clock s [])
whole_text s h = ground (arith, duration_to_hh_mm_ss-clock (s * ticks_per_second))

-- The text of a variation of so many seconds.
abbrev pub tail : ℕ → Bytes
tail zero = []
tail (suc v) = b'A' ∷ clock (suc v) []

pub variation_text-tail :
    (v : ℕ) → v ≤ 86400 → variation_text (pos (v * ticks_per_second)) ≡ ok (tail v)
variation_text-tail zero h = refl
variation_text-tail (suc v) h = ground (arith, whole_text (suc v))

-- A letter stands nowhere in a clock text.
pub index_from-clock :
    (c s : ℕ) (rest : Bytes) (i : ℕ)
    → 58 < c
    → s ≤ 86400
    → index_from c (clock s rest) i
      ≡ index_from c rest (suc (suc (suc (suc (suc (suc (suc (suc i))))))))
index_from-clock c s rest i hc hs = ground arith

pub index_from-clock_slash :
    (s : ℕ) (rest : Bytes) (i : ℕ)
    → s ≤ 86400
    → index_from b'/' (clock s rest) i
      ≡ index_from b'/' rest (suc (suc (suc (suc (suc (suc (suc (suc i))))))))
index_from-clock_slash s rest i hs = ground arith

pub count-clock : (s : ℕ) (rest : Bytes) → s ≤ 86400 → count b'/' (clock s rest) ≡ count b'/' rest
unfolding count
count-clock s rest hs = ground arith

pub count-tail : (v : ℕ) → v ≤ 86400 → count b'/' (tail v) ≡ 0
unfolding count
count-tail zero h = refl
count-tail (suc v) h = ground (arith, count-clock (suc v) [] h)

pub count-mask_text :
    (b : ℕ) (rest : Bytes) → b < 1000 → count b'/' (mask_text b rest) ≡ count b'/' rest
unfolding count
count-mask_text b rest h = ground arith
