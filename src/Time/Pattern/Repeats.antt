-- ===== src/Time/Pattern/Repeats.antt =====
-- Timers: the text of each kind of timer is read back, and what becomes of more executions than
-- two digits hold.
use hueplusplus.Base.{
  ℕ, zero, suc, ◌+◌, ◌*◌, ◌≤◌, ◌<◌, [], ◌∷◌, ◌++◌, ◌≡◌, ap, ap₂, ◌∙◌, refl, Result, arith, Bytes,
  codes, ok,
}
use hueplusplus.Base.Int.{ℤ, pos}
use hueplusplus.Std.Text.{add_size, npos, or_npos, index_from, find}
use hueplusplus.Std.Number.Print.{digit}
use hueplusplus.Std.Number.RoundTrip.{stoi_two}
use hueplusplus.Time.Duration.{ticks_per_second}
use hueplusplus.Time.Duration.Clock.{clock, parse_duration-clock}
use hueplusplus.Time.Pattern.{
  Timer, timer, TimePattern, timer_text, repetition_prefix, parse_timer, parse_timer_at,
}
use hueplusplus.Time.Pattern.Text.{tail, whole_text, variation_text-tail, index_from-clock}

-- A timer of so many seconds, with a variation, and a number of executions.
abbrev pub timer_of : ℕ → ℕ → ℤ → Timer
timer_of e v num = record {
  expires = pos (e * ticks_per_second);
  variation = pos (v * ticks_per_second);
  num_executions = num;
}

module _ (e v : ℕ) (he : e ≤ 86400) (hv : v ≤ 86400) where
  pub timer_text-clock :
      (num : ℤ)
      → timer_text (timer_of e v num)
        ≡ ok (repetition_prefix num ++ (codes "PT" ++ clock e (tail v)))
  timer_text-clock num = ground (arith, whole_text e he, variation_text-tail v hv)

-- Where the `A` of a variation stands, if there is one.
abbrev mark : ℕ → ℕ → ℕ
mark zero at = npos
mark (suc v) at = at

mark_lem : (e v i : ℕ) → e ≤ 86400 → or_npos (index_from b'A' (clock e (tail v)) i) ≡ mark v (8 + i)
mark_lem e zero i h = ap or_npos (index_from-clock b'A' e [] i (omega arith) h)
mark_lem e (suc v) i h =
    ap or_npos (index_from-clock b'A' e (tail (suc v)) i (omega arith) h) ∙ omega arith

-- The three forms of the text, with the places of the marks.
once_at :
    (e v : ℕ)
    → e ≤ 86400
    → v ≤ 86400
    → parse_timer_at 2 (mark v 10) b'P' (codes "PT" ++ clock e (tail v))
      ≡ ok (timer (timer_of e v (pos 1)))
once_at e zero he hv = rw (parse_duration-clock e [] he)
once_at e (suc v) he hv = rw (parse_duration-clock e [] he, parse_duration-clock (suc v) [] hv)

forever_at :
    (e v : ℕ)
    → e ≤ 86400
    → v ≤ 86400
    → parse_timer_at 4 (mark v 12) b'R' (codes "R/PT" ++ clock e (tail v))
      ≡ ok (timer (timer_of e v (pos 0)))
forever_at e zero he hv = rw (parse_duration-clock e [] he)
forever_at e (suc v) he hv = rw (parse_duration-clock e [] he, parse_duration-clock (suc v) [] hv)

-- The forms with two and with three digits: only two are read.
two_at :
    (a b e v : ℕ)
    → a < 10
    → b < 10
    → e ≤ 86400
    → v ≤ 86400
    → parse_timer_at 6
        (mark v 14)
        b'R'
        (b'R' ∷ digit a ∷ digit b ∷ (codes "/PT" ++ clock e (tail v)))
      ≡ ok (timer (timer_of e v (pos (a * 10 + b))))
two_at a b e zero ha hb he hv = ground (arith, stoi_two a b ha hb, parse_duration-clock e [] he)
two_at a b e (suc v) ha hb he hv =
    ground
      (arith, stoi_two a b ha hb, parse_duration-clock e [] he, parse_duration-clock (suc v) [] hv)

three_at :
    (a b c e v : ℕ)
    → a < 10
    → b < 10
    → e ≤ 86400
    → v ≤ 86400
    → parse_timer_at 7
        (mark v 15)
        b'R'
        (b'R' ∷ digit a ∷ digit b ∷ digit c ∷ (codes "/PT" ++ clock e (tail v)))
      ≡ ok (timer (timer_of e v (pos (a * 10 + b))))
three_at a b c e zero ha hb he hv = ground (arith, stoi_two a b ha hb, parse_duration-clock e [] he)
three_at a b c e (suc v) ha hb he hv =
    ground
      (arith, stoi_two a b ha hb, parse_duration-clock e [] he, parse_duration-clock (suc v) [] hv)

parse_timer_from :
    (front : ℕ) (s : Bytes) (t a : ℕ) {r : Result TimePattern}
    → find s b'T' ≡ t
    → find s b'A' ≡ a
    → parse_timer_at (add_size t 1) a front s ≡ r
    → parse_timer front s ≡ r
unfolding parse_timer
parse_timer_from front s t a ht ha h =
    ap₂ (λ t a. parse_timer_at (add_size t 1) a front s) ht ha ∙ h

find-two :
    (a b : ℕ) (rest : Bytes)
    → a < 10
    → b < 10
    → (find (b'R' ∷ digit a ∷ digit b ∷ (codes "/PT" ++ rest)) b'T' ≡ 5)
      × (find (b'R' ∷ digit a ∷ digit b ∷ (codes "/PT" ++ rest)) b'A'
          ≡ or_npos (index_from b'A' rest 6))
find-two a b rest ha hb = (ground arith, ground arith)

find-three :
    (a b c : ℕ) (rest : Bytes)
    → a < 10
    → b < 10
    → c < 10
    → (find (b'R' ∷ digit a ∷ digit b ∷ digit c ∷ (codes "/PT" ++ rest)) b'T' ≡ 6)
      × (find (b'R' ∷ digit a ∷ digit b ∷ digit c ∷ (codes "/PT" ++ rest)) b'A'
          ≡ or_npos (index_from b'A' rest 7))
find-three a b c rest ha hb hc = (ground arith, ground arith)

pub parse_once :
    (e v : ℕ)
    → e ≤ 86400
    → v ≤ 86400
    → parse_timer b'P' (codes "PT" ++ clock e (tail v)) ≡ ok (timer (timer_of e v (pos 1)))
parse_once e v he hv =
    parse_timer_from b'P' (codes "PT" ++ clock e (tail v)) 1 (mark v 10) refl (mark_lem e v 2 he)
      (once_at e v he hv)

pub parse_forever :
    (e v : ℕ)
    → e ≤ 86400
    → v ≤ 86400
    → parse_timer b'R' (codes "R/PT" ++ clock e (tail v)) ≡ ok (timer (timer_of e v (pos 0)))
parse_forever e v he hv =
    parse_timer_from b'R' (codes "R/PT" ++ clock e (tail v)) 3 (mark v 12) refl (mark_lem e v 4 he)
      (forever_at e v he hv)

pub parse_two :
    (a b e v : ℕ)
    → a < 10
    → b < 10
    → e ≤ 86400
    → v ≤ 86400
    → parse_timer b'R' (b'R' ∷ digit a ∷ digit b ∷ (codes "/PT" ++ clock e (tail v)))
      ≡ ok (timer (timer_of e v (pos (a * 10 + b))))
parse_two a b e v ha hb he hv =
    let (t, m) = find-two a b (clock e (tail v)) ha hb in
    parse_timer_from b'R' _ 5 (mark v 14) t (m ∙ mark_lem e v 6 he) (two_at a b e v ha hb he hv)

pub parse_three :
    (a b c e v : ℕ)
    → a < 10
    → b < 10
    → c < 10
    → e ≤ 86400
    → v ≤ 86400
    → parse_timer b'R' (b'R' ∷ digit a ∷ digit b ∷ digit c ∷ (codes "/PT" ++ clock e (tail v)))
      ≡ ok (timer (timer_of e v (pos (a * 10 + b))))
parse_three a b c e v ha hb hc he hv =
    let (t, m) = find-three a b c (clock e (tail v)) ha hb hc in
    parse_timer_from b'R' _ 6 (mark v 15) t (m ∙ mark_lem e v 7 he) (three_at a b c e v ha hb he hv)
