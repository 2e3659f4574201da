-- ===== src/Std/Number/RoundTrip.antt =====
-- `std::stoi` reads back the digits of a number of two to four digits.
use hueplusplus.Base.{ℕ, ◌+◌, ◌*◌, ◌<◌, [], ◌∷◌, ◌≡◌, arith, ok}
use hueplusplus.Base.Int.{pos}
use hueplusplus.Std.Number.{stoi}
use hueplusplus.Std.Number.Print.{digit}

pub stoi_two : (a b : ℕ) → a < 10 → b < 10 → stoi (digit a ∷ digit b ∷ []) ≡ ok (pos (a * 10 + b))
unfolding stoi
stoi_two a b ha hb = ground arith

pub stoi_three :
    (a b c : ℕ)
    → a < 10
    → b < 10
    → c < 10
    → stoi (digit a ∷ digit b ∷ digit c ∷ []) ≡ ok (pos ((a * 10 + b) * 10 + c))
unfolding stoi
stoi_three a b c ha hb hc = ground arith

pub stoi_four :
    (a b c d : ℕ)
    → a < 10
    → b < 10
    → c < 10
    → d < 10
    → stoi (digit a ∷ digit b ∷ digit c ∷ digit d ∷ [])
      ≡ ok (pos (((a * 10 + b) * 10 + c) * 10 + d))
unfolding stoi
stoi_four a b c d ha hb hc hd = ground arith
