-- ===== src/Colors/Examples.antt =====
-- The theorems on colours at inputs, with floats that are rounded to integers.
use hueplusplus.Base.{
  ℕ, zero, suc, ◌+◌, ◌*◌, ◌/◌, ◌<◌, ◌≤◌, ◌^◌, ◌≡◌, refl, ap, ◌∙◌, ◌-◌, arith, not,
}
use hueplusplus.Base.Int.{
  ℤ, pos, negsuc, pos_part, neg_part, neg_ℕ, quot, scale, +ℤ_parts, ◌≤ℤ◌, ltb_ℤ, max_ℤ, ◌+ℤ◌, ◌-ℤ◌,
}
use hueplusplus.Colors.{FloatOps, Rgb, to_hue_saturation}
use hueplusplus.Colors.Range.{RangeLaws, Between, to_hue_saturation-Between}

abbrev opposite : ℤ → ℤ
opposite (pos n) = neg_ℕ n
opposite (negsuc n) = pos (suc n)

abbrev times : ℤ → ℤ → ℤ
times (pos k) z = scale k z
times (negsuc k) z = scale (suc k) (opposite z)

abbrev over : ℤ → ℤ → ℤ
over z (pos d) = quot z d
over z (negsuc d) = quot (opposite z) (suc d)

abbrev pub rounded : FloatOps
rounded = record {
  Float = ℤ;
  add = λ x y. x +ℤ y;
  sub = λ x y. x -ℤ y;
  mul = times;
  div = over;
  neg = opposite;
  power = λ x y. x;
  greater = max_ℤ;
  lt = ltb_ℤ;
  le = λ x y. not (ltb_ℤ y x);
  of_int = λ z. z;
  literal = λ m k. pos (m / 10 ^ k);
  trunc = λ x. x;
  round = λ x. x;
}

quotient_most : (n d : ℕ) → 0 < d → n ≤ d → n / d ≤ 1
quotient_most n d more low = grind arith

mul_mono : (m n k : ℕ) → m ≤ n → m * k ≤ n * k
mul_mono m n zero h = omega arith
mul_mono m n (suc k) h = omega (arith, mul_mono m n k h, h)

pos_part-neg_ℕ : (n : ℕ) → pos_part (neg_ℕ n) ≡ 0
pos_part-neg_ℕ zero = refl
pos_part-neg_ℕ (suc n) = refl

neg_part-neg_ℕ : (n : ℕ) → neg_part (neg_ℕ n) ≡ n
neg_part-neg_ℕ zero = refl
neg_part-neg_ℕ (suc n) = refl

scale_mono : (k : ℕ) (x y : ℤ) → x ≤ℤ y → scale k x ≤ℤ scale k y
scale_mono k (pos m) (pos n) h = omega (arith, mul_mono m n k (omega arith))
scale_mono k (pos m) (negsuc n) h = absurd (omega arith)
scale_mono k (negsuc m) (pos n) h = omega (arith, pos_part-neg_ℕ (suc m * k))
scale_mono k (negsuc m) (negsuc n) h = omega (
  arith,
  mul_mono (suc n) (suc m) k (omega arith),
  pos_part-neg_ℕ (suc m * k),
  pos_part-neg_ℕ (suc n * k),
  neg_part-neg_ℕ (suc m * k),
  neg_part-neg_ℕ (suc n * k),
)

quot_most : (a : ℤ) (d : ℕ) → 0 < d → a ≤ℤ pos d → quot a d ≤ℤ pos 1
quot_most (pos n) d more low = omega (arith, quotient_most n d more (omega arith))
quot_most (negsuc n) d more low = omega (arith, pos_part-neg_ℕ (suc n / d))

quot_least : (a : ℤ) (d : ℕ) → 0 < d → neg_ℕ d ≤ℤ a → negsuc 0 ≤ℤ quot a d
quot_least (pos n) d more low = omega arith
quot_least (negsuc n) d more low = omega (
  arith,
  quotient_most (suc n) d more (omega (arith, pos_part-neg_ℕ d, neg_part-neg_ℕ d, low)),
  neg_part-neg_ℕ (suc n / d),
)

scale-neg_ℕ : (c n : ℕ) → scale c (neg_ℕ n) ≡ neg_ℕ (n * c)
scale-neg_ℕ c zero = ground arith
scale-neg_ℕ c (suc n) = refl

pos_part-scale : (c n : ℕ) → pos_part (scale c (neg_ℕ n)) ≡ 0
pos_part-scale c n = ap pos_part (scale-neg_ℕ c n) ∙ pos_part-neg_ℕ (n * c)

neg_part-scale : (c n : ℕ) → neg_part (scale c (neg_ℕ n)) ≡ n * c
neg_part-scale c n = ap neg_part (scale-neg_ℕ c n) ∙ neg_part-neg_ℕ (n * c)

times_mono : (x y : ℤ) (k : ℕ) → x ≤ℤ y → times x (pos k) ≤ℤ times y (pos k)
times_mono (pos m) (pos n) k h = omega (arith, mul_mono m n k (omega arith))
times_mono (pos m) (negsuc n) k h = absurd (omega arith)
times_mono (negsuc m) (pos n) k h = omega (arith, pos_part-scale (suc m) k)
times_mono (negsuc m) (negsuc n) k h = omega (
  arith,
  mul_mono (suc n) (suc m) k (omega arith),
  pos_part-scale (suc m) k,
  pos_part-scale (suc n) k,
  neg_part-scale (suc m) k,
  neg_part-scale (suc n) k,
)

times-minus_one : (k : ℕ) → times (pos k) (negsuc 0) ≡ neg_ℕ k
times-minus_one k = ap neg_ℕ (omega arith)

add_less : (k c : ℕ) → k ≤ c → neg_ℕ k +ℤ pos c ≡ pos (c - k)
unfolding ◌+ℤ◌
add_less zero c low = ground arith
add_less (suc k) c low = ground arith

add_exact : (k c : ℕ) → pos k +ℤ pos c ≡ pos (k + c)
unfolding ◌+ℤ◌
add_exact k c = ground arith

add_mono : (x y : ℤ) (c : ℕ) → x ≤ℤ y → x +ℤ pos c ≤ℤ y +ℤ pos c
add_mono x y c low = omega (arith, +ℤ_parts x (pos c), +ℤ_parts y (pos c), low)

rounded_laws : RangeLaws rounded
rounded_laws = record {
  Le = ◌≤ℤ◌;
  div_most = quot_most;
  div_least = quot_least;
  div_positive = λ n d more. omega arith;
  mul_mono_left = scale_mono;
  mul_mono_right = λ k x y low. times_mono x y k low;
  mul-one = λ k low. ap pos (omega arith);
  mul-minus_one = λ k low. times-minus_one k;
  one-mul = λ k low. ap pos (omega arith);
  zero-mul = λ k. ap pos (omega arith);
  add_mono = add_mono;
  add_exact = λ k c low. add_exact k c;
  add_less = λ k c low small. add_less k c low;
  trunc_mono = λ x y low. low;
  trunc_exact = λ n low. refl;
  round_mono = λ x y low. low;
  round_exact = λ n low. refl;
}

abbrev orange : Rgb
orange = record { red = 255; green = 128; blue = 3 }

to_hue_saturation-Between_example :
    Between 0 65534 (to_hue_saturation rounded orange).hue
    × Between 0 254 (to_hue_saturation rounded orange).saturation
to_hue_saturation-Between_example = to_hue_saturation-Between rounded rounded_laws orange
