-- ===== src/Colors/Range.antt =====
-- The ranges of hue and saturation.
use hueplusplus.Base.{
  ℕ, zero, suc, ◌+◌, ◌-◌, ◌^◌, ◌<◌, ◌≤◌, ◌≡◌, refl, ap, subst, ◌∙◌, arith, Bool, true, false, min,
  max, ◌==◌, if◌then◌else◌,
}
use hueplusplus.Base.Int.{ℤ, pos, negsuc, sub_ℕ, neg_ℕ, ◌≤ℤ◌}
use hueplusplus.Colors.{FloatOps, Rgb, rem, to_hue_saturation, sector}

-- Documented behaviour of floats: rounded operations are monotone, and exact where the operands and the
-- result are integers below 2 ^ 24.
pub record RangeLaws (F : FloatOps) : Type 1 where
  pub Le : F.Float → F.Float → Type 0
  pub div_most :
      (a : ℤ) (d : ℕ)
      → 0 < d
      → a ≤ℤ pos d
      → Le (F.div (F.of_int a) (F.of_int (pos d))) (F.of_int (pos 1))
  pub div_least :
      (a : ℤ) (d : ℕ)
      → 0 < d
      → neg_ℕ d ≤ℤ a
      → Le (F.of_int (negsuc 0)) (F.div (F.of_int a) (F.of_int (pos d)))
  pub div_positive :
      (n d : ℕ) → 0 < d → Le (F.of_int (pos 0)) (F.div (F.of_int (pos n)) (F.of_int (pos d)))
  pub mul_mono_left :
      (k : ℕ) (x y : F.Float)
      → Le x y
      → Le (F.mul (F.of_int (pos k)) x) (F.mul (F.of_int (pos k)) y)
  pub mul_mono_right :
      (k : ℕ) (x y : F.Float)
      → Le x y
      → Le (F.mul x (F.of_int (pos k))) (F.mul y (F.of_int (pos k)))
  pub mul-one :
      (k : ℕ) → k < 2 ^ 24 → F.mul (F.of_int (pos k)) (F.of_int (pos 1)) ≡ F.of_int (pos k)
  pub mul-minus_one :
      (k : ℕ) → k < 2 ^ 24 → F.mul (F.of_int (pos k)) (F.of_int (negsuc 0)) ≡ F.of_int (neg_ℕ k)
  pub one-mul :
      (k : ℕ) → k < 2 ^ 24 → F.mul (F.of_int (pos 1)) (F.of_int (pos k)) ≡ F.of_int (pos k)
  pub zero-mul : (k : ℕ) → F.mul (F.of_int (pos 0)) (F.of_int (pos k)) ≡ F.of_int (pos 0)
  pub add_mono :
      (x y : F.Float) (c : ℕ)
      → Le x y
      → Le (F.add x (F.of_int (pos c))) (F.add y (F.of_int (pos c)))
  pub add_exact :
      (k c : ℕ)
      → k + c < 2 ^ 24
      → F.add (F.of_int (pos k)) (F.of_int (pos c)) ≡ F.of_int (pos (k + c))
  pub add_less :
      (k c : ℕ)
      → k ≤ c
      → c < 2 ^ 24
      → F.add (F.of_int (neg_ℕ k)) (F.of_int (pos c)) ≡ F.of_int (pos (c - k))
  pub trunc_mono : (x y : F.Float) → Le x y → F.trunc x ≤ℤ F.trunc y
  pub trunc_exact : (n : ℕ) → n < 2 ^ 24 → F.trunc (F.of_int (pos n)) ≡ pos n
  pub round_mono : (x y : F.Float) → Le x y → F.round x ≤ℤ F.round y
  pub round_exact : (n : ℕ) → n < 2 ^ 24 → F.round (F.of_int (pos n)) ≡ pos n

pub record Between (low high : ℕ) (z : ℤ) : Type 0 where
  pub least : pos low ≤ℤ z
  pub most : z ≤ℤ pos high

if-Between :
    {low high : ℕ} {x y : ℤ} (b : Bool)
    → (b ≡ true → Between low high x)
    → (b ≡ false → Between low high y)
    → Between low high (if b then x else y)
if-Between true p q = p refl
if-Between false p q = q refl

rem-Between : (low high : ℕ) (z : ℤ) → Between low high z → Between 0 65534 (rem z 65535)
rem-Between low high (pos n) h = omega arith
rem-Between low high (negsuc n) h = absurd (omega arith)

sub_ℕ_bounds : (a b d : ℕ) → a ≤ b + d → b ≤ a + d → (sub_ℕ a b ≤ℤ pos d) × (neg_ℕ d ≤ℤ sub_ℕ a b)
sub_ℕ_bounds a b zero p q = ground arith
sub_ℕ_bounds a b (suc d) p q = ground arith

module _ (F : FloatOps) (laws : RangeLaws F) where
  -- A value up to one or down to minus one, times a width, behind a start.
  shifted-Between :
      (width start : ℕ) (x : F.Float)
      → width ≤ start
      → width + start < 2 ^ 24
      → laws.Le x (F.of_int (pos 1))
      → laws.Le (F.of_int (negsuc 0)) x
      → Between
          (start - width)
          (width + start)
          (F.trunc (F.add (F.mul (F.of_int (pos width)) x) (F.of_int (pos start))))
  shifted-Between width start x low small most least = record {
    least =
        subst (λ z. z ≤ℤ F.trunc (F.add (F.mul (F.of_int (pos width)) x) (F.of_int (pos start))))
          (ap (λ y. F.trunc (F.add y (F.of_int (pos start))))
              (laws.mul-minus_one width (omega arith))
            ∙ ap F.trunc (laws.add_less width start low (omega arith))
            ∙ laws.trunc_exact (start - width) (omega arith))
          (laws.trunc_mono _ _ (laws.add_mono _ _ start (laws.mul_mono_left width _ _ least)));
    most =
        subst (λ z. F.trunc (F.add (F.mul (F.of_int (pos width)) x) (F.of_int (pos start))) ≤ℤ z)
          (ap (λ y. F.trunc (F.add y (F.of_int (pos start)))) (laws.mul-one width (omega arith))
            ∙ ap F.trunc (laws.add_exact width start small)
            ∙ laws.trunc_exact (width + start) (omega arith))
          (laws.trunc_mono _ _ (laws.add_mono _ _ start (laws.mul_mono_left width _ _ most)));
  }

  sector-Between :
      (width a b d start : ℕ)
      → 0 < d
      → a ≤ b + d
      → b ≤ a + d
      → width ≤ start
      → width + start < 2 ^ 24
      → Between 0 65534 (sector F width a b d start)
  sector-Between width a b d start more p q low small =
      let (most, least) = sub_ℕ_bounds a b d p q in
      rem-Between (start - width) (width + start) _ (
        shifted-Between width start _ low small (laws.div_most (sub_ℕ a b) d more most)
          (laws.div_least (sub_ℕ a b) d more least))

  saturation-Between :
      (diff most : ℕ)
      → 0 < most
      → diff ≤ most
      → Between 0 254
          (F.round (F.mul (F.div (F.of_int (pos diff)) (F.of_int (pos most))) (F.of_int (pos 254))))
  saturation-Between diff most more low = record {
    least =
        subst
          (λ z.
            z
            ≤ℤ F.round
                (F.mul (F.div (F.of_int (pos diff)) (F.of_int (pos most))) (F.of_int (pos 254))))
          (ap F.round (laws.zero-mul 254) ∙ laws.round_exact 0 (omega arith))
          (laws.round_mono _ _ (laws.mul_mono_right 254 _ _ (laws.div_positive diff most more)));
    most =
        subst
          (λ z.
            F.round (F.mul (F.div (F.of_int (pos diff)) (F.of_int (pos most))) (F.of_int (pos 254)))
            ≤ℤ z)
          (ap F.round (laws.one-mul 254 (omega arith)) ∙ laws.round_exact 254 (omega arith))
          (laws.round_mono _ _
            (laws.mul_mono_right 254 _ _ (laws.div_most (pos diff) most more (omega arith))));
  }

  -- For every colour, toHueSaturation gives a hue from 0 to 65534, and a saturation from 0 to 254.
  -- The operations of floats are monotone, and exact on integers below 2 ^ 24.
  pub to_hue_saturation-Between :
      (c : Rgb)
      → Between 0 65534 (to_hue_saturation F c).hue
        × Between 0 254 (to_hue_saturation F c).saturation
  unfolding to_hue_saturation
  to_hue_saturation-Between c = (
    if-Between (most == least) (λ same. small (omega arith))
        (λ differ.
          if-Between (most == c.red)
            (λ is_red.
              sector-Between 9307 c.green c.blue (most - least) 65535 (ground (arith, differ))
                (omega arith) (omega arith) (omega arith) (omega arith))
            (λ not_red.
              if-Between (most == c.green)
                (λ is_green.
                  sector-Between 12750 c.blue c.red (most - least) 25500 (ground (arith, differ))
                    (omega arith) (omega arith) (omega arith) (omega arith))
                (λ not_green.
                  if-Between (most == c.blue)
                    (λ is_blue.
                      sector-Between 10710 c.red c.green (most - least) 46920
                        (ground (arith, differ)) (omega arith) (omega arith) (omega arith)
                        (omega arith))
                    (λ not_blue. absurd (ground (arith, not_red, not_green, not_blue)))))),
    if-Between (most == 0) (λ dark. small (omega arith))
        (λ bright. saturation-Between (most - least) most (ground (arith, bright)) (omega arith)),
  )
    where
      most : ℕ
      most = max c.red (max c.green c.blue)

      least : ℕ
      least = min c.red (min c.green c.blue)

      small : {high : ℕ} → 0 ≤ high → Between 0 high (pos 0)
      small h = record { least = omega arith; most = omega arith }
