-- ===== src/Colors.antt =====
-- src/ColorUnits.cpp and include/hueplusplus/ColorUnits.h: colours in RGB, in CIE coordinates with the gamut of
-- a light, and by hue and saturation. Floats are a parameter, and one type stands for `float` and `double`.
pub mod Gamut
pub mod Range
pub mod Examples
use hueplusplus.Base.{
  ℕ, ◌+◌, ◌-◌, ◌%◌, ◌^◌, ◌<◌, Bool, true, false, not, ◌&&◌, min, max, ◌==◌, if◌then◌else◌, Result,
  ok, err, Error, ◌>>=◌, ltb,
}
use hueplusplus.Base.Int.{ℤ, pos, negsuc, sub_ℕ, ◌+ℤ◌, ltb_ℤ}
use hueplusplus.Lights.Color.{HueSaturation}

-- The operations of floats that the sources use.
pub record FloatOps : Type 1 where
  pub Float : Type 0
  pub add : Float → Float → Float
  pub sub : Float → Float → Float
  pub mul : Float → Float → Float
  pub div : Float → Float → Float
  pub neg : Float → Float
  pub power : Float → Float → Float
  -- `std::max`
  pub greater : Float → Float → Float
  -- `<` and `<=`
  pub lt : Float → Float → Bool
  pub le : Float → Float → Bool
  pub of_int : ℤ → Float
  -- The literal of m / 10 ^ k
  pub literal : ℕ → ℕ → Float
  -- `(int)x`, and `std::round` with the conversion to an `int`
  pub trunc : Float → ℤ
  pub round : Float → ℤ

pub record Rgb : Type 0 where
  pub red : ℕ
  pub green : ℕ
  pub blue : ℕ

-- `a % m` of C++, which has the sign of a.
abbrev pub rem : ℤ → ℕ → ℤ
rem (pos n) m = pos (n % m)
rem (negsuc n) m = sub_ℕ 0 ((n + 1) % m)

module _ (F : FloatOps) where
  open F use {Float, add, sub, mul, div, lt, le, of_int, literal}

  -- `XY`
  pub record Xy : Type 0 where
    pub x : Float
    pub y : Float

  -- `XYBrightness`
  pub record Shade : Type 0 where
    pub xy : Xy
    pub brightness : Float

  pub record ColorGamut : Type 0 where
    pub red_corner : Xy
    pub green_corner : Xy
    pub blue_corner : Xy

  abbrev sign : Xy → Xy → Xy → Float
  sign p0 p1 p2 = sub (mul (sub p0.x p2.x) (sub p1.y p2.y)) (mul (sub p1.x p2.x) (sub p0.y p2.y))

  unfoldable pub is_right_of : Xy → Xy → Xy → Bool
  is_right_of p p1 p2 = lt (sign p p1 p2) (of_int (pos 0))

  unfoldable pub project : Xy → Xy → Xy → Xy
  project p p1 p2 =
      let ab_x = sub p2.x p1.x in
      let ab_y = sub p2.y p1.y in
      let length_squared = add (mul ab_x ab_x) (mul ab_y ab_y) in
      let dot = add (mul (sub p.x p1.x) ab_x) (mul (sub p.y p1.y) ab_y) in
      record {
        x = add p1.x (div (mul ab_x dot) length_squared);
        y = add p1.y (div (mul ab_y dot) length_squared);
      }

  -- `ColorGamut::contains`
  unfoldable pub contains : ColorGamut → Xy → Bool
  contains g p =
      not (is_right_of p g.red_corner g.green_corner)
      && (not (is_right_of p g.green_corner g.blue_corner)
          && not (is_right_of p g.blue_corner g.red_corner))

  -- `ColorGamut::corrected`
  unfoldable pub corrected : ColorGamut → Xy → Xy
  corrected g p =
      if is_right_of p g.red_corner g.green_corner
      then if is_right_of p g.green_corner g.blue_corner
        then g.green_corner
        else if is_right_of p g.blue_corner g.red_corner
        then g.red_corner
        else project p g.red_corner g.green_corner
      else if is_right_of p g.green_corner g.blue_corner
      then if is_right_of p g.blue_corner g.red_corner
        then g.blue_corner
        else project p g.green_corner g.blue_corner
      else if is_right_of p g.blue_corner g.red_corner
      then project p g.blue_corner g.red_corner
      else p

  abbrev at : ℕ → ℕ → Xy
  at x y = record { x = literal x 4; y = literal y 4 }

  -- The gamuts of the Hue API
  abbrev pub gamut_a : ColorGamut
  gamut_a = record {
    red_corner = at 7040 2960;
    green_corner = at 2151 7106;
    blue_corner = at 1380 800;
  }

  abbrev pub gamut_b : ColorGamut
  gamut_b = record {
    red_corner = at 6750 3220;
    green_corner = at 4090 5180;
    blue_corner = at 1670 400;
  }

  abbrev pub gamut_c : ColorGamut
  gamut_c = record {
    red_corner = at 6920 3080;
    green_corner = at 1700 7000;
    blue_corner = at 1530 480;
  }

  abbrev pub max_gamut : ColorGamut
  max_gamut = record { red_corner = at 10000 0; green_corner = at 0 10000; blue_corner = at 0 0 }

  -- The gamma correction of a channel
  abbrev with_gamma : Float → Float
  with_gamma c =
      if lt (literal 4045 5) c
      then F.power (div (add c (literal 55 3)) (add (literal 1 0) (literal 55 3))) (literal 24 1)
      else div c (literal 1292 2)

  abbrev weighted : Float → Float → Float → Float → Float → Float → Float
  weighted a r b g c u = add (add (mul r a) (mul g b)) (mul u c)

  -- `RGB::toXY`
  unfoldable pub to_xy : Rgb → Shade
  to_xy c =
      if (c.red == 0) && ((c.green == 0) && (c.blue == 0))
      then record {
        xy = record { x = literal 32272673 8; y = literal 32902291 8 };
        brightness = literal 0 0;
      }
      else let red = div (of_int (pos c.red)) (literal 255 0) in
        let green = div (of_int (pos c.green)) (literal 255 0) in
        let blue = div (of_int (pos c.blue)) (literal 255 0) in
        let r = with_gamma red in
        let g = with_gamma green in
        let b = with_gamma blue in
        let cx = weighted (literal 664511 6) r (literal 154324 6) g (literal 162028 6) b in
        let cy = weighted (literal 283881 6) r (literal 668433 6) g (literal 47685 6) b in
        let cz = weighted (literal 88 6) r (literal 72310 6) g (literal 986039 6) b in
        record {
          xy = record { x = div cx (add (add cx cy) cz); y = div cy (add (add cx cy) cz) };
          brightness = F.greater (F.greater red green) blue;
        }

  -- `RGB::toXY` with a gamut
  unfoldable pub to_xy_in : ColorGamut → Rgb → Shade
  to_xy_in g c =
      let shade = to_xy c in
      if not (contains g shade.xy) then record shade { xy = corrected g shade.xy } else shade

  -- The sector of the hue behind a channel, of the difference of the other two.
  abbrev pub sector : ℕ → ℕ → ℕ → ℕ → ℕ → ℤ
  sector width a b diff start =
      rem
        (F.trunc (
          add (mul (of_int (pos width)) (div (of_int (sub_ℕ a b)) (of_int (pos diff))))
            (of_int (pos start))))
        65535

  -- `RGB::toHueSaturation`
  unfoldable pub to_hue_saturation : Rgb → HueSaturation
  to_hue_saturation c =
      let most = max c.red (max c.green c.blue) in
      let least = min c.red (min c.green c.blue) in
      let diff = most - least in
      record {
        hue =
            if most == least
            then pos 0
            else if most == c.red
            then sector 9307 c.green c.blue diff 65535
            else if most == c.green
            then sector 12750 c.blue c.red diff 25500
            else if most == c.blue
            then sector 10710 c.red c.green diff 46920
            else negsuc 0;
        saturation =
            if most == 0
            then pos 0
            else F.round (mul (div (of_int (pos diff)) (of_int (pos most))) (of_int (pos 254)));
      }

  abbrev without_gamma : Float → Float
  without_gamma c =
      if le c (literal 31308 7)
      then mul (literal 1292 2) c
      else sub
          (mul (add (literal 1 0) (literal 55 3)) (F.power c (div (literal 1 0) (literal 24 1))))
          (literal 55 3)

  -- `static_cast<uint8_t>(std::round(…))`, which is undefined for a value that is no byte.
  abbrev to_byte : ℤ → Result ℕ
  to_byte (pos n) = if ltb n 256 then ok n else err Error.unspecified
  to_byte (negsuc n) = err Error.unspecified

  abbrev scaled : Float → Float → Float → Result ℕ
  scaled c most brightness =
      to_byte
        (F.round (F.greater (literal 0 0) (mul (mul (div c most) brightness) (literal 255 0))))

  abbrev black : Rgb
  black = record { red = 0; green = 0; blue = 0 }

  -- `RGB::fromXY`
  unfoldable pub from_xy : Shade → Result Rgb
  from_xy s =
      if lt s.brightness (literal 1 4)
      then ok black
      else let z = sub (sub (literal 1 0) s.xy.x) s.xy.y in
        let cy = literal 3 1 in
        let cx = mul (div cy s.xy.y) s.xy.x in
        let cz = mul (div cy s.xy.y) z in
        let r = without_gamma (
          sub (sub (mul cx (literal 1656492 6)) (mul cy (literal 354851 6)))
            (mul cz (literal 255038 6))) in
        let g = without_gamma (
          add (add (mul (F.neg cx) (literal 707196 6)) (mul cy (literal 1655397 6)))
            (mul cz (literal 36152 6))) in
        let b = without_gamma (
          add (sub (mul cx (literal 51713 6)) (mul cy (literal 121364 6)))
            (mul cz (literal 1011530 6))) in
        let most = F.greater (F.greater r g) b in
        (if lt most (literal 1 4)
          then ok black
          else (scaled r most s.brightness >>= λ red. scaled g most s.brightness >>= λ green.
              scaled b most s.brightness >>= λ blue.
              ok (record { red = red; green = green; blue = blue })))

  -- `RGB::fromXY` with a gamut
  unfoldable pub from_xy_in : ColorGamut → Shade → Result Rgb
  from_xy_in g s =
      if contains g s.xy
      then from_xy s
      else from_xy (record { xy = corrected g s.xy; brightness = s.brightness })

  -- An `unsigned int` of the rounded quotient, which is undefined outside the range of an `int`.
  abbrev million_by : ℕ → Result ℕ
  million_by n = elim (F.round (div (literal 1000000 0) (of_int (pos n)))) [
    | pos k ↦ if ltb k (2 ^ 31) then ok k else err Error.unspecified
    | negsuc k ↦ err Error.unspecified
  ]

  abbrev pub kelvin_to_mired : ℕ → Result ℕ
  kelvin_to_mired kelvin = million_by kelvin

  abbrev pub mired_to_kelvin : ℕ → Result ℕ
  mired_to_kelvin mired = million_by mired
