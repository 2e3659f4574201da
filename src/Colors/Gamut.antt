-- ===== src/Colors/Gamut.antt =====
-- What a gamut does to a colour.
use hueplusplus.Base.{◌≡◌, ◌⊎◌, inl, inr, ◌&&◌, refl, arith, Bool, true, false, not, if◌then◌else◌}
use hueplusplus.Base.Int.{pos}
use hueplusplus.Colors.{
  FloatOps, Rgb, Xy, Shade, ColorGamut, is_right_of, project, contains, corrected, to_xy, to_xy_in,
  from_xy, from_xy_in,
}

module _ (F : FloatOps) where
  -- The cross product tells on which side of the line from a to b a point lies: whether it is the
  -- outer one, for an edge of a gamut.
  abbrev pub IsOutside : Bool → Xy F → Xy F → Xy F → Type 0
  IsOutside outside p a b =
      F.lt (F.sub (F.mul (F.sub p.x b.x) (F.sub a.y b.y)) (F.mul (F.sub a.x b.x) (F.sub p.y b.y)))
        (F.of_int (pos 0))
      ≡ outside

  -- q is the foot of the perpendicular from p on the line from a to b: it is a, and as much of
  -- b - a as the scalar product of p - a and b - a is of the square of b - a.
  abbrev pub IsFoot : Xy F → Xy F → Xy F → Xy F → Type 0
  IsFoot p q a b =
      let dot =
        F.add (F.mul (F.sub p.x a.x) (F.sub b.x a.x)) (F.mul (F.sub p.y a.y) (F.sub b.y a.y)) in
      let square =
        F.add (F.mul (F.sub b.x a.x) (F.sub b.x a.x)) (F.mul (F.sub b.y a.y) (F.sub b.y a.y)) in
      (q.x ≡ F.add a.x (F.div (F.mul (F.sub b.x a.x) dot) square))
      × (q.y ≡ F.add a.y (F.div (F.mul (F.sub b.y a.y) dot) square))

  -- An edge alone has a point on its outer side, and the point is projected onto its line.
  abbrev pub Beside : Xy F → Xy F → Xy F → Xy F → Xy F → Type 0
  Beside p q first second third =
      IsOutside true p first second
      × IsOutside false p second third
      × IsOutside false p third first
      × IsFoot p q first second

  -- A corner has a point on the outer side of both of its edges.
  abbrev pub Behind : Xy F → Xy F → Xy F → Xy F → Xy F → Type 0
  Behind p q before corner next =
      IsOutside true p before corner × IsOutside true p corner next × (q ≡ corner)

  -- No edge has a point on its outer side, and the point stays.
  abbrev pub Inside : Xy F → Xy F → Xy F → Xy F → Xy F → Type 0
  Inside p q first second third =
      IsOutside false p first second
      × IsOutside false p second third
      × IsOutside false p third first
      × (q ≡ p)

  -- What q is for p, in a gamut of three corners.
  abbrev pub Corrects : ColorGamut F → Xy F → Xy F → Type 0
  Corrects g p q =
      Inside p q g.red_corner g.green_corner g.blue_corner
      ⊎ (Behind p q g.red_corner g.green_corner g.blue_corner
          ⊎ (Behind p q g.green_corner g.blue_corner g.red_corner
              ⊎ (Behind p q g.blue_corner g.red_corner g.green_corner
                  ⊎ (Beside p q g.red_corner g.green_corner g.blue_corner
                      ⊎ (Beside p q g.green_corner g.blue_corner g.red_corner
                          ⊎ Beside p q g.blue_corner g.red_corner g.green_corner)))))

  -- The tests of the two sides of each edge are told from the rest.
  module _ (g : ColorGamut F) (p : Xy F) where
    abbrev by_sides : Bool → Bool → Bool → Xy F
    by_sides red green blue =
        if red
        then if green
          then g.green_corner
          else if blue
          then g.red_corner
          else project F p g.red_corner g.green_corner
        else if green
        then if blue then g.blue_corner else project F p g.green_corner g.blue_corner
        else if blue
        then project F p g.blue_corner g.red_corner
        else p

    pub sides-Corrects :
        (red green blue : Bool)
        → is_right_of F p g.red_corner g.green_corner ≡ red
        → is_right_of F p g.green_corner g.blue_corner ≡ green
        → is_right_of F p g.blue_corner g.red_corner ≡ blue
        → Corrects g p (by_sides red green blue)
    unfolding is_right_of project
    sides-Corrects false false false r s t = inl (r, s, t, refl)
    sides-Corrects true true blue r s t = inr (inl (r, s, refl))
    sides-Corrects false true true r s t = inr (inr (inl (s, t, refl)))
    sides-Corrects true false true r s t = inr (inr (inr (inl (t, r, refl))))
    sides-Corrects true false false r s t = inr (inr (inr (inr (inl (r, s, t, (refl, refl))))))
    sides-Corrects false true false r s t =
        inr (inr (inr (inr (inr (inl (s, t, r, (refl, refl)))))))
    sides-Corrects false false true r s t =
        inr (inr (inr (inr (inr (inr (t, r, s, (refl, refl)))))))

  pub corrected-Corrects : (g : ColorGamut F) (p : Xy F) → Corrects g p (corrected F g p)
  unfolding corrected
  corrected-Corrects g p = sides-Corrects g p _ _ _ refl refl refl

  all_false :
      (a b c : Bool) → (not a && (not b && not c)) ≡ true → (a ≡ false) × (b ≡ false) × (c ≡ false)
  all_false a b c e = ground arith

  Inside-stays : (g : ColorGamut F) (p : Xy F) → contains F g p ≡ true → Corrects g p p
  unfolding contains is_right_of
  Inside-stays g p inside =
      let (r, s, t) =
        all_false (is_right_of F p g.red_corner g.green_corner)
          (is_right_of F p g.green_corner g.blue_corner)
          (is_right_of F p g.blue_corner g.red_corner) inside in
      inl (r, s, t, refl)

  -- toXY with a gamut keeps the brightness of toXY, and its point if that is on the outer side of no
  -- edge; else the point goes to a corner that has it on the outer side of both its edges, or is
  -- projected onto the line through the one edge that has it on its outer side.
  pub to_xy_in-Corrects :
      (g : ColorGamut F) (c : Rgb)
      → ((to_xy_in F g c).brightness ≡ (to_xy F c).brightness)
        × Corrects g (to_xy F c).xy (to_xy_in F g c).xy
  unfolding to_xy_in
  to_xy_in-Corrects g c = by_test (contains F g (to_xy F c).xy) refl
    where
      shade : Shade F
      shade = to_xy F c

      by_test :
          (b : Bool)
          → contains F g shade.xy ≡ b
          → ((if not b then record shade { xy = corrected F g shade.xy } else shade).brightness
              ≡ shade.brightness)
            × Corrects g shade.xy
                (if not b then record shade { xy = corrected F g shade.xy } else shade).xy
      by_test true inside = (refl, Inside-stays g shade.xy inside)
      by_test false outside = (refl, corrected-Corrects g shade.xy)

  -- fromXY with a gamut is fromXY of the point that toXY with a gamut would show.
  pub from_xy_in_lem :
      (g : ColorGamut F) (s : Shade F)
      → from_xy_in F g s ≡ from_xy F (record s { xy = corrected F g s.xy })
  unfolding from_xy_in contains corrected
  from_xy_in_lem g s = ground arith
