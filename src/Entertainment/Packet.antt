-- ===== src/Entertainment/Packet.antt =====
-- The message of the entertainment mode as the colours of the lights.
use hueplusplus.Base.{
  ℕ, zero, suc, ◌+◌, ◌*◌, ◌%◌, ◌≡◌, ok, err, Error, Result, ◌>>=◌, refl, sym, ap, subst, ◌∙◌, arith,
  List, [], ◌∷◌, ◌++◌, map, Bool, true, false, Bytes, length, take, replicate, ltb, if◌then◌else◌,
  length-append, ◌≤◌,
}
use hueplusplus.Base.Int.{ℤ}
use mathlib.Core.List.{append_assoc}
use hueplusplus.Json.{JsonLib}
use hueplusplus.Bridge.{Bridge, Handler, start_streaming}
use hueplusplus.Groups.{get_light_ids}
use hueplusplus.Std.Number.{to_string}
use hueplusplus.Entertainment.{
  Mode, create, is_zero, header, header_size, light_size, overwrite, put_at, high_byte, low_byte,
  fill, first_message, set_color_rgb,
}

-- What a message says of a light.
pub record LightColor : Type 0 where
  pub id : ℤ
  pub red : ℕ
  pub green : ℕ
  pub blue : ℕ

abbrev pub dark : ℤ → LightColor
dark id = record { id = id; red = 0; green = 0; blue = 0 }

-- The nine bytes of a light: its type, its id, and each colour as the two bytes of one value.
abbrev pub encode : LightColor → Bytes
encode l =
    0 ∷ high_byte l.id ∷ low_byte l.id ∷ l.red ∷ l.red ∷ l.green ∷ l.green ∷ l.blue ∷ l.blue ∷ []

abbrev pub encode_all : List LightColor → Bytes
encode_all [] = []
encode_all (l ∷ ls) = encode l ++ encode_all ls

abbrev pub packet : List LightColor → Bytes
packet ls = header ++ encode_all ls

-- The light of an index gets a colour.
abbrev pub paint : ℕ → ℕ → ℕ → ℕ → List LightColor → List LightColor
paint index red green blue [] = []
paint zero red green blue (l ∷ ls) = record l { red = red; green = green; blue = blue } ∷ ls
paint (suc index) red green blue (l ∷ ls) = l ∷ paint index red green blue ls

put_at-skip :
    (xs bs message : Bytes) (k n : ℕ)
    → n ≡ length xs + k
    → put_at n bs (xs ++ message) ≡ xs ++ put_at k bs message
put_at-skip [] bs message k n e = ap (λ m. put_at m bs message) (omega (arith, e))
put_at-skip (x ∷ xs) bs message k zero e = absurd (omega (arith, e))
put_at-skip (x ∷ xs) bs message k (suc n) e =
    ap (λ s. x ∷ s) (put_at-skip xs bs message k n (omega (arith, e)))

overwrite-append : (bs ys zs : Bytes) → length ys ≡ length bs → overwrite bs (ys ++ zs) ≡ bs ++ zs
overwrite-append [] [] zs e = refl
overwrite-append [] (y ∷ ys) zs e = absurd (omega (arith, e))
overwrite-append (b ∷ bs) [] zs e = absurd (omega (arith, e))
overwrite-append (b ∷ bs) (y ∷ ys) zs e =
    ap (λ s. b ∷ s) (overwrite-append bs ys zs (omega (arith, e)))

put_at-nil : (n : ℕ) (bs : Bytes) → put_at n bs [] ≡ []
put_at-nil zero [] = refl
put_at-nil zero (b ∷ bs) = refl
put_at-nil (suc n) bs = refl

-- The colours of the light of an index are painted.
put_at-paint :
    (index red green blue : ℕ) (ls : List LightColor)
    → put_at (index * 9 + 3) (red ∷ red ∷ green ∷ green ∷ blue ∷ blue ∷ []) (encode_all ls)
      ≡ encode_all (paint index red green blue ls)
put_at-paint zero red green blue [] = refl
put_at-paint (suc index) red green blue [] =
    put_at-nil (suc index * 9 + 3) (red ∷ red ∷ green ∷ green ∷ blue ∷ blue ∷ [])
put_at-paint zero red green blue (l ∷ ls) = refl
put_at-paint (suc index) red green blue (l ∷ ls) =
    put_at-skip (encode l) _ (encode_all ls) (index * 9 + 3) (suc index * 9 + 3) (omega arith)
    ∙ ap (λ s. encode l ++ s) (put_at-paint index red green blue ls)

length-paint :
    (index red green blue : ℕ) (ls : List LightColor)
    → length (paint index red green blue ls) ≡ length ls
length-paint index red green blue [] = refl
length-paint zero red green blue (l ∷ ls) = refl
length-paint (suc index) red green blue (l ∷ ls) = ap suc (length-paint index red green blue ls)

paint_outside :
    (index red green blue : ℕ) (ls : List LightColor)
    → ltb index (length ls) ≡ false
    → paint index red green blue ls ≡ ls
paint_outside index red green blue [] out = refl
paint_outside zero red green blue (l ∷ ls) out = ground (arith, out)
paint_outside (suc index) red green blue (l ∷ ls) out =
    ap (λ s. l ∷ s) (paint_outside index red green blue ls (ground (arith, out)))

-- The loop writes the lights behind what is written.
fill-encode_all :
    (index : ℕ) (ids : List ℤ) (written : Bytes)
    → length written ≡ 16 + index * 9
    → fill index ids (written ++ replicate (length ids * 9) 0)
      ≡ written ++ encode_all (map dark ids)
unfolding fill
fill-encode_all index [] written size = refl
fill-encode_all index (id ∷ ids) written size =
    ap (fill (suc index) ids) (
      put_at-skip written (encode (dark id)) (replicate (suc (length ids) * 9) 0) 0 (16 + index * 9)
        (omega (arith, size))
      ∙ ap (λ n. written ++ overwrite (encode (dark id)) (replicate n 0)) (nine (length ids))
      ∙ sym (append_assoc written (encode (dark id)) (replicate (length ids * 9) 0)))
    ∙ fill-encode_all (suc index) ids (written ++ encode (dark id))
        (omega (arith, size, length-append written (encode (dark id))))
    ∙ append_assoc written (encode (dark id)) (encode_all (map dark ids))
  where
    nine : (n : ℕ) → suc n * 9 ≡ suc (suc (suc (suc (suc (suc (suc (suc (suc (n * 9)))))))))
    nine n = omega arith

length-take : (n : ℕ) (ids : List ℤ) → n ≤ length ids → length (take n ids) ≡ n
length-take zero ids h = refl
length-take (suc n) [] h = absurd (omega arith)
length-take (suc n) (id ∷ ids) h = ap suc (length-take n ids (omega arith))

first_message-packet :
    (ids : List ℤ) → first_message ids ≡ packet (map dark (take (length ids % 256) ids))
unfolding first_message
first_message-packet ids =
    filled (length ids % 256) (length-take (length ids % 256) ids (omega arith))
  where
    spread :
        (n : ℕ)
        → header_size + n * light_size
          ≡ suc (
              suc (
                suc (
                  suc (
                    suc
                      (suc (suc (suc (suc (suc (suc (suc (suc (suc (suc (suc (n * 9))))))))))))))))
    spread n = omega arith

    filled :
        (n : ℕ)
        → length (take n ids) ≡ n
        → fill 0 (take n ids) (put_at 0 header (replicate (header_size + n * light_size) 0))
          ≡ packet (map dark (take n ids))
    filled n size =
        ap (λ k. fill 0 (take n ids) (overwrite header (replicate k 0))) (spread n)
        ∙ ap (λ k. fill 0 (take n ids) (header ++ replicate (k * 9) 0)) (sym size)
        ∙ fill-encode_all 0 (take n ids) header refl

length-map : (f : ℤ → LightColor) (ids : List ℤ) → length (map f ids) ≡ length ids
length-map f [] = refl
length-map f (id ∷ ids) = ap suc (length-map f ids)

-- What the message of a mode says.
pub record Says (m : Mode) (ls : List LightColor) : Type 0 where
  pub message_is : m.message ≡ packet ls
  pub lights : m.num_lights ≡ length ls

module _ (J : JsonLib) (H : Handler J) (refresh_duration : ℤ) where
  -- If the constructor returns, the message names the lights of the group in their order, all of
  -- them dark, but of 256 lights or more only the first of their number modulo 256.
  pub create-Says :
      (seed : ℤ) (b : Bridge) (id : ℤ) (state : J.Json) (ids : List ℤ) (m : Mode)
      → get_light_ids J state ≡ ok ids
      → create J H refresh_duration seed b id state ≡ ok m
      → Says m (map dark (take (length ids % 256) ids))
  unfolding create
  create-Says seed b id state ids m read made =
      subst (λ x. Says x (map dark (take (length ids % 256) ids)))
        (by_start (start_streaming J H refresh_duration b (to_string id)) made)
        (record {
          message_is = first_message-packet ids;
          lights = sym (
              length-map dark (take (length ids % 256) ids)
              ∙ length-take (length ids % 256) ids (omega arith));
        })
    where
      made_of : List ℤ → Mode
      made_of is = record {
        bridge = b;
        group_id = id;
        message = first_message is;
        num_lights = length is % 256;
      }

      by_seed :
          (z : Bool)
          → (if z then ok (made_of ids) else err Error.hue_exception) ≡ ok m
          → made_of ids ≡ m
      by_seed true e = cc
      by_seed false e = cc

      by_start :
          (r : Result Bool)
          → (r >>= λ _. get_light_ids J state >>= λ is.
              if is_zero seed then ok (made_of is) else err Error.hue_exception)
            ≡ ok m
          → made_of ids ≡ m
      by_start (ok _) e = by_seed (is_zero seed) (rw read at e)
      by_start (err x) e = cc

-- setColorRGB gives true exactly if the index is that of a light, and then the message has the
-- colour at that light, each value twice, and is else as before; for any other index all of it is
-- as before.
pub set_color_rgb-Says :
    (index red green blue : ℕ) (m : Mode) (ls : List LightColor)
    → Says m ls
    → ((set_color_rgb index red green blue m).0 ≡ ltb index (length ls))
      × Says (set_color_rgb index red green blue m).1 (paint index red green blue ls)
unfolding set_color_rgb
set_color_rgb-Says index red green blue m ls says =
    ground
      (arith, painted, paint_outside index red green blue ls, length-paint index red green blue ls)
  where
    painted :
        put_at
          (header_size + index * light_size + 3)
          (red ∷ red ∷ green ∷ green ∷ blue ∷ blue ∷ [])
          m.message
        ≡ packet (paint index red green blue ls)
    painted =
        ap
          (put_at (header_size + index * light_size + 3)
            (red ∷ red ∷ green ∷ green ∷ blue ∷ blue ∷ []))
          says.message_is
        ∙ put_at-skip header _ (encode_all ls) (index * 9 + 3)
            (header_size + index * light_size + 3) (omega arith)
        ∙ ap (λ s. header ++ s) (put_at-paint index red green blue ls)
