-- ===== src/Validation.antt =====
-- `validatePUTReply` and `floatEquals` of src/Utils.cpp and include/hueplusplus/Utils.h: whether the reply to a PUT request
-- confirms it. What is printed for a value that differs is not modelled.
pub mod Near
pub mod Matches
pub mod Confirmed
pub mod Examples
use hueplusplus.Base.{
  ℕ, suc, List, [], ◌∷◌, ◌++◌, Bool, true, false, ◌&&◌, ◌||◌, Option, none, some, Bytes, codes,
  bytes_eq, ◌==◌, drop, length, if◌then◌else◌, Result, ok, err, Error, ◌>>=◌,
}
use hueplusplus.Base.Int.{ℤ}
use hueplusplus.Std.Text.{begins_with}
use hueplusplus.Json.{JsonLib, or_throw}

-- The operations of `float` that the sources use.
pub record Floats (J : JsonLib) : Type 0 where
  pub zero : J.Float
  pub one : J.Float
  pub half : J.Float
  pub minus_half : J.Float
  pub ten_thousandth : J.Float
  -- `<` and `<=`
  pub lt : J.Float → J.Float → Bool
  pub le : J.Float → J.Float → Bool
  pub sub : J.Float → J.Float → J.Float
  pub abs : J.Float → J.Float
  -- `static_cast<int>(std::round(x * 254.f))`
  pub round_254 : J.Float → ℤ
  -- `n / 254.f`
  pub over_254 : ℤ → J.Float
  -- `n / 255.f`
  pub over_255 : ℤ → J.Float

-- `std::string(path)`, with a slash at its end; `back()` of an empty text is undefined.
unfoldable pub with_slash : Bytes → Result Bytes
with_slash [] = err Error.unspecified
with_slash (c ∷ []) = ok (if c == b'/' then c ∷ [] else c ∷ b'/' ∷ [])
with_slash (c ∷ d ∷ rest) = with_slash (d ∷ rest) >>= λ s. ok (c ∷ s)

module _ (J : JsonLib) (F : Floats J) where
  -- `floatEquals`: the difference is at most 1E-4f.
  abbrev pub float_equals : J.Float → J.Float → Bool
  float_equals a b = F.le (F.abs (F.sub a b)) F.ten_thousandth

  -- `floatEquals` of two numbers of two arrays
  abbrev pub same_at : J.Json → J.Json → ℕ → Result Bool
  same_at a b i = do
    x ← or_throw (J.float_at a i)
    y ← or_throw (J.float_at b i)
    ok (float_equals x y)

  abbrev pub same_xy : J.Json → J.Json → Result Bool
  same_xy a b = same_at a b 0 >>= λ same. if same then same_at a b 1 else ok false

  abbrev is_updated : J.Json → Bool
  is_updated v = J.is_text v && J.equal v (J.of_text (codes "Updated."))

  -- One entry of a success object.
  unfoldable pub confirms : Bytes → J.Json → Bytes × J.Json → Result Bool
  confirms prefix request (path, v) =
      if begins_with prefix path
      then elim (J.find request (drop (length prefix) path)) [
        | none ↦ ok false
        | some r ↦
            if bytes_eq (drop (length prefix) path) (codes "xy")
            then same_xy r v
            else ok (J.equal r v || is_updated v)
      ]
      else ok false

  -- The loop over a success object, with `success` before it.
  unfoldable pub last_confirms : Bytes → J.Json → Bool → List (Bytes × J.Json) → Result Bool
  last_confirms prefix request success [] = ok success
  last_confirms prefix request success (entry ∷ rest) =
      confirms prefix request entry >>= λ s. last_confirms prefix request s rest

  abbrev all_entries : Bytes → J.Json → Option (List (Bytes × J.Json)) → Result Bool
  all_entries prefix request none = err Error.json_exception
  all_entries prefix request (some es) = last_confirms prefix request true es

  -- One value of the reply.
  unfoldable pub succeeds : Bytes → J.Json → J.Json → Result Bool
  succeeds prefix request v = elim (J.find v (codes "success")) [
    | none ↦ ok false
    | some s ↦ all_entries prefix request (J.entries s)
  ]

  -- The loop over the reply, which ends at the first value that is no success.
  unfoldable pub all_succeed : Bytes → J.Json → Bool → List J.Json → Result Bool
  all_succeed prefix request success [] = ok success
  all_succeed prefix request success (v ∷ vs) =
      let rest = all_succeed prefix request true vs in
      succeeds prefix request v >>= λ s. if s then rest else ok false

  -- `validatePUTReply`
  unfoldable pub validate_put_reply : Bytes → J.Json → J.Json → Result Bool
  validate_put_reply path request reply =
      with_slash path >>= λ prefix. all_succeed prefix request false (J.elements reply)
