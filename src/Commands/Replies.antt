-- ===== src/Commands/Replies.antt =====
-- Which replies of the bridge are errors, and the paths of requests.
use hueplusplus.Base.{
  ℕ, List, [], ◌∷◌, true, false, Bytes, codes, ◌≡◌, ◌≢◌, refl, Result, ok, err, none, arith, ◌↔◌,
}
use hueplusplus.Json.{JsonLib, has}
use hueplusplus.Commands.{
  Method, Network, Line, ApiError, combined_path, create, throw_api, find_error, handle_error,
  throw_found, request,
}

module _ (J : JsonLib) where
  -- No value of the list has an error.
  abbrev pub NoErrors : List J.Json → Type 0
  NoErrors [] = Unit {0}
  NoErrors (v ∷ vs) = (has J v (codes "error") ≡ false) × NoErrors vs

  -- The reply has no error, and if it is an array, none of its values has.
  abbrev pub NoError : J.Json → Type 0
  NoError reply =
      (has J reply (codes "error") ≡ false)
      × (J.is_array reply ≡ true → NoErrors (J.elements reply))

  throw_api_never : (r : Result (ApiError J)) (v : J.Json) → throw_api J r ≢ ok v
  throw_api_never (ok e) v h = cc
  throw_api_never (err e) v h = cc

  found_ok :
      (vs : List J.Json) (reply v : J.Json)
      → throw_found J (find_error J vs) reply ≡ ok v
      → (v ≡ reply) × NoErrors vs
  unfolding find_error
  found_ok [] reply v h = ground arith
  found_ok (x ∷ xs) reply v h = ground (arith, found_ok xs reply v, throw_api_never (create J x) v)

  found_none : (vs : List J.Json) → NoErrors vs → find_error J vs ≡ none
  unfolding find_error
  found_none [] h = refl
  found_none (x ∷ xs) (h, hs) = ground (arith, found_none xs hs)

  -- HandleError gives a value back exactly if the reply has no entry "error" and, if it is an
  -- array, none of its values has one; the value is the reply itself. In all other cases an
  -- exception leaves it.
  pub handle_error-ok_iff :
      (reply v : J.Json) → (handle_error J reply ≡ ok v) ↔ ((v ≡ reply) × NoError reply)
  unfolding handle_error
  handle_error-ok_iff reply v = (
    ground (arith, found_ok (J.elements reply) reply v, throw_api_never (create J reply) v),
    ground (arith, found_none (J.elements reply)),
  )

module _ (J : JsonLib) (N : Network J) where
  -- A request to a path with one slash at its beginning and the request to the path without it are
  -- the same, if the rest is not empty and does not begin with a slash.
  pub request_slash :
      (method : Method) (username : Bytes) (c : ℕ) (path : Bytes) (body : J.Json) (d : ℕ)
      (line : Line)
      → c ≢ b'/'
      → request J N method username (b'/' ∷ c ∷ path) body d line
        ≡ request J N method username (c ∷ path) body d line
  unfolding request combined_path
  request_slash method username c path body d line h = ground arith
