-- ===== src/Base/Outcome.antt =====
-- What a call that may throw gives back: its value, or the exception that leaves it.

-- The exceptions that the library throws or lets through: `json_exception` is one of the
-- JSON library, `system_error` that of the sockets. `unspecified` is no exception: it stands
-- where the language or the C library defines no result.
pub data Error : Type 0 where
  hue_exception api_response_exception invalid_argument out_of_range json_exception system_error :
      Error
  unspecified : Error

pub data Result {ℓ} (A : Type ℓ) : Type ℓ where
  ok : A → Result A
  err : Error → Result A

infixl 5 ◌>>=◌
abbrev pub ◌>>=◌ {ℓ κ} : {A : Type ℓ} {B : Type κ} → Result A → (A → Result B) → Result B
ok a >>= f = f a
err e >>= f = err e
