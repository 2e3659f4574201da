-- ===== src/Base/Bits.antt =====
-- Facts about the bits of a number, from the recursion on digits that `bit_or` and `bit_and` are.
use Prim.Native.Nat.{
  ℕ, zero, suc, ◌+◌, ◌*◌, ◌/◌, ◌%◌, ◌^◌, ◌≤◌, ◌<◌, min, max, bit_and, bit_or, digits,
  bit_and-bitwise, bit_or-bitwise,
}
use mathlib.Core.Path.{◌≡◌, refl}
use native.Mathlib.Nat.{pow-suc}
use native.Mathlib.Omega.{arith}

-- An operation on digits, where `rest b` is the result once the first number has run out. The
-- law `exhausted` says that going on with digits 0 would give the same.
module _ (rest : ℕ → ℕ) (op : ℕ → ℕ → ℕ)
    (exhausted : (b : ℕ) → rest b ≡ rest (b / 2) * 2 + op 0 (b % 2)) where
  enough_rounds : (n m a b : ℕ) → a ≤ n → a ≤ m → digits rest op n a b ≡ digits rest op m a b
  enough_rounds zero zero a b _ _ = refl
  enough_rounds zero (suc m) zero b _ _ = refl
  enough_rounds zero (suc m) (suc a) b small _ = absurd (omega arith)
  enough_rounds (suc n) zero zero b _ _ = refl
  enough_rounds (suc n) zero (suc a) b _ small = absurd (omega arith)
  enough_rounds (suc n) (suc m) zero b _ _ = refl
  enough_rounds (suc n) (suc m) (suc a) b hn hm =
      omega (arith, enough_rounds n m (suc a / 2) (b / 2) (omega arith) (omega arith))

  -- The lowest digit apart.
  lowest :
      (a b : ℕ)
      → digits rest op a a b ≡ digits rest op (a / 2) (a / 2) (b / 2) * 2 + op (a % 2) (b % 2)
  lowest zero b = exhausted b
  lowest (suc a) b =
      omega (arith, enough_rounds a (suc a / 2) (suc a / 2) (b / 2) (omega arith) (omega arith))

and_exhausted : (b : ℕ) → 0 ≡ 0 * 2 + min 0 (b % 2)
and_exhausted b = omega arith

or_exhausted : (b : ℕ) → b ≡ b / 2 * 2 + max 0 (b % 2)
or_exhausted b = omega arith

pub bit_and-lowest : (a b : ℕ) → bit_and a b ≡ bit_and (a / 2) (b / 2) * 2 + min (a % 2) (b % 2)
bit_and-lowest a b = omega (
  arith,
  bit_and-bitwise a b,
  bit_and-bitwise (a / 2) (b / 2),
  lowest (λ _. 0) min and_exhausted a b,
)

pub bit_or-lowest : (a b : ℕ) → bit_or a b ≡ bit_or (a / 2) (b / 2) * 2 + max (a % 2) (b % 2)
bit_or-lowest a b = omega (
  arith,
  bit_or-bitwise a b,
  bit_or-bitwise (a / 2) (b / 2),
  lowest (λ b. b) max or_exhausted a b,
)

pub bit_or-lt-pow : (k a b : ℕ) → a < 2 ^ k → b < 2 ^ k → bit_or a b < 2 ^ k
bit_or-lt-pow zero a b ha hb = ground (arith, bit_or-bitwise 0 0)
bit_or-lt-pow (suc k) a b ha hb = omega (
  arith,
  pow-suc 2 k,
  bit_or-lowest a b,
  bit_or-lt-pow k (a / 2) (b / 2) (omega (arith, pow-suc 2 k)) (omega (arith, pow-suc 2 k)),
)

bit_and-zero : (n a : ℕ) → a ≤ n → bit_and a 0 ≡ 0
bit_and-zero zero a h = ground (arith, bit_and-bitwise 0 0)
bit_and-zero (suc n) a h = omega (arith, bit_and-lowest a 0, bit_and-zero n (a / 2) (omega arith))

bit_and-one : (a : ℕ) → bit_and a 1 ≡ a % 2
bit_and-one a = omega (arith, bit_and-lowest a 1, bit_and-zero (a / 2) (a / 2) (omega arith))

bit_and-double : (a m : ℕ) → bit_and a (2 * m) ≡ bit_and (a / 2) m * 2
bit_and-double a m = ground (arith, bit_and-lowest a (2 * m))

-- A mask of one bit meets the union of two numbers if it meets either.
pub bit_and-bit_or :
    (k a b : ℕ) → bit_and (bit_or a b) (2 ^ k) ≡ max (bit_and a (2 ^ k)) (bit_and b (2 ^ k))
bit_and-bit_or zero a b =
    omega (arith, bit_and-one a, bit_and-one b, bit_and-one (bit_or a b), bit_or-lowest a b)
bit_and-bit_or (suc k) a b = ground (
  arith,
  pow-suc 2 k,
  bit_and-double a (2 ^ k),
  bit_and-double b (2 ^ k),
  bit_and-double (bit_or a b) (2 ^ k),
  bit_or-lowest a b,
  bit_and-bit_or k (a / 2) (b / 2),
)
