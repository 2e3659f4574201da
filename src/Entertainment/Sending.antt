-- ===== src/Entertainment/Sending.antt =====
-- `update` of src/EntertainmentMode.cpp: the message is written by `mbedtls_ssl_write`.
use hueplusplus.Base.{
  ℕ, zero, suc, ◌+◌, ◌%◌, ◌^◌, ◌<◌, ◌≤◌, ◌≡◌, refl, ap, sym, subst, arith, List, [], ◌∷◌, Bool,
  true, false, Option, none, some, ltb, Bool-cases, inl, inr,
}
use hueplusplus.Base.Int.{ℤ, pos, negsuc}

-- What `update` gives back, `none` where the fuel is used up, and the parts of the buffer that it had
-- written, each by its offset and its length.
pub record Updated : Type 0 where
  pub result : Option Bool
  pub writes : List (ℕ × ℕ)

-- `mbedtls_ssl_write` gives an error, or how many bytes it took, one at least.
abbrev pub Progress : ℤ → Type 0
Progress (pos n) = (0 < n) × (n < 2 ^ 31)
Progress (negsuc n) = Unit {0}

-- `write` is the code of the n-th call, for an offset into the message and a length.
module _ (write : ℕ → ℕ → ℕ → ℤ) where
  -- What follows a write, where `rest` goes on from a sum.
  abbrev after_write : ℕ → ℕ → ℤ → (ℕ → Updated) → Updated
  after_write total size (negsuc e) rest = record {
    result = some false;
    writes = (total, size) ∷ [];
  }
  after_write total size (pos k) rest =
      let next = rest ((total + k) % 2 ^ 32) in
      record { result = next.result; writes = (total, size) ∷ next.writes }

  -- The loop of `update` from a sum of what was taken, which is an `unsigned int`.
  unfoldable pub update_from : ℕ → ℕ → ℕ → ℕ → Updated
  update_from zero n total size = record { result = none; writes = [] }
  update_from (suc fuel) n total size = elim (ltb total size) [
    | false ↦ record { result = some true; writes = [] }
    | true ↦ after_write total size (write n total size) (λ sum. update_from fuel (suc n) sum size)
  ]

  unfoldable pub update : ℕ → ℕ → Updated
  update fuel size = update_from fuel 0 0 size

-- A write lies within the message.
abbrev pub IsWithin : ℕ → ℕ × ℕ → Type 0
IsWithin size (offset, count) = offset + count ≤ size

-- A write took all that it was given, or failed.
abbrev pub TakesAll : ℕ → ℤ → Type 0
TakesAll size (pos n) = size ≤ n
TakesAll size (negsuc n) = Unit {0}

module _ (write : ℕ → ℕ → ℕ → ℤ) where
  update_from_done :
      (fuel n total size : ℕ)
      → ltb total size ≡ false
      → update_from write (suc fuel) n total size ≡ record { result = some true; writes = [] }
  unfolding update_from
  update_from_done fuel n total size done =
      ap
        (λ b. elim b as (λ x. Updated) [
          | false ↦ record { result = some true; writes = [] }
          | true ↦
              after_write write total size (write n total size)
                (λ sum. update_from write fuel (suc n) sum size)
        ])
        done

  update_from_more :
      (fuel n total size : ℕ)
      → ltb total size ≡ true
      → update_from write (suc fuel) n total size
        ≡ after_write write total size
            (write n total size)
            (λ sum. update_from write fuel (suc n) sum size)
  unfolding update_from
  update_from_more fuel n total size more =
      ap
        (λ b. elim b as (λ x. Updated) [
          | false ↦ record { result = some true; writes = [] }
          | true ↦
              after_write write total size (write n total size)
                (λ sum. update_from write fuel (suc n) sum size)
        ])
        more

-- The loop came to its end.
Ends : Updated → Type 0
Ends u = (b : Bool) × (u.result ≡ some b)

Ends-done : Ends (record { result = some true; writes = [] })
unfolding Ends
Ends-done = (true, refl)

module _ (write : ℕ → ℕ → ℕ → ℤ)
    (progress : (n offset size : ℕ) → Progress (write n offset size)) where
  after_write-Ends :
      (total size : ℕ) (code : ℤ) (rest : ℕ → Updated)
      → Progress code
      → size < 2 ^ 31
      → total < size
      → ((sum : ℕ) → total < sum → Ends (rest sum))
      → Ends (after_write write total size code rest)
  unfolding Ends
  after_write-Ends total size (negsuc e) rest p small more ends = (false, refl)
  after_write-Ends total size (pos k) rest p small more ends =
      ends ((total + k) % 2 ^ 32) (omega arith)

  update_from-Ends :
      (fuel n total size : ℕ)
      → size < 2 ^ 31
      → size < fuel + total
      → 0 < fuel
      → Ends (update_from write fuel n total size)
  update_from-Ends zero n total size small enough some_fuel = absurd (omega arith)
  update_from-Ends (suc fuel) n total size small enough some_fuel =
      elim (Bool-cases (ltb total size)) [
        | inr done ↦ subst Ends (sym (update_from_done write fuel n total size done)) Ends-done
        | inl more ↦ subst Ends (sym (update_from_more write fuel n total size more)) (
            after_write-Ends total size (write n total size)
              (λ sum. update_from write fuel (suc n) sum size) (progress n total size) small
              (ground (arith, more))
              (λ sum further.
                update_from-Ends fuel (suc n) sum size small (omega arith) (ground (arith, more))))
      ]

  -- If each write takes a byte at least, or fails, then update ends: fuel for one more round than
  -- the message has bytes is enough.
  pub update_ends :
      (size : ℕ) → size < 2 ^ 31 → (b : Bool) × ((update write (suc size) size).result ≡ some b)
  unfolding update Ends
  update_ends size small = update_from-Ends (suc size) 0 0 size small (omega arith) (omega arith)
