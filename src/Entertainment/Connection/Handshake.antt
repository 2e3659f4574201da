-- ===== src/Entertainment/Connection/Handshake.antt =====
-- The loop of the handshake in `connect` of src/EntertainmentMode.cpp.
use hueplusplus.Base.{
  ◌⊎◌, ℕ, zero, suc, ◌+◌, ◌≡◌, inl, inr, ap, subst, ◌∙◌, arith, true, false, ◌<◌, ltb, none, some,
  if◌then◌else◌, Bool-cases,
}
use hueplusplus.Base.Int.{ℤ, negsuc}
use hueplusplus.Entertainment.Connection.{Tls, wants, shake}

-- MBEDTLS_ERR_SSL_WANT_READ and MBEDTLS_ERR_SSL_WANT_WRITE
abbrev pub AsksAgain : ℤ → Type 0
AsksAgain code = (code ≡ negsuc 0x68ff) ⊎ (code ≡ negsuc 0x687f)

-- The first round of the handshake that does not ask for another.
abbrev pub IsLast : Tls → ℕ → Type 0
IsLast T n = (¬ AsksAgain (T.handshake n)) × ((i : ℕ) → i < n → AsksAgain (T.handshake i))

wants_asks : (code : ℤ) → wants code ≡ true → AsksAgain code
wants_asks code more = ground arith

asks_wants : (code : ℤ) → AsksAgain code → wants code ≡ true
asks_wants code (inl e) = ap wants e
asks_wants code (inr e) = ap wants e

over_wants : (code : ℤ) → ¬ AsksAgain code → wants code ≡ false
over_wants code over = elim (Bool-cases (wants code)) [
  | inl more ↦ absurd (over (wants_asks code more))
  | inr done ↦ done
]

-- The same by the test of the loop.
IsOver : Tls → ℕ → Type 0
IsOver T n = (wants (T.handshake n) ≡ false) × ((i : ℕ) → i < n → wants (T.handshake i) ≡ true)

neither_less : (m n : ℕ) → ltb m n ≡ false → ltb n m ≡ false → m ≡ n
neither_less m n not_less not_more = ground arith

IsOver-unique : (T : Tls) (m n : ℕ) → IsOver T m → IsOver T n → m ≡ n
unfolding IsOver
IsOver-unique T m n (m_over, m_first) (n_over, n_first) = elim (Bool-cases (ltb m n)) [
  | inl less ↦ let asks = n_first m (ground (arith, less)) in cc
  | inr not_less ↦ elim (Bool-cases (ltb n m)) [
    | inl more ↦ let asks = m_first n (ground (arith, more)) in cc
    | inr not_more ↦ neither_less m n not_less not_more
  ]
]

add_zero : (n : ℕ) → n ≡ n + 0
add_zero n = omega arith

zero_add : (n : ℕ) → 0 + n ≡ n
zero_add n = omega arith

shake-IsOver :
    (T : Tls) (k n : ℕ)
    → wants (T.handshake (k + n)) ≡ false
    → ((i : ℕ) → i < n → wants (T.handshake i) ≡ true)
    → (last : ℕ) × IsOver T last × (shake T (suc k) n ≡ some (T.handshake last))
unfolding shake IsOver
shake-IsOver T zero n over before =
    let over_now = subst (λ m. wants (T.handshake m) ≡ false) (zero_add n) over in
    (n, (over_now, before), ap (λ b. if b then none else some (T.handshake n)) over_now)
shake-IsOver T (suc k) n over before = elim (Bool-cases (wants (T.handshake n))) [
  | inl more ↦
      let (last, is_last, ended) =
        shake-IsOver T k (suc n) (subst (λ m. wants (T.handshake m) ≡ false) (omega arith) over)
          (λ i less. elim (Bool-cases (ltb i n)) [
            | inl earlier ↦ before i (ground (arith, earlier))
            | inr here ↦ subst (λ m. wants (T.handshake m) ≡ true) (the_same i less here) more
          ]) in
      (
        last,
        is_last,
        ap (λ b. if b then shake T (suc k) (suc n) else some (T.handshake n)) more ∙ ended,
      )
  | inr over_now ↦ (
    n,
    (over_now, before),
    ap (λ b. if b then shake T (suc k) (suc n) else some (T.handshake n)) over_now,
  )
]
  where
    the_same : (i : ℕ) → i < suc n → ltb i n ≡ false → n ≡ i
    the_same i less here = ground arith

pub IsLast-unique : (T : Tls) (m n : ℕ) → IsLast T m → IsLast T n → m ≡ n
unfolding IsOver
IsLast-unique T m n (m_over, m_first) (n_over, n_first) =
    IsOver-unique T m n
      (over_wants (T.handshake m) m_over, λ i less. asks_wants (T.handshake i) (m_first i less))
      (over_wants (T.handshake n) n_over, λ i less. asks_wants (T.handshake i) (n_first i less))

-- The handshake ends with the code of its last round, if one does not ask for another.
pub shake_ends :
    (T : Tls) (k : ℕ)
    → ¬ AsksAgain (T.handshake k)
    → (last : ℕ) × IsLast T last × (shake T (suc k) 0 ≡ some (T.handshake last))
unfolding IsOver
shake_ends T k over =
    let (last, (done, first), ended) =
      shake-IsOver T k 0
        (subst (λ m. wants (T.handshake m) ≡ false) (add_zero k) (over_wants (T.handshake k) over))
        (λ i less. absurd (omega (arith, less))) in
    (
      last,
      (
        λ asks. cc (asks_wants (T.handshake last) asks),
        λ i less. wants_asks (T.handshake i) (first i less),
      ),
      ended,
    )
