-- ===== src/Http/Body.antt =====
-- Where the body of a response begins.
use hueplusplus.Base.{
  ℕ, suc, ◌+◌, ◌≤◌, [], ◌∷◌, ◌++◌, ◌≡◌, refl, ap, ap₂, ◌∙◌, arith, Bool, true, false, Option, none,
  some, Bytes, drop, length, if◌then◌else◌, ok, err, Error, ◌⊎◌, inl, inr, Bool-cases,
}
use hueplusplus.Std.Text.{begins_with, index_of}
use hueplusplus.Http.{blank_line, body_of}

begins_with-append : (p r : Bytes) → begins_with p (p ++ r) ≡ true
unfolding begins_with
begins_with-append [] r = refl
begins_with-append (c ∷ p) r = ground (arith, begins_with-append p r)

begins_split : (p text : Bytes) → begins_with p text ≡ true → (r : Bytes) × (text ≡ p ++ r)
unfolding begins_with
begins_split [] text h = (text, refl)
begins_split (c ∷ p) [] h = cc
begins_split (c ∷ p) (d ∷ text) h =
    let (r, e) = begins_split p text (ground (arith, h)) in (r, ground (arith, h, e))

-- What is found begins with the pattern.
index_split :
    (p text : Bytes) (i j : ℕ)
    → index_of p text i ≡ some j
    → (head : Bytes) × (rest : Bytes) × (text ≡ head ++ (p ++ rest)) × (j ≡ i + length head)
unfolding index_of
index_split p [] i j h = elim (Bool-cases (begins_with p [])) [
  | inl found ↦ let (r, e) = begins_split p [] found in ([], r, e, ground (arith, h, found))
  | inr other ↦ absurd (ground (arith, h, other))
]
index_split p (c ∷ text) i j h = elim (Bool-cases (begins_with p (c ∷ text))) [
  | inl found ↦ let (r, e) = begins_split p (c ∷ text) found in ([], r, e, ground (arith, h, found))
  | inr other ↦
      let (head, rest, e, at) = index_split p text (suc i) j (ground (arith, h, other)) in
      (c ∷ head, rest, ap (λ t. c ∷ t) e, ground (arith, at))
]

index_here : (p text : Bytes) (i : ℕ) → begins_with p text ≡ true → index_of p text i ≡ some i
unfolding index_of
index_here p [] i h = ground (arith, h)
index_here p (c ∷ text) i h = ground (arith, h)

-- A pattern that is there is found, there or before.
index_before :
    (p head rest : Bytes) (i : ℕ)
    → (j : ℕ) × (index_of p (head ++ (p ++ rest)) i ≡ some j) × (j ≤ i + length head)
unfolding index_of
index_before p [] rest i = (i, index_here p (p ++ rest) i (begins_with-append p rest), omega arith)
index_before p (c ∷ head) rest i =
    by_test (begins_with p (c ∷ (head ++ (p ++ rest)))) (index_before p head rest (suc i))
  where
    by_test :
        (b : Bool)
        → ((j : ℕ) × (index_of p (head ++ (p ++ rest)) (suc i) ≡ some j)
            × (j ≤ suc i + length head))
        → (j : ℕ) × ((if b then some i else index_of p (head ++ (p ++ rest)) (suc i)) ≡ some j)
          × (j ≤ i + suc (length head))
    by_test true later = (i, refl, omega arith)
    by_test false (j, e, h) = (j, e, omega (arith, h))

drop_behind : (head rest : Bytes) → drop (length head + 4) (head ++ (blank_line ++ rest)) ≡ rest
drop_behind [] rest = refl
drop_behind (c ∷ head) rest =
    ap (λ n. drop n (c ∷ (head ++ (blank_line ++ rest)))) (one_more (length head))
    ∙ drop_behind head rest
  where
    one_more : (n : ℕ) → suc n + 4 ≡ suc (n + 4)
    one_more n = omega arith

-- The response is this head, a blank line and this body, and no blank line begins earlier in it.
abbrev pub SplitsAt : Bytes → Bytes → Bytes → Type 0
SplitsAt response head body =
    (response ≡ head ++ (blank_line ++ body))
    × ((h r : Bytes) → response ≡ h ++ (blank_line ++ r) → length head ≤ length h)

-- Either the response has no blank line, and the function that finds its body throws a
-- HueException; or it has one, and the function gives what stands behind the first one.
pub body_of_lem :
    (response : Bytes)
    → ((body_of response ≡ err Error.hue_exception)
        × ((h r : Bytes) → ¬ (response ≡ h ++ (blank_line ++ r))))
      ⊎ ((head : Bytes) × (body : Bytes) × (body_of response ≡ ok body)
          × SplitsAt response head body)
unfolding body_of
body_of_lem response = by_index (index_of blank_line response 0) refl
  where
    found_before :
        (h r : Bytes)
        → response ≡ h ++ (blank_line ++ r)
        → (j : ℕ) × (index_of blank_line response 0 ≡ some j) × (j ≤ length h)
    found_before h r e =
        let (j, at, before) = index_before blank_line h r 0 in
        (j, ap (λ t. index_of blank_line t 0) e ∙ at, omega (arith, before))

    from_zero : (m n : ℕ) → m ≡ 0 + n → m ≡ n
    from_zero m n h = omega (arith, h)

    by_index :
        (o : Option ℕ)
        → index_of blank_line response 0 ≡ o
        → (((elim o [
          | none ↦ err Error.hue_exception
          | some start ↦ ok (drop (start + 4) response)
        ])
              ≡ err Error.hue_exception)
            × ((h r : Bytes) → ¬ (response ≡ h ++ (blank_line ++ r))))
          ⊎ ((head : Bytes) × (body : Bytes) × ((elim o [
            | none ↦ err Error.hue_exception
            | some start ↦ ok (drop (start + 4) response)
          ])
                ≡ ok body)
              × SplitsAt response head body)
    by_index none e =
        inl
          (refl, λ h r there. let (j, at, before) = found_before h r there in ground (arith, e, at))
    by_index (some start) e =
        let (head, body, split, at) = index_split blank_line response 0 start e in
        inr (
          head,
          body,
          ap ok (
              ap₂ (λ n t. drop (n + 4) t) (from_zero start (length head) at) split
              ∙ drop_behind head body),
          (
            split,
            λ h r there.
                let (j, found, before) = found_before h r there in
                ground (arith, e, found, before, at),
          ),
        )
