-- ===== src/Http/Framing.antt =====
-- What a server reads of a request: its head ends at the first blank line.
use hueplusplus.Base.{
  All, ℕ, zero, suc, ◌+◌, ◌/◌, ◌%◌, ◌≢◌, List, [], ◌∷◌, ◌++◌, ◌≡◌, refl, ap, ◌∙◌, arith, Bool, true,
  false, not, ◌==◌, ◌&&◌, Option, none, some, Bytes, codes, drop, length, if◌then◌else◌, Result, ok,
  err, Error, ltb,
}
use hueplusplus.Std.Number.{emit, decimal}
use hueplusplus.Std.Text.{begins_with, index_of}
use hueplusplus.Http.{
  blank_line, line_end, c_text, with_content_type, with_content_length, request_text, body_of,
}

-- Neither the end of a C string nor a carriage return.
abbrev pub IsPlain : ℕ → Type 0
IsPlain c = (c ≢ 0) × (c ≢ 13)

abbrev pub IsNotZero : ℕ → Type 0
IsNotZero c = c ≢ 0

-- The body of a text without its first byte is the same, if no blank line begins there.
index_shift :
    (p text : Bytes) (i : ℕ)
    → index_of p text (suc i) ≡ (elim (index_of p text i) [ none ↦ none | some j ↦ some (suc j) ])
unfolding index_of
index_shift p [] i = ground arith
index_shift p (c ∷ text) i = ground (arith, index_shift p text (suc i))

skip_one :
    (c : ℕ) (text : Bytes)
    → begins_with blank_line (c ∷ text) ≡ false
    → body_of (c ∷ text) ≡ body_of text
unfolding body_of index_of
skip_one c text h =
    ap (λ b. behind (c ∷ text) (if b then some 0 else index_of blank_line text 1)) h
    ∙ ap (behind (c ∷ text)) (index_shift blank_line text 0)
    ∙ by_index (index_of blank_line text 0)
  where
    behind : Bytes → Option ℕ → Result Bytes
    behind t o = elim o [ none ↦ err Error.hue_exception | some start ↦ ok (drop (start + 4) t) ]

    one_more : (n : ℕ) → suc n + 4 ≡ suc (n + 4)
    one_more n = omega arith

    by_index :
        (o : Option ℕ)
        → behind (c ∷ text) (elim o [ none ↦ none | some j ↦ some (suc j) ]) ≡ behind text o
    by_index none = refl
    by_index (some j) = ap (λ n. ok (drop n (c ∷ text))) (one_more j)

never_begins : (c : ℕ) (text : Bytes) → c ≢ 13 → begins_with blank_line (c ∷ text) ≡ false
unfolding begins_with
never_begins c text h = ground arith

never_begins_two :
    (c d : ℕ) (text : Bytes) → d ≢ 13 → begins_with blank_line (13 ∷ c ∷ d ∷ text) ≡ false
unfolding begins_with
never_begins_two c d text h = ground arith

skip_plain : (segment text : Bytes) → All IsPlain segment → body_of (segment ++ text) ≡ body_of text
skip_plain [] text h = refl
skip_plain (c ∷ segment) text (plain, h) =
    skip_one c (segment ++ text) (never_begins c (segment ++ text) plain.1)
    ∙ skip_plain segment text h

skip_line : (c : ℕ) (text : Bytes) → c ≢ 13 → body_of (line_end ++ (c ∷ text)) ≡ body_of (c ∷ text)
skip_line c text h =
    skip_one 13 (10 ∷ c ∷ text) (never_begins_two 10 c text h)
    ∙ skip_one 10 (c ∷ text) (never_begins 10 (c ∷ text) (λ e. omega (arith, e)))

body_here : (text : Bytes) → body_of (blank_line ++ text) ≡ ok text
unfolding body_of index_of begins_with
body_here text = refl

emit-IsPlain : (rounds n : ℕ) (out : Bytes) → All IsPlain out → All IsPlain (emit rounds n out)
unfolding emit
emit-IsPlain zero n out h = h
emit-IsPlain (suc rounds) n out h = by_size (ltb n 10) (
    emit-IsPlain rounds (n / 10) ((b'0' + n % 10) ∷ out)
      ((λ e. omega (arith, e), λ e. omega (arith, e)), h))
  where
    by_size :
        (b : Bool)
        → All IsPlain (emit rounds (n / 10) ((b'0' + n % 10) ∷ out))
        → All IsPlain (if b then (b'0' + n) ∷ out else emit rounds (n / 10) ((b'0' + n % 10) ∷ out))
    by_size true rest = ((λ e. omega (arith, e), λ e. omega (arith, e)), h)
    by_size false rest = rest

abbrev pub are_plain : Bytes → Bool
are_plain [] = true
are_plain (c ∷ text) = not (c == 0) && (not (c == 13) && are_plain text)

-- Literals are plain.
pub All-IsPlain : (text : Bytes) → are_plain text ≡ true → All IsPlain text
All-IsPlain [] h = tt
All-IsPlain (c ∷ text) h = ((ground arith, ground arith), All-IsPlain text (ground arith))

All-append {ℓ} :
    {A : Type ℓ} (P : A → Type 0) (xs ys : List A) → All P xs → All P ys → All P (xs ++ ys)
All-append P [] ys h k = k
All-append P (x ∷ xs) ys (p, h) k = (p, All-append P xs ys h k)

pub not_zero : (text : Bytes) → All IsPlain text → All IsNotZero text
not_zero [] h = tt
not_zero (c ∷ text) (p, h) = (p.0, not_zero text h)

-- A text without zero bytes is a C string.
c_text_whole : (text : Bytes) → All IsNotZero text → c_text text ≡ text
unfolding c_text
c_text_whole [] h = refl
c_text_whole (c ∷ text) (p, h) = ground (arith, p, c_text_whole text h)

decimal-IsPlain : (n : ℕ) → All IsPlain (decimal n)
unfolding decimal
decimal-IsPlain n = emit-IsPlain 20 n [] tt

type_skipped :
    (content_type rest : Bytes) (c : ℕ)
    → c ≢ 13
    → All IsPlain content_type
    → body_of (line_end ++ with_content_type content_type (c ∷ rest)) ≡ body_of (c ∷ rest)
type_skipped [] rest c first h = skip_line c rest first
type_skipped (t ∷ type) rest c first h =
    skip_line b'C' _ (λ e. omega (arith, e))
    ∙ skip_plain (codes "Content-Type: ") _ (All-IsPlain (codes "Content-Type: ") refl)
    ∙ skip_plain (t ∷ type) _ h
    ∙ skip_line c rest first

length_skipped :
    (b : ℕ) (body rest : Bytes) → body_of (with_content_length (b ∷ body) rest) ≡ ok rest
length_skipped b body rest =
    skip_plain (codes "Content-Length: ") _ (All-IsPlain (codes "Content-Length: ") refl)
    ∙ skip_plain (decimal (length (b ∷ body))) _ (decimal-IsPlain (length (b ∷ body)))
    ∙ body_here rest

line-IsNotZero : (text : Bytes) → All IsNotZero text → All IsNotZero (line_end ++ text)
line-IsNotZero text h = ((λ e. omega (arith, e)), ((λ e. omega (arith, e)), h))

type-IsNotZero :
    (content_type rest : Bytes)
    → All IsPlain content_type
    → All IsNotZero rest
    → All IsNotZero (with_content_type content_type rest)
type-IsNotZero [] rest h k = k
type-IsNotZero (t ∷ type) rest h k =
    All-append IsNotZero (codes "Content-Type: ") ((t ∷ type) ++ (line_end ++ rest))
      (not_zero (codes "Content-Type: ") (All-IsPlain (codes "Content-Type: ") refl))
      (All-append IsNotZero (t ∷ type) (line_end ++ rest) (not_zero (t ∷ type) h)
        (line-IsNotZero rest k))

ends-IsNotZero : (text : Bytes) → All IsNotZero text → All IsNotZero (blank_line ++ text)
ends-IsNotZero text h = line-IsNotZero (line_end ++ text) (line-IsNotZero text h)

length-IsNotZero :
    (b : ℕ) (body rest : Bytes)
    → All IsNotZero rest
    → All IsNotZero (with_content_length (b ∷ body) rest)
length-IsNotZero b body rest h =
    All-append IsNotZero (codes "Content-Length: ") _
      (not_zero (codes "Content-Length: ") (All-IsPlain (codes "Content-Length: ") refl))
      (All-append IsNotZero (decimal (length (b ∷ body))) _
        (not_zero (decimal (length (b ∷ body))) (decimal-IsPlain (length (b ∷ body))))
        (ends-IsNotZero rest h))

-- A request with a body, whose method, URI and content type have no zero bytes and carriage
-- returns, and whose body has no zero byte, is sent whole, though it is passed on as a C string,
-- and its first blank line stands directly before the body; behind the body stands another blank
-- line.
pub request_text-framing :
    (method uri content_type body : Bytes) (b : ℕ)
    → All IsPlain method
    → All IsPlain uri
    → All IsPlain content_type
    → All IsNotZero (b ∷ body)
    → (c_text (request_text method uri content_type (b ∷ body))
        ≡ request_text method uri content_type (b ∷ body))
      × (body_of (request_text method uri content_type (b ∷ body)) ≡ ok ((b ∷ body) ++ blank_line))
unfolding request_text
request_text-framing method uri content_type body b m u t whole = (
  c_text_whole (request_text method uri content_type (b ∷ body)) parts,
  skip_plain method _ m
      ∙ skip_plain (codes " ") _ (All-IsPlain (codes " ") refl)
      ∙ skip_plain uri _ u
      ∙ skip_plain (codes " HTTP/1.0") _ (All-IsPlain (codes " HTTP/1.0") refl)
      ∙ type_skipped content_type _ b'C' (λ e. omega (arith, e)) t
      ∙ length_skipped b body ((b ∷ body) ++ blank_line),
)
  where
    literal : (text : Bytes) → are_plain text ≡ true → All IsNotZero text
    literal text h = not_zero text (All-IsPlain text h)

    fields : Bytes
    fields =
        with_content_type content_type (with_content_length (b ∷ body) ((b ∷ body) ++ blank_line))

    fields_whole : All IsNotZero fields
    fields_whole =
        type-IsNotZero content_type (with_content_length (b ∷ body) ((b ∷ body) ++ blank_line)) t (
          length-IsNotZero b body ((b ∷ body) ++ blank_line)
            (All-append IsNotZero (b ∷ body) blank_line whole (ends-IsNotZero [] tt)))

    parts : All IsNotZero (request_text method uri content_type (b ∷ body))
    parts =
        All-append IsNotZero method
          (codes " " ++ (uri ++ (codes " HTTP/1.0" ++ (line_end ++ fields)))) (not_zero method m)
          (All-append IsNotZero (codes " ") (uri ++ (codes " HTTP/1.0" ++ (line_end ++ fields)))
            (literal (codes " ") refl)
            (All-append IsNotZero uri (codes " HTTP/1.0" ++ (line_end ++ fields)) (not_zero uri u) (
              All-append IsNotZero (codes " HTTP/1.0") (line_end ++ fields)
                (literal (codes " HTTP/1.0") refl) (line-IsNotZero fields fields_whole))))
