-- ===== src/Std/Text.antt =====
-- The members of `std::string` that the sources call. A position is a `size_t`: a 64-bit word, and
-- `npos` its greatest value. No text is as long as 2 ^ 64 bytes.
use hueplusplus.Base.{
  ℕ, suc, ◌+◌, ◌-◌, ◌%◌, ◌^◌, [], ◌∷◌, Bool, true, false, ◌&&◌, Option, none, some, Bytes, length,
  take, drop, ltb, ◌==◌, if◌then◌else◌, Result, ok, err, Error,
}

abbrev pub size_mod : ℕ
size_mod = 2 ^ 64

abbrev pub npos : ℕ
npos = size_mod - 1

-- `size_t` sums and differences wrap around.
abbrev pub add_size : ℕ → ℕ → ℕ
add_size a b = (a + b) % size_mod

abbrev pub sub_size : ℕ → ℕ → ℕ
sub_size a b = (a + size_mod - b) % size_mod

-- `s.substr(position, count)`
abbrev pub substr : Bytes → ℕ → ℕ → Result Bytes
substr s position count =
    if ltb (length s) position then err Error.out_of_range else ok (take count (drop position s))

-- `s.substr(position)`
abbrev pub substr_from : Bytes → ℕ → Result Bytes
substr_from s position =
    if ltb (length s) position then err Error.out_of_range else ok (drop position s)

-- `s[i]` and `s.at(i)`, where the byte is there.
abbrev pub at? : Bytes → ℕ → Option ℕ
at? [] i = none
at? (c ∷ s) ℕ.zero = some c
at? (c ∷ s) (suc i) = at? s i

-- The first place of a byte, counted from `i`.
abbrev pub index_from : ℕ → Bytes → ℕ → Option ℕ
index_from c [] i = none
index_from c (d ∷ s) i = if d == c then some i else index_from c s (suc i)

abbrev pub or_npos : Option ℕ → ℕ
or_npos none = npos
or_npos (some i) = i

-- `s.find(c)`
abbrev pub find : Bytes → ℕ → ℕ
find s c = or_npos (index_from c s 0)

-- `s.find(c, position)`
abbrev pub find_from : Bytes → ℕ → ℕ → ℕ
find_from s c position = or_npos (index_from c (drop position s) position)

-- `std::count(s.begin(), s.end(), c)`
unfoldable pub count : ℕ → Bytes → ℕ
count c [] = 0
count c (d ∷ s) = (if d == c then 1 else 0) + count c s

-- `text.find(prefix) == 0`
unfoldable pub begins_with : Bytes → Bytes → Bool
begins_with [] text = true
begins_with (c ∷ prefix) [] = false
begins_with (c ∷ prefix) (d ∷ text) = (c == d) && begins_with prefix text

-- `text.find(pattern)`, counted from `i`; `none` stands for `npos`.
unfoldable pub index_of : Bytes → Bytes → ℕ → Option ℕ
index_of pattern [] i = if begins_with pattern [] then some i else none
index_of pattern (c ∷ text) i =
    if begins_with pattern (c ∷ text) then some i else index_of pattern text (suc i)
