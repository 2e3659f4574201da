-- ===== src/Time/Pattern/Copy.antt =====
-- The copy constructor, `operator=` and `destroy` of `TimePattern`. For an absolute time `operator=`
-- constructs the base class alone, `new (&absolute) AbsoluteTime(other.absolute)`, so the variation is
-- what the bytes of the union held before: the argument `leftover`.
use hueplusplus.Base.{◌≡◌, refl, ◌↔◌, Bool, if◌then◌else◌, arith}
use hueplusplus.Base.Int.{ℤ}
use hueplusplus.Time.Pattern.{TimePattern, undefined, absolute, recurring, interval, timer}

pub destroy : TimePattern → TimePattern
destroy p = undefined

-- The switch of `operator=`, after `destroy`.
pub construct : ℤ → TimePattern → TimePattern
construct leftover undefined = undefined
construct leftover (absolute a) = absolute (record a { variation = leftover })
construct leftover (recurring r) = recurring r
construct leftover (interval i) = interval i
construct leftover (timer t) = timer t

-- `same` is the test `this == &other`.
pub assign : ℤ → Bool → TimePattern → TimePattern → TimePattern
assign leftover same this other = if same then this else construct leftover other

pub copy_construct : ℤ → TimePattern → TimePattern
copy_construct leftover other = assign leftover Bool.false undefined other

-- The variation of an absolute time is the leftover one.
abbrev pub VariationIs : ℤ → TimePattern → Type 0
VariationIs leftover (absolute a) = a.variation ≡ leftover
VariationIs leftover _ = Unit

-- A copy of a time pattern is equal to its original exactly if the original is no absolute time, or
-- its variation is the value that happened to stand in the storage of the copy.
pub copy_construct-eq_iff :
    (leftover : ℤ) (p : TimePattern) → (copy_construct leftover p ≡ p) ↔ VariationIs leftover p
unfolding copy_construct assign construct
copy_construct-eq_iff leftover undefined = (λ _. tt, λ _. refl)
copy_construct-eq_iff leftover (absolute a) = (λ e. cc, λ e. ground arith)
copy_construct-eq_iff leftover (recurring r) = (λ _. tt, λ _. refl)
copy_construct-eq_iff leftover (interval i) = (λ _. tt, λ _. refl)
copy_construct-eq_iff leftover (timer t) = (λ _. tt, λ _. refl)
