-- ===== src/Transaction/Shown.antt =====
-- `commit` for what a light shows already.
use hueplusplus.Base.{
  All, ℕ, List, [], ◌∷◌, ◌≡◌, refl, ap, sym, ◌∙◌, Bool, true, false, Bytes, codes, bytes_eq, Option,
  none, some, if◌then◌else◌, Result, ok, err, ◌⊎◌, inl, inr,
}
use hueplusplus.Base.Keys.{bytes_eq_iff}
use hueplusplus.Json.{JsonLib, EntryLaws, KeyLaws, value_or}
use hueplusplus.Validation.{Floats}
use hueplusplus.Validation.Near.{NearXy}
use hueplusplus.Commands.{Network, Line}
use hueplusplus.Transaction.{
  in_mode, colormode_of, other_remove, with_on, entries_of, commit, is_redundant, put_back,
  same_color,
}
use hueplusplus.Transaction.Commit.{on_state}
use hueplusplus.Transaction.Silent.{Needless, IsSilent, Needless-IsSilent}

-- The keys of a colour, with their modes.
abbrev pub IsColor : Bytes → Bytes → Type 0
IsColor key mode =
    ((key ≡ codes "hue") × (mode ≡ codes "hs"))
    ⊎ (((key ≡ codes "sat") × (mode ≡ codes "hs"))
        ⊎ (((key ≡ codes "xy") × (mode ≡ codes "xy")) ⊎ ((key ≡ codes "ct") × (mode ≡ codes "ct"))))

module _ (J : JsonLib) (F : Floats J) where
  -- Equal values, or arrays of two numbers each that are at most 0.0001 apart.
  abbrev pub IsSameColor : J.Json → J.Json → Type 0
  IsSameColor old new =
      ((J.is_array new ≡ false) × (J.equal old new ≡ true))
      ⊎ ((J.is_array new ≡ true) × (J.is_array old ≡ true) × NearXy J F old new)

  -- The state is in a colour mode.
  abbrev pub InMode : J.Json → Bytes → Type 0
  InMode state mode =
      (m : J.Json) × (J.is_object state ≡ true)
      × (J.find state (codes "colormode") ≡ some m)
      × (J.to_text m ≡ some mode)

  -- The entry is the time of the transition; or the state has its value, for "on", "bri" or "effect"; or it is one
  -- of a colour, and the state is in the mode of that and has the colour.
  abbrev pub IsShown : J.Json → Bytes × J.Json → Type 0
  IsShown state (key, v) =
      (key ≡ codes "transitiontime")
      ⊎ ((old : J.Json) × (J.find state key ≡ some old)
          × ((((key ≡ codes "on") ⊎ ((key ≡ codes "bri") ⊎ (key ≡ codes "effect")))
                × (J.equal old v ≡ true))
              ⊎ ((mode : Bytes) × IsColor key mode × InMode state mode × IsSameColor old v)))

  same_color-IsSameColor :
      (old new : J.Json) → IsSameColor old new → (same_color J F new old).0 ≡ ok true
  same_color-IsSameColor old new (inl (single, equal)) = rw (single, equal) refl
  same_color-IsSameColor old new
        (inr (several, array, ((x, y, ox, ny, near), (x2, y2, ox2, ny2, near2)))) =
      rw (several, array, ox, ny, near, ox2, ny2, near2) refl

  put_back_verdict :
      (state : J.Json) (key : Bytes) (r : Result Bool × J.Json) → (put_back J F state key r).0 ≡ r.0
  put_back_verdict state key (ok b, old) = refl
  put_back_verdict state key (err e, old) = refl

  IsColor-colormode_of : (key mode : Bytes) → IsColor key mode → colormode_of key ≡ some mode
  unfolding bytes_eq
  IsColor-colormode_of key mode (inl (k, m)) = ap colormode_of k ∙ ap some (sym m)
  IsColor-colormode_of key mode (inr (inl (k, m))) = ap colormode_of k ∙ ap some (sym m)
  IsColor-colormode_of key mode (inr (inr (inl (k, m)))) = ap colormode_of k ∙ ap some (sym m)
  IsColor-colormode_of key mode (inr (inr (inr (k, m)))) = ap colormode_of k ∙ ap some (sym m)

  -- The test of an entry, by the mode of its key.
  abbrev tested : J.Json → J.Json → Bytes → Bool → Option Bytes → Result Bool
  tested state v key other kind =
      (elim kind as (λ x. Result Bool × J.Json) [
        | some mode ↦ elim (J.find state key) [
          | none ↦ (ok false, state)
          | some old ↦
              in_mode J F state (key, v) old mode
                (value_or J J.to_text state (codes "colormode") [])
        ]
        | none ↦ (
          if other
              then ok (elim (J.find state key) [ none ↦ false | some old ↦ J.equal old v ])
              else ok false,
          state,
        )
      ]).0

  current :
      (state m : J.Json) (mode : Bytes)
      → J.is_object state ≡ true
      → J.find state (codes "colormode") ≡ some m
      → J.to_text m ≡ some mode
      → value_or J J.to_text state (codes "colormode") [] ≡ ok mode
  current state m mode object here text = rw (object, here, text) refl

  colored :
      (state v old m : J.Json) (key mode : Bytes)
      → colormode_of key ≡ some mode
      → bytes_eq mode mode ≡ true
      → J.find state key ≡ some old
      → J.is_object state ≡ true
      → J.find state (codes "colormode") ≡ some m
      → J.to_text m ≡ some mode
      → (is_redundant J F state (key, v)).0 ≡ (put_back J F state key (same_color J F v old)).0
  unfolding is_redundant
  colored state v old m key mode kind same found object here text =
      ap (tested state v key (other_remove key)) kind
      ∙ ap
          (λ o.
            (elim o as (λ x. Result Bool × J.Json) [
              | none ↦ (ok false, state)
              | some u ↦
                  in_mode J F state (key, v) u mode
                    (value_or J J.to_text state (codes "colormode") [])
            ]).0)
          found
      ∙ ap (λ c. (in_mode J F state (key, v) old mode c).0) (current state m mode object here text)
      ∙ ap (λ b. (if b then put_back J F state key (same_color J F v old) else (ok false, state)).0)
          same

  IsSwitch : Bytes → Type 0
  IsSwitch key = (key ≡ codes "on") ⊎ ((key ≡ codes "bri") ⊎ (key ≡ codes "effect"))

  IsSwitch-other_remove :
      (key : Bytes) → IsSwitch key → (colormode_of key ≡ none) × (other_remove key ≡ true)
  unfolding bytes_eq IsSwitch
  IsSwitch-other_remove key (inl k) = (ap colormode_of k, ap other_remove k)
  IsSwitch-other_remove key (inr (inl k)) = (ap colormode_of k, ap other_remove k)
  IsSwitch-other_remove key (inr (inr k)) = (ap colormode_of k, ap other_remove k)

  switched :
      (state v old : J.Json) (key : Bytes)
      → colormode_of key ≡ none
      → other_remove key ≡ true
      → J.find state key ≡ some old
      → J.equal old v ≡ true
      → (is_redundant J F state (key, v)).0 ≡ ok true
  unfolding is_redundant
  switched state v old key kind other found equal =
      ap (tested state v key (other_remove key)) kind
      ∙ ap (λ b. tested state v key b none) other
      ∙ rw (found, equal) refl

  IsShown-Needless :
      (state v : J.Json) (key : Bytes) → IsShown state (key, v) → Needless J F state (key, v)
  unfolding IsSwitch
  IsShown-Needless state v key (inl time) = inl ((bytes_eq_iff key (codes "transitiontime")).1 time)
  IsShown-Needless state v key (inr (old, found, inl (switch, equal))) =
      let (kind, other) = IsSwitch-other_remove key switch in
      inr (switched state v old key kind other found equal)
  IsShown-Needless state v key
        (inr (old, found, inr (mode, color, (m, object, here, text), same))) =
      inr (
        colored state v old m key mode (IsColor-colormode_of key mode color)
          ((bytes_eq_iff mode mode).1 refl) found object here text
        ∙ put_back_verdict state key (same_color J F v old)
        ∙ same_color-IsSameColor old v same)

  All-Needless :
      (state : J.Json) (es : List (Bytes × J.Json))
      → All (IsShown state) es
      → All (Needless J F state) es
  All-Needless state [] shown = tt
  All-Needless state ((k, v) ∷ es) (here, later) =
      (IsShown-Needless state v k here, All-Needless state es later)

  -- For a transaction on a state, with a request that is an object, each entry of which, once
  -- commit has set on or off, is the time of the transition, or the value of "on", "bri" or
  -- "effect" that the state has, or the value of "hue", "sat", "xy" or "ct" that the state has
  -- while it is in the colour mode of that key, where an array has the same two numbers but for
  -- 0.0001 each: commit with trimming gives true back, sends nothing and leaves the state as it is.
  -- The JSON library keeps the laws of loops over objects.
  pub commit-IsSilent :
      (laws : EntryLaws J) (key_laws : KeyLaws J) (N : Network J) (username : Bytes) (d : ℕ)
      (path : Bytes) (state changes with : J.Json) (line : Line)
      → with_on J F state changes ≡ ok with
      → J.is_object with ≡ true
      → All (IsShown state) (entries_of J F with)
      → IsSilent J F laws state key_laws N username d state line
          (commit J F N username d true (on_state J F path state changes) line)
  commit-IsSilent laws key_laws N username d path state changes with line switched_on object shown =
      Needless-IsSilent J F laws state key_laws N username d path changes with line switched_on
        object (All-Needless state (entries_of J F with) shown)
