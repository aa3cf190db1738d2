-- ===== src/Share/Unique.antt =====
-- core/engine/fileshare/backend.go: names for picked files whose names clash.
use mathlib.Core.List.{append_cancel_left, append_cancel_right}
use tailcat_gui.Prelude.{
  ℕ, zero, suc, ◌≤◌, ◌<◌, [], ◌∷◌, ◌++◌, length, ◌≡◌, ◌≢◌, inl, inr, refl, arith, if◌then◌else◌,
  Option, none, some, Text, codes, Option-cases,
}
use tailcat_gui.Prelude.Decimal.{decimal, decimal-injective}
use tailcat_gui.Prelude.Dict.{Dict, lookup, has, erase, lookup-erase}
use tailcat_gui.Share.Names.{ext, trim_suffix}

-- `fmt.Sprintf("%s (%d)%s", base, i, ext)`
unfoldable pub candidate : Text → Text → ℕ → Text
candidate stem suffix i = stem ++ (codes " (" ++ (decimal i ++ (codes ")" ++ suffix)))

module _ {V : Type 0} where
  -- The loop of `uniqueName`; `none` means that the rounds ran out.
  unfoldable pub unique_loop : ℕ → Text → Text → ℕ → Dict V → Option Text
  unique_loop zero stem suffix i taken = none
  unique_loop (suc fuel) stem suffix i taken =
      let rest = unique_loop fuel stem suffix (suc i) taken in
      if has (candidate stem suffix i) taken then rest else some (candidate stem suffix i)

  -- `uniqueName`
  unfoldable pub unique_name : Dict V → Text → Option Text
  unique_name taken name =
      if has name taken
      then unique_loop (suc (length taken)) (trim_suffix (ext name) name) (ext name) 2 taken
      else some name

module _ (stem suffix : Text) where
  candidate-injective : (i j : ℕ) → candidate stem suffix i ≡ candidate stem suffix j → i ≡ j
  unfolding candidate
  candidate-injective i j h = decimal-injective i j (
      append_cancel_right _ _ (codes ")" ++ suffix)
        (append_cancel_left (codes " (") _ _ (append_cancel_left stem _ _ h)))

  module _ {V : Type 0} where
    -- A candidate below those that the loop tries makes no difference to it.
    unique_loop-erase :
        (fuel i j : ℕ) (taken : Dict V)
        → j < i
        → unique_loop fuel stem suffix i (erase (candidate stem suffix j) taken)
          ≡ unique_loop fuel stem suffix i taken
    unfolding unique_loop
    unique_loop-erase zero i j taken h = refl
    unique_loop-erase (suc fuel) i j taken h =
        let other : candidate stem suffix j ≢ candidate stem suffix i =
          λ e. absurd (omega (arith, candidate-injective j i e)) in
        ground (
          arith,
          unique_loop-erase fuel (suc i) j taken (omega arith),
          lookup-erase (candidate stem suffix j) (candidate stem suffix i) taken,
        )

    length-erase_le : (k : Text) (m : Dict V) → length (erase k m) ≤ length m
    unfolding erase
    length-erase_le k [] = omega arith
    length-erase_le k ((j, v) ∷ m) = ground (arith, length-erase_le k m)

    length-erase_lt :
        (k : Text) (m : Dict V) {v : V} → lookup k m ≡ some v → length (erase k m) < length m
    unfolding erase lookup
    length-erase_lt k [] h = cc
    length-erase_lt k ((j, w) ∷ m) {v} h =
        ground (arith, length-erase_le k m, length-erase_lt k m {v = v})

    -- With more rounds than names are taken, the loop finds a free candidate.
    unique_loop-finds :
        (fuel i : ℕ) (taken : Dict V)
        → length taken < fuel
        → (k : ℕ) × (i ≤ k)
          × (unique_loop fuel stem suffix i taken ≡ some (candidate stem suffix k))
          × (lookup (candidate stem suffix k) taken ≡ none)
    unfolding unique_loop
    unique_loop-finds zero i taken h = elim h [ ]
    unique_loop-finds (suc fuel) i taken h =
        elim (Option-cases (lookup (candidate stem suffix i) taken)) [
          | inl free ↦ (i, omega arith, ground arith, free)
          | inr (v, held) ↦
              let this = candidate stem suffix i in
              let (k, le, found, free) =
                unique_loop-finds fuel (suc i) (erase this taken)
                  (omega (arith, length-erase_lt this taken held)) in
              let other : this ≢ candidate stem suffix k =
                λ e. absurd (omega (arith, candidate-injective i k e)) in
              (
                k,
                omega arith,
                ground (arith, unique_loop-erase fuel (suc i) i taken (omega arith)),
                ground (arith, lookup-erase this (candidate stem suffix k) taken),
              )
        ]

-- `uniqueName` always ends, and the name that it gives is not taken. It keeps a name that is free.
pub unique_name-fresh :
    {V : Type 0} (taken : Dict V) (name : Text)
    → (n : Text) × (unique_name taken name ≡ some n)
      × (lookup n taken ≡ none)
      × (lookup name taken ≡ none → n ≡ name)
unfolding unique_name
unique_name-fresh taken name = elim (Option-cases (lookup name taken)) [
  | inl free ↦ (name, ground arith, free, λ _. refl)
  | inr (v, held) ↦
      let stem = trim_suffix (ext name) name in
      let (k, _, found, free) =
        unique_loop-finds stem (ext name) (suc (length taken)) 2 taken (omega arith) in
      (candidate stem (ext name) k, ground arith, free, λ e. absurd (ground arith))
]
