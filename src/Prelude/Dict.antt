-- ===== src/Prelude/Dict.antt =====
-- Go maps with string keys, as association lists.
use tailcat_gui.Prelude.Tests.{if◌then◌else◌, is_some}
use tailcat_gui.Prelude.Strings.{Text, text_eq}
use mathlib.Core.Path.{◌≡◌, refl}
use mathlib.Core.Option.{Option, none, some}
use mathlib.Core.Bool.{Bool}
use mathlib.Core.List.{List, [], ◌∷◌}
use native.Mathlib.Omega.{arith}

abbrev pub Dict {ℓ} : Type ℓ → Type ℓ
Dict V = List (Text × V)

module _ {ℓ} {V : Type ℓ} where
  unfoldable pub lookup : Text → Dict V → Option V
  lookup k [] = none
  lookup k ((j, v) ∷ m) = if text_eq j k then some v else lookup k m

  -- `_, ok := m[k]`
  abbrev pub has : Text → Dict V → Bool
  has k m = is_some (lookup k m)

  -- `m[k] = v`
  unfoldable pub insert : Text → V → Dict V → Dict V
  insert k v [] = (k, v) ∷ []
  insert k v ((j, w) ∷ m) = if text_eq j k then (k, v) ∷ m else (j, w) ∷ insert k v m

  -- `delete(m, k)`
  unfoldable pub erase : Text → Dict V → Dict V
  erase k [] = []
  erase k ((j, w) ∷ m) = let rest = erase k m in if text_eq j k then rest else (j, w) ∷ rest

  -- `for k, v := range from { into[k] = v }`
  unfoldable pub merge : Dict V → Dict V → Dict V
  unfolding insert
  merge into [] = into
  merge into ((k, v) ∷ from) = merge (insert k v into) from

  pub lookup-insert :
      (k j : Text) (v : V) (m : Dict V)
      → lookup j (insert k v m) ≡ (if text_eq k j then some v else lookup j m)
  unfolding lookup insert
  lookup-insert k j v [] = refl
  lookup-insert k j v ((i, w) ∷ m) = ground (arith, lookup-insert k j v m)

  pub lookup-erase :
      (k j : Text) (m : Dict V) → lookup j (erase k m) ≡ (if text_eq k j then none else lookup j m)
  unfolding lookup erase
  lookup-erase k j [] = ground arith
  lookup-erase k j ((i, w) ∷ m) = ground (arith, lookup-erase k j m)

  -- A key that `from` lacks keeps its value.
  pub lookup-merge_absent :
      (j : Text) (into from : Dict V)
      → lookup j from ≡ none
      → lookup j (merge into from) ≡ lookup j into
  unfolding lookup merge
  lookup-merge_absent j into [] h = refl
  lookup-merge_absent j into ((k, v) ∷ from) h =
      ground (arith, lookup-merge_absent j (insert k v into) from, lookup-insert k j v into)
