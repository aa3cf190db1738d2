-- ===== src/Prelude/Pick.antt =====
-- An element of a list at a place, and the others: what a goroutine takes of things that wait.
use mathlib.Core.Option.{Option, none, some}
use mathlib.Core.List.{List, [], ◌∷◌, Perm}
use mathlib.Core.List.Perm
use Prim.Native.Nat.{ℕ, zero, suc}

-- The element at a place, and the others.
abbrev pub pick {ℓ} : {A : Type ℓ} → ℕ → List A → Option (A × List A)
pick n [] = none
pick zero (x ∷ xs) = some (x, xs)
pick (suc n) (x ∷ xs) = elim (pick n xs) [ none ↦ none | some (y, ys) ↦ some (y, x ∷ ys) ]

-- What `pick` gives is a rearrangement.
abbrev pub Picks {ℓ} : {A : Type ℓ} → List A → Option (A × List A) → Type ℓ
Picks xs none = Perm xs xs
Picks xs (some (x, rest)) = Perm xs (x ∷ rest)

pub pick-Picks {ℓ} : {A : Type ℓ} (n : ℕ) (xs : List A) → Picks xs (pick n xs)
pick-Picks n [] = Perm.refl []
pick-Picks zero (y ∷ ys) = Perm.refl _
pick-Picks (suc n) (y ∷ ys) = go (pick n ys) (pick-Picks n ys)
  where
    go :
        (o : Option _)
        → Picks ys o
        → Picks (y ∷ ys) (elim o [ none ↦ none | some (z, zs) ↦ some (z, y ∷ zs) ])
    go none h = Perm.refl (y ∷ ys)
    go (some (z, zs)) h = Perm.trans (Perm.cons y h) (Perm.swap _ _ zs)
