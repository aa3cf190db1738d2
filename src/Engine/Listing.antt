-- ===== src/Engine/Listing.antt =====
-- engine.go: the list that `list_sessions` returns.
use mathlib.Core.List.{reverse-cons, reverse_perm, perm_middle}
use mathlib.Core.List.Perm
use tailcat_gui.Prelude.{
  ℕ, ◌≤◌, List, [], ◌∷◌, ◌++◌, arith, map, reverse, ltb, Text, Perm, Bool-cases, inl, inr, All,
  append-nil,
}
use tailcat_gui.Prelude.Dict.{Dict}
use tailcat_gui.Events.{Event}
use tailcat_gui.Session.{Session, snapshot}
use tailcat_gui.Engine.{Engine, created_ms, sift, sort_loop, list_sessions}
use tailcat_gui.Engine.Closing.{Enumerates}

-- Oldest first, and newest first.
abbrev pub Ascending : List Event → Type 0
Ascending [] = Unit
Ascending (x ∷ xs) = All (λ y. created_ms x ≤ created_ms y) xs × Ascending xs

abbrev Descending : List Event → Type 0
Descending [] = Unit
Descending (x ∷ xs) = All (λ y. created_ms y ≤ created_ms x) xs × Descending xs

sift-perm : (x : Event) (ys : List Event) → Perm (sift x ys) (x ∷ ys)
unfolding sift
sift-perm x [] = Perm.refl _
sift-perm x (y ∷ ys) = elim (Bool-cases (ltb (created_ms x) (created_ms y))) [
  | inl e ↦ rw e (Perm.trans (Perm.cons y (sift-perm x ys)) (Perm.swap x y ys))
  | inr e ↦ rw e (Perm.refl _)
]

All-sift : (P : Event → Type 0) (x : Event) (ys : List Event) → P x → All P ys → All P (sift x ys)
unfolding sift
All-sift P x [] p ps = (p, tt)
All-sift P x (y ∷ ys) p ps = ground (arith, All-sift P x ys p ps.1)

All-le :
    (m n : ℕ) (ys : List Event)
    → m ≤ n
    → All (λ y. created_ms y ≤ m) ys
    → All (λ y. created_ms y ≤ n) ys
All-le m n [] h a = tt
All-le m n (y ∷ ys) h a = (omega arith, All-le m n ys h a.1)

sift-Descending : (x : Event) (ys : List Event) → Descending ys → Descending (sift x ys)
unfolding sift
sift-Descending x [] d = (tt, tt)
sift-Descending x (y ∷ ys) d = elim (Bool-cases (ltb (created_ms x) (created_ms y))) [
  | inl e ↦ rw e (All-sift _ x ys (ground arith) d.0, sift-Descending x ys d.1)
  | inr e ↦ rw e ((ground arith, All-le (created_ms y) (created_ms x) ys (ground arith) d.0), d)
]

sort_loop_lem :
    (sorted rest : List Event)
    → Descending sorted
    → Descending (sort_loop sorted rest) × Perm (sort_loop sorted rest) (sorted ++ rest)
unfolding sort_loop
sort_loop_lem sorted [] d = (d, rw append-nil (Perm.refl _))
sort_loop_lem sorted (x ∷ rest) d =
    let (d', p) = sort_loop_lem (sift x sorted) rest (sift-Descending x sorted d) in
    (
      d',
      Perm.trans p (
          Perm.trans (Perm.append (sift-perm x sorted) (Perm.refl rest))
            (Perm.symm (perm_middle sorted rest))),
    )

Ascending-append :
    (xs : List Event) (x : Event)
    → Ascending xs
    → All (λ y. created_ms y ≤ created_ms x) xs
    → Ascending (xs ++ (x ∷ []))
Ascending-append [] x a b = (tt, tt)
Ascending-append (y ∷ ys) x a b = (more ys a.0, Ascending-append ys x a.1 b.1)
  where
    more :
        (ys : List Event)
        → All (λ z. created_ms y ≤ created_ms z) ys
        → All (λ z. created_ms y ≤ created_ms z) (ys ++ (x ∷ []))
    more [] c = (b.0, tt)
    more (z ∷ zs) c = (c.0, more zs c.1)

All-append {ℓ} : (P : Event → Type ℓ) (xs ys : List Event) → All P xs → All P ys → All P (xs ++ ys)
All-append P [] ys a b = b
All-append P (x ∷ xs) ys a b = (a.0, All-append P xs ys a.1 b)

All-reverse {ℓ} : (P : Event → Type ℓ) (xs : List Event) → All P xs → All P (reverse xs)
All-reverse P [] a = tt
All-reverse P (x ∷ xs) a =
    rw reverse-cons (All-append P (reverse xs) (x ∷ []) (All-reverse P xs a.1) (a.0, tt))

reverse-Ascending : (xs : List Event) → Descending xs → Ascending (reverse xs)
reverse-Ascending [] d = tt
reverse-Ascending (x ∷ xs) d =
    rw reverse-cons
      (Ascending-append (reverse xs) x (reverse-Ascending xs d.1) (All-reverse _ xs d.0))

-- In whatever order Go goes through the map, `list_sessions` returns the snapshot of each session once,
-- oldest first.
pub list_sessions-sorted :
    (enumerate : Dict Session → List (Text × Session)) (e : Engine)
    → Enumerates enumerate
    → let out = list_sessions enumerate e in
      Ascending out × Perm out (map (λ (_, s). snapshot s) e.sessions)
unfolding list_sessions
list_sessions-sorted enumerate e all =
    let shown = map (λ (_, s). snapshot s) (enumerate e.sessions) in
    let (d, p) = sort_loop_lem [] shown tt in
    (
      reverse-Ascending (sort_loop [] shown) d,
      Perm.trans (reverse_perm _) (Perm.trans p (Perm.map _ (all e.sessions))),
    )
