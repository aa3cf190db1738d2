-- ===== src/Serve/Announced.antt =====
-- server.go: the ports in `ServedTCPPorts`.
use tailcat_gui.Prelude.{
  ℕ, ◌≤◌, ◌<◌, not, ◌&&◌, List, [], ◌∷◌, ◌++◌, ◌≡◌, inl, inr, refl, arith, ltb, ℤ, ltb_ℤ,
  Bool-cases, All,
}
use tailcat_gui.Serve.{
  StartServerArgs, uint16, has_service, insert_port, sort_ports, same_port, compact, to_ranges,
  offered, served_ports, manifest_port,
}
use tailcat_gui.Serve.Accepted.{IsPort}

-- Ports that rise strictly from above `n` to 65535 at most.
abbrev pub Rises : ℕ → List ℕ → Type 0
Rises n [] = Unit
Rises n (p ∷ ps) = (n < p) × (p ≤ 65535) × Rises p ps

-- Ports that do not fall, from `n` on.
Sorted : ℕ → List ℤ → Type 0
Sorted n [] = Unit
Sorted n (p ∷ ps) = IsPort p × (n ≤ uint16 p) × Sorted (uint16 p) ps

uint16-IsPort : (p : ℤ) (k : IsPort p) → uint16 p ≡ k.0
uint16-IsPort p (n, e, lo, hi) = rw e (omega arith)

ltb_ℤ-uint16 : (p q : ℤ) → IsPort p → IsPort q → ltb_ℤ p q ≡ ltb (uint16 p) (uint16 q)
ltb_ℤ-uint16 p q (m, e, _, hi) (n, f, _, hi') = rw (e, f) (ground arith)

insert_port-Sorted :
    (n : ℕ) (p : ℤ) (qs : List ℤ)
    → IsPort p
    → n ≤ uint16 p
    → Sorted n qs
    → Sorted n (insert_port p qs)
unfolding Sorted insert_port
insert_port-Sorted n p [] k h s = (k, h, tt)
insert_port-Sorted n p (q ∷ qs) k h (l, lo, s) = elim (Bool-cases (ltb_ℤ q p)) [
  | inl b ↦
      rw b (l, lo, insert_port-Sorted (uint16 q) p qs k (ground (arith, ltb_ℤ-uint16 q p l k)) s)
  | inr b ↦ rw b (k, h, (l, ground (arith, ltb_ℤ-uint16 q p l k), s))
]

sort_ports-Sorted : (ps : List ℤ) → All IsPort ps → Sorted 0 (sort_ports ps)
unfolding Sorted sort_ports
sort_ports-Sorted [] a = tt
sort_ports-Sorted (p ∷ ps) a =
    insert_port-Sorted 0 p (sort_ports ps) a.0 (omega arith) (sort_ports-Sorted ps a.1)

same_port-IsPort :
    (p q : ℤ)
    → IsPort p
    → IsPort q
    → same_port p q ≡ (not (ltb (uint16 p) (uint16 q)) && not (ltb (uint16 q) (uint16 p)))
same_port-IsPort p q k l = rw (ltb_ℤ-uint16 p q k l, ltb_ℤ-uint16 q p l k) refl

compact-Rises :
    (n m : ℕ) (p : ℤ) (ps : List ℤ)
    → n < uint16 p
    → Sorted m (p ∷ ps)
    → Rises n (to_ranges (compact (p ∷ ps)))
unfolding Sorted compact
compact-Rises n m p [] h (k, _, _) = (h, ground (arith, uint16-IsPort p k), tt)
compact-Rises n m p (q ∷ qs) h (k, _, (l, le, s)) = elim (Bool-cases (same_port p q)) [
  | inl b ↦
      rw b (compact-Rises n (uint16 p) q qs (ground (arith, same_port-IsPort p q k l)) (l, le, s))
  | inr b ↦ rw b (
    h,
    ground (arith, uint16-IsPort p k),
    compact-Rises (uint16 p) (uint16 p) q qs (ground (arith, same_port-IsPort p q k l)) (l, le, s),
  )
]

Sorted-Rises : (ps : List ℤ) → Sorted 0 ps → Rises 0 (to_ranges (compact ps))
unfolding Sorted compact
Sorted-Rises [] s = tt
Sorted-Rises (p ∷ ps) (k, lo, s) =
    compact-Rises 0 0 p ps (omega (arith, uint16-IsPort p k, k.2)) (k, lo, s)

append-All : (ps qs : List ℤ) → All IsPort ps → All IsPort qs → All IsPort (ps ++ qs)
append-All [] qs a b = b
append-All (p ∷ ps) qs a b = (a.0, append-All ps qs a.1 b)

offered-All : (a : StartServerArgs) → All IsPort a.ports → All IsPort (offered a)
offered-All a h =
    append-All (a.ports ++ (ℤ.pos manifest_port ∷ [])) _
      (append-All a.ports _ h ((1, refl, omega arith, omega arith), tt))
      (elim (Bool-cases (has_service a)) [
        | inl s ↦ rw s ((22, refl, omega arith, omega arith), tt)
        | inr s ↦ rw s tt
      ])

-- If the ports that the user gives are from 1 to 65535, so are those in `ServedTCPPorts`, which
-- rise strictly: none is announced twice.
pub served_ports-Rises : (a : StartServerArgs) → All IsPort a.ports → Rises 0 (served_ports a)
unfolding served_ports
served_ports-Rises a h = elim (Bool-cases a.all) [
  | inl all ↦ rw all tt
  | inr some_only ↦ rw some_only (Sorted-Rises _ (sort_ports-Sorted (offered a) (offered-All a h)))
]
