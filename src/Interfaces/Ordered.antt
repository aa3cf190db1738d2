-- ===== src/Interfaces/Ordered.antt =====
-- netiface_cgo.go: the names of interfaces, in the order in which the loop comes to them.
use tailcat_gui.Prelude.{
  ◌||◌, Bool, true, false, List, [], ◌∷◌, ◌++◌, ◌≡◌, refl, sym, ap, ◌∙◌, subst, arith, Option, none,
  some, is_some, Text, text_eq, Bool-cases, inl, inr,
}
use tailcat_gui.Prelude.Dict.{Dict, lookup, insert, lookup-insert}
use tailcat_gui.Interfaces.{Interface}

pub text_eq-same : (n k : Text) → text_eq n k ≡ true → n ≡ k
text_eq-same n k h = ground arith

abbrev pub member : Text → List Text → Bool
member k [] = false
member k (n ∷ ns) = text_eq n k || member k ns

abbrev pub Distinct : List Text → Type 0
Distinct [] = Unit
Distinct (n ∷ ns) = (member n ns ≡ false) × Distinct ns

abbrev pub names : List Interface → List Text
names [] = []
names (i ∷ is) = i.name ∷ names is

member-append :
    (k n : Text) (ns : List Text) → member k (ns ++ (n ∷ [])) ≡ (member k ns || text_eq n k)
member-append k n [] = ground arith
member-append k n (a ∷ ns) = ground (arith, member-append k n ns)

text_eq_comm : (a n : Text) → text_eq a n ≡ text_eq n a
text_eq_comm a n = ground arith

Distinct-append :
    (n : Text) (ns : List Text) → member n ns ≡ false → Distinct ns → Distinct (ns ++ (n ∷ []))
Distinct-append n [] h d = (refl, tt)
Distinct-append n (a ∷ ns) h (g, d) = (
  ground (arith, member-append a n ns, text_eq_comm a n, g, h),
  Distinct-append n ns (ground (arith, h)) d,
)

-- What the loop keeps: each name stands once in the order, just the names that the map has, each
-- with its own interface.
pub record IsOrdered (m : Dict Interface) (order : List Text) : Type 0 where
  pub distinct : Distinct order
  pub listed : (k : Text) → member k order ≡ is_some (lookup k m)
  pub keyed : (k : Text) (i : Interface) → lookup k m ≡ some i → i.name ≡ k

insert-keyed :
    (n : Text) (v : Interface) (m : Dict Interface)
    → v.name ≡ n
    → ((k : Text) (i : Interface) → lookup k m ≡ some i → i.name ≡ k)
    → (k : Text) (i : Interface) → lookup k (insert n v m) ≡ some i
    → i.name ≡ k
insert-keyed n v m h f k i e = elim (Bool-cases (text_eq n k)) [
  | inr g ↦ f k i (sym (lookup-insert n k v m ∙ rw g refl) ∙ e)
  | inl g ↦
      let same : some v ≡ some i = sym (lookup-insert n k v m ∙ rw g refl) ∙ e in
      subst named same h ∙ text_eq-same n k g
]
  where
    named : Option Interface → Type 0
    named none = Unit
    named (some j) = j.name ≡ n

pub new-IsOrdered :
    (n : Text) (v : Interface) (m : Dict Interface) (order : List Text)
    → v.name ≡ n
    → lookup n m ≡ none
    → IsOrdered m order
    → IsOrdered (insert n v m) (order ++ (n ∷ []))
new-IsOrdered n v m order h l k = record {
  distinct = Distinct-append n order (k.listed n ∙ rw l refl) k.distinct;
  listed = λ x. ground (arith, member-append x n order, k.listed x, lookup-insert n x v m);
  keyed = insert-keyed n v m h k.keyed;
}

pub known-IsOrdered :
    (n : Text) (v i : Interface) (m : Dict Interface) (order : List Text)
    → v.name ≡ n
    → lookup n m ≡ some i
    → IsOrdered m order
    → IsOrdered (insert n v m) order
known-IsOrdered n v i m order h l k = record {
  distinct = k.distinct;
  listed = λ x. elim (Bool-cases (text_eq n x)) [
    | inl g ↦
        k.listed x
        ∙ rw (lookup-insert n x v m, g, ap (λ y. lookup y m) (sym (text_eq-same n x g)) ∙ l) refl
    | inr g ↦ k.listed x ∙ rw (lookup-insert n x v m, g) refl
  ];
  keyed = insert-keyed n v m h k.keyed;
}
