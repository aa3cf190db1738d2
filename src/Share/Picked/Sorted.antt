-- ===== src/Share/Picked/Sorted.antt =====
-- backend.go: `sort.Slice` on the items of a share, by their names.
use mathlib.Core.List.Perm
use tailcat_gui.Prelude.{
  true, false, List, [], ◌∷◌, ◌++◌, ◌≡◌, inl, inr, refl, arith, Text, text_eq, Bool-cases, Perm,
  All,
}
use tailcat_gui.Share.Picked.{ShareItem, text_lt, insert_item, sort_items}

text_lt-total : (s t : Text) → text_lt s t ≡ false → text_lt t s ≡ false → s ≡ t
unfolding text_lt
text_lt-total [] [] h k = refl
text_lt-total [] (d ∷ ds) h k = cc
text_lt-total (c ∷ cs) [] h k = cc
text_lt-total (c ∷ cs) (d ∷ ds) h k = ground (arith, text_lt-total cs ds)

-- By name, each before the next.
abbrev pub Below : Text → List ShareItem → Type 0
Below n [] = Unit
Below n (e ∷ es) = text_lt n e.name ≡ true

abbrev pub Ascending : List ShareItem → Type 0
Ascending [] = Unit
Ascending (e ∷ es) = Below e.name es × Ascending es

insert_item-perm : (x : ShareItem) (es : List ShareItem) → Perm (insert_item x es) (x ∷ es)
unfolding insert_item
insert_item-perm x [] = Perm.refl (x ∷ [])
insert_item-perm x (e ∷ es) = elim (Bool-cases (text_lt e.name x.name)) [
  | inl h ↦ rw h (Perm.trans (Perm.cons e (insert_item-perm x es)) (Perm.swap x e es))
  | inr h ↦ rw h (Perm.refl _)
]

pub sort_items-perm : (es : List ShareItem) → Perm (sort_items es) es
unfolding sort_items
sort_items-perm [] = Perm.refl []
sort_items-perm (e ∷ es) =
    Perm.trans (insert_item-perm e (sort_items es)) (Perm.cons e (sort_items-perm es))

-- No item has this name.
abbrev pub Fresh : Text → List ShareItem → Type 0
Fresh n = All (λ e. text_eq e.name n ≡ false)

insert_item-Below :
    (n : Text) (x : ShareItem) (es : List ShareItem)
    → text_lt n x.name ≡ true
    → Below n es
    → Below n (insert_item x es)
unfolding insert_item
insert_item-Below n x [] h b = h
insert_item-Below n x (e ∷ es) h b = elim (Bool-cases (text_lt e.name x.name)) [
  | inl k ↦ rw k b
  | inr k ↦ rw k h
]

insert_item-Ascending :
    (x : ShareItem) (es : List ShareItem)
    → Fresh x.name es
    → Ascending es
    → Ascending (insert_item x es)
unfolding insert_item
insert_item-Ascending x [] f a = (tt, tt)
insert_item-Ascending x (e ∷ es) f a = elim (Bool-cases (text_lt e.name x.name)) [
  | inl h ↦ rw h (insert_item-Below e.name x es h a.0, insert_item-Ascending x es f.1 a.1)
  | inr h ↦ rw h (ground (arith, text_lt-total x.name e.name), a)
]

module _ (P : ShareItem → Type 0) where
  All-insert_item :
      (x : ShareItem) (es : List ShareItem) → P x → All P es → All P (insert_item x es)
  unfolding insert_item
  All-insert_item x [] h a = (h, tt)
  All-insert_item x (e ∷ es) h a = elim (Bool-cases (text_lt e.name x.name)) [
    | inl k ↦ rw k (a.0, All-insert_item x es h a.1)
    | inr k ↦ rw k (h, a)
  ]

  pub All-sort_items : (es : List ShareItem) → All P es → All P (sort_items es)
  unfolding sort_items
  All-sort_items [] a = tt
  All-sort_items (e ∷ es) a = All-insert_item e (sort_items es) a.0 (All-sort_items es a.1)

  All-append_one : (es : List ShareItem) (x : ShareItem) → All P es → P x → All P (es ++ (x ∷ []))
  All-append_one [] x a h = (h, tt)
  All-append_one (e ∷ es) x a h = (a.0, All-append_one es x a.1 h)

-- No two items have the same name.
abbrev pub Distinct : List ShareItem → Type 0
Distinct [] = Unit
Distinct (e ∷ es) = Fresh e.name es × Distinct es

pub sort_items-Ascending : (es : List ShareItem) → Distinct es → Ascending (sort_items es)
unfolding sort_items
sort_items-Ascending [] d = tt
sort_items-Ascending (e ∷ es) d =
    insert_item-Ascending e (sort_items es) (All-sort_items _ es d.0) (sort_items-Ascending es d.1)

pub Distinct-append :
    (es : List ShareItem) (x : ShareItem)
    → Distinct es
    → Fresh x.name es
    → Distinct (es ++ (x ∷ []))
Distinct-append [] x d f = (tt, tt)
Distinct-append (e ∷ es) x d f =
    (All-append_one _ es x d.0 (ground (arith, f.0)), Distinct-append es x d.1 f.1)
