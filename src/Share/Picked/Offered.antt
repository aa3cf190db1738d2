-- ===== src/Share/Picked/Offered.antt =====
-- backend.go: the items that a share of picked files is said to offer.
use mathlib.Core.List.Perm
use mathlib.Core.List.{map-append}
use tailcat_gui.Prelude.{
  true, false, Bool, not, ◌&&◌, refl, ◌⊎◌, text_eq, List, [], ◌∷◌, ◌++◌, map, ◌≡◌, inl, inr, sym,
  ◌∙◌, arith, subst, none, some, Text, Bool-cases, Perm, All, append-nil, append_assoc,
}
use tailcat_gui.Prelude.Dict.{Dict, lookup, insert, lookup-insert}
use tailcat_gui.Share.Names.{base, dot, cut_slash}
use tailcat_gui.Share.Request.{rel, has_slash}
use tailcat_gui.Share.Unique.{unique_name-fresh}
use tailcat_gui.Share.Backend.{Try, ok, err}
use tailcat_gui.Share.Picked.Built.{Try-cases, Build-cases}
use tailcat_gui.Share.Picked.Sorted.{
  Fresh, Distinct, Ascending, Distinct-append, All-sort_items, sort_items-perm,
  sort_items-Ascending,
}
use tailcat_gui.Share.Picked.{
  built, Os, ShareItem, Paths, sort_items, with_item, with_root, add_named, add_path, add_paths,
  new_paths_backend, split,
}

-- The map of names has each item under its name.
abbrev Found : Dict ShareItem → List ShareItem → Type 0
Found names = All (λ e. lookup e.name names ≡ some e)

Found-Fresh :
    (n : Text) (names : Dict ShareItem) (es : List ShareItem)
    → lookup n names ≡ none
    → Found names es
    → Fresh n es
Found-Fresh n names [] h f = tt
Found-Fresh n names (e ∷ es) h f = (ground (arith, f.0), Found-Fresh n names es h f.1)

Found-insert :
    (x : ShareItem) (names : Dict ShareItem) (es : List ShareItem)
    → Fresh x.name es
    → Found names es
    → Found (insert x.name x names) (es ++ (x ∷ []))
Found-insert x names [] d f = (ground (arith, lookup-insert x.name x.name x names), tt)
Found-insert x names (e ∷ es) d f =
    (ground (arith, d.0, f.0, lookup-insert x.name e.name x names), Found-insert x names es d.1 f.1)

-- A name that a request can give: `rel` leaves it as it is, it is not the directory itself, and it holds no slash.
abbrev pub is_plain : Text → Bool
is_plain n = text_eq (rel n) n && not (text_eq n dot) && not (text_eq n []) && not (has_slash n)

cut_slash-plain : (n : Text) → has_slash n ≡ false → cut_slash n ≡ (n, [])
unfolding cut_slash has_slash
cut_slash-plain [] h = refl
cut_slash-plain (c ∷ cs) h = ground (arith, cut_slash-plain cs)

module _ (O : Os) where
  -- A request for an item's name is for the item itself, where the name is plain.
  abbrev pub Requested : Paths O → ShareItem → Type 0
  Requested b e = (is_plain e.name ≡ false) ⊎ (split O (rel e.name) b ≡ some (e, dot))

  split-plain :
      (n : Text) (b : Paths O) (e : ShareItem)
      → is_plain n ≡ true
      → lookup n b.by_name ≡ some e
      → split O (rel n) b ≡ some (e, dot)
  unfolding split
  split-plain n b e h l =
      let same : rel n ≡ n = ground (arith, h) in
      let cut = cut_slash-plain n (ground (arith, h)) in rw same (ground (arith, h, l, cut))

  Found-Requested : (b : Paths O) (es : List ShareItem) → Found b.by_name es → All (Requested b) es
  Found-Requested b [] f = tt
  Found-Requested b (e ∷ es) (f, fs) = (
    (elim (Bool-cases (is_plain e.name)) [
      | inl h ↦ inr (split-plain e.name b e h f)
      | inr h ↦ inl h
    ]),
    Found-Requested b es fs,
  )

  -- The items so far have names of their own, and a request for such a name finds its item.
  record IsIndexed (b : Paths O) : Type 0 where
    distinct : Distinct b.entries
    found : Found b.by_name b.entries

  with_item-IsIndexed :
      (e : ShareItem) (b : Paths O)
      → lookup e.name b.by_name ≡ none
      → IsIndexed b
      → IsIndexed (with_item O e b)
  unfolding with_item
  with_item-IsIndexed e b h i =
      let f = Found-Fresh e.name b.by_name b.entries h i.found in
      record {
        distinct = Distinct-append b.entries e i.distinct f;
        found = Found-insert e b.by_name b.entries f i.found;
      }

  -- The paths of the items.
  abbrev pub paths_of : List ShareItem → List Text
  paths_of = map (λ e. e.path)

  paths_of-append_one :
      (es : List ShareItem) (e : ShareItem)
      → paths_of (es ++ (e ∷ [])) ≡ paths_of es ++ (e.path ∷ [])
  paths_of-append_one es e = map-append _ es (e ∷ [])

  -- What a round adds.
  abbrev Adds : Text → Paths O → Try (Paths O) → Type 0
  Adds p b (err x) = Unit
  Adds p b (ok b') = IsIndexed b' × (paths_of b'.entries ≡ paths_of b.entries ++ (p ∷ []))

  add_named-Adds :
      (p : Text) (info : O.Info) (name : Text) (b : Paths O)
      → lookup name b.by_name ≡ none
      → IsIndexed b
      → Adds p b (add_named O p info name b)
  unfolding add_named
  add_named-Adds p info name b h i = elim (Bool-cases (O.is_dir info)) [
    | inl d ↦ elim (Try-cases (O.open_root p)) [
      | inl (root, o) ↦
          let e : ShareItem = record { name = name; size = 0; is_dir = true; path = p } in
          rw (d, o)
            (
              with_item-IsIndexed e (with_root O name root b) (unfold with_root in h)
                  (unfold with_root in record { distinct = i.distinct; found = i.found }),
              unfold with_item with_root in paths_of-append_one b.entries e,
            )
      | inr (x, o) ↦ rw (d, o) tt
    ]
    | inr d ↦
        let e : ShareItem = record { name = name; size = O.size info; is_dir = false; path = p } in
        rw d (with_item-IsIndexed e b h i, unfold with_item in paths_of-append_one b.entries e)
  ]

  add_path-Adds : (p : Text) (b : Paths O) → IsIndexed b → Adds p b (add_path O p b)
  unfolding add_path
  add_path-Adds p b i = elim (Try-cases (O.stat p)) [
    | inl (info, st) ↦
        let (name, found, free, _) = unique_name-fresh b.by_name (base p) in
        rw (st, add_path, found) (add_named-Adds p info name b free i)
    | inr (x, st) ↦ rw (st, add_path) tt
  ]

  add_paths-IsIndexed :
      (ps : List Text) (b b' : Paths O)
      → IsIndexed b
      → add_paths O ps b ≡ built b'
      → IsIndexed b' × (paths_of b'.entries ≡ paths_of b.entries ++ ps)
  unfolding add_paths
  add_paths-IsIndexed [] b b' i h =
      subst (λ (c : Paths O). IsIndexed c × (paths_of c.entries ≡ paths_of b.entries ++ [])) {x = b}
        {y = b'} (ground arith) (i, sym (append-nil _))
  add_paths-IsIndexed (p ∷ ps) b b' i h = elim (Try-cases (add_path O p b)) [
    | inl (c, e) ↦
        let (j, one) = subst (Adds p b) e (add_path-Adds p b i) in
        let (k, all) = add_paths-IsIndexed ps c b' j (ground arith) in
        (k, all ∙ rw one (append_assoc (paths_of b.entries) (p ∷ []) ps))
    | inr (x, e) ↦ absurd (ground arith)
  ]

  -- If `newPathsBackend` succeeds, the items that it offers stand in ascending order of their
  -- names, of which no two are the same; and they are the picked paths, each once. A request for
  -- the name of an item is resolved to that item itself, if the name has no slash, is not `.` and
  -- is one that `rel` leaves as it is.
  pub new_paths_backend-offers :
      (ps : List Text) (b : Paths O)
      → new_paths_backend O ps ≡ built b
      → Ascending b.entries × Perm (paths_of b.entries) ps × All (Requested b) b.entries
  unfolding new_paths_backend
  new_paths_backend-offers ps b h = elim (Build-cases (add_paths O ps start)) [
    | inl (c, e) ↦
        let (i, all) = add_paths-IsIndexed ps start c (record { distinct = tt; found = tt }) e in
        subst
          (λ (d : Paths O).
            Ascending d.entries × Perm (paths_of d.entries) ps × All (Requested d) d.entries)
          {x = record c { entries = sort_items c.entries }} {y = b} (ground arith)
          (
            sort_items-Ascending c.entries i.distinct,
            subst (Perm _) all (Perm.map _ (sort_items-perm c.entries)),
            Found-Requested (record c { entries = sort_items c.entries }) (sort_items c.entries)
                (All-sort_items _ c.entries i.found),
          )
    | inr (x, c, e) ↦ absurd (ground arith)
  ]
    where
      start : Paths O
      start = record { entries = []; by_name = []; roots = [] }
