-- ===== src/Share/Picked/Closing.antt =====
-- backend.go: the roots that a share of picked files opens, and their closing.
use mathlib.Core.List.Perm
use tailcat_gui.Prelude.{
  true, false, List, [], ◌∷◌, ◌++◌, map, ◌≡◌, inl, inr, refl, sym, ap, ◌∙◌, arith, subst,
  if◌then◌else◌, none, Text, text_eq, Bool-cases, Perm, append_assoc, append-nil,
}
use tailcat_gui.Prelude.Dict.{Dict, lookup, insert, lookup-insert}
use tailcat_gui.Share.Backend.{Try, ok, err, OsError}
use tailcat_gui.Share.Names.{base}
use tailcat_gui.Share.Unique.{unique_name-fresh}
use tailcat_gui.Share.Picked.Built.{Try-cases}
use tailcat_gui.Share.Picked.{
  Build, built, failed, Os, ShareItem, Paths, with_item, with_root, add_named, add_path, add_paths,
  new_paths_backend, close_paths, sort_items,
}

-- The backend that was built, or that was given up.
abbrev pub held : {P : Type 0} → Build P → P
held (built b) = b
held (failed x b) = b

abbrev values : {R : Type 0} → Dict R → List R
values = map (λ (_, r). r)

-- A new key comes last.
insert_new :
    {R : Type 0} (k : Text) (r : R) (m : Dict R)
    → lookup k m ≡ none
    → values (insert k r m) ≡ values m ++ (r ∷ [])
unfolding insert lookup
insert_new k r [] h = refl
insert_new k r ((j, w) ∷ m) h = elim (Bool-cases (text_eq j k)) [
  | inl e ↦ absurd (ground arith)
  | inr e ↦ rw e (ap (◌∷◌ w) (insert_new k r m (ground arith)))
]

module _ (O : Os) where
  -- The roots that are opened for these paths, until a path cannot be looked at or opened.
  unfoldable pub opened_roots : List Text → List O.Root
  opened_roots [] = []
  opened_roots (p ∷ ps) =
      let rest = opened_roots ps in
      elim (O.stat p) [
        | err _ ↦ []
        | ok info ↦
            if O.is_dir info
            then (elim (O.open_root p) [ err _ ↦ [] | ok root ↦ root ∷ rest ])
            else rest
      ]

  -- A root is held under a name that is taken.
  abbrev HoldsNamed : Paths O → Type 0
  HoldsNamed b = (n : Text) → lookup n b.by_name ≡ none → lookup n b.roots ≡ none

  -- What one round does to the roots, and what it means for the roots that are opened.
  abbrev Round : Text → Paths O → Try (Paths O) → Type 0
  Round p b (err x) = (ps : List Text) → opened_roots (p ∷ ps) ≡ []
  Round p b (ok b') =
      HoldsNamed b'
      × (new : List O.Root) × (values b'.roots ≡ values b.roots ++ new)
      × ((ps : List Text) → opened_roots (p ∷ ps) ≡ new ++ opened_roots ps)

  with_item-HoldsNamed : (e : ShareItem) (b : Paths O) → HoldsNamed b → HoldsNamed (with_item O e b)
  unfolding with_item
  with_item-HoldsNamed e b h n free = h n (ground (arith, lookup-insert e.name n e b.by_name, free))

  folder-HoldsNamed :
      (e : ShareItem) (root : O.Root) (b : Paths O)
      → HoldsNamed b
      → HoldsNamed (with_item O e (with_root O e.name root b))
  unfolding with_item with_root
  folder-HoldsNamed e root b h n free =
      ground (arith, lookup-insert e.name n e b.by_name, lookup-insert e.name n root b.roots, h n)

  opened_unknown :
      (p : Text) (ps : List Text) {x : OsError} → O.stat p ≡ err x → opened_roots (p ∷ ps) ≡ []
  unfolding opened_roots
  opened_unknown p ps st = ground arith

  opened_file :
      (p : Text) (ps : List Text) {info : O.Info}
      → O.stat p ≡ ok info
      → O.is_dir info ≡ false
      → opened_roots (p ∷ ps) ≡ opened_roots ps
  unfolding opened_roots
  opened_file p ps st d = ground arith

  opened_folder :
      (p : Text) (ps : List Text) {info : O.Info} {root : O.Root}
      → O.stat p ≡ ok info
      → O.is_dir info ≡ true
      → O.open_root p ≡ ok root
      → opened_roots (p ∷ ps) ≡ root ∷ opened_roots ps
  unfolding opened_roots
  opened_folder p ps st d o = ground arith

  opened_shut :
      (p : Text) (ps : List Text) {info : O.Info} {x : OsError}
      → O.stat p ≡ ok info
      → O.is_dir info ≡ true
      → O.open_root p ≡ err x
      → opened_roots (p ∷ ps) ≡ []
  unfolding opened_roots
  opened_shut p ps st d o = ground arith

  add_named-Round :
      (p : Text) (info : O.Info) (name : Text) (b : Paths O)
      → O.stat p ≡ ok info
      → lookup name b.by_name ≡ none
      → HoldsNamed b
      → Round p b (add_named O p info name b)
  unfolding add_named
  add_named-Round p info name b st free h = elim (Bool-cases (O.is_dir info)) [
    | inl d ↦ elim (Try-cases (O.open_root p)) [
      | inl (root, o) ↦
          let e : ShareItem = record { name = name; size = 0; is_dir = true; path = p } in
          rw (d, o)
            (
              folder-HoldsNamed e root b h,
              root ∷ [],
              unfold with_item with_root in insert_new name root b.roots (h name free),
              λ ps. opened_folder p ps st d o,
            )
      | inr (x, o) ↦ rw (d, o) (λ ps. opened_shut p ps st d o)
    ]
    | inr d ↦
        let e : ShareItem = record { name = name; size = O.size info; is_dir = false; path = p } in
        rw d (
          with_item-HoldsNamed e b h,
          [],
          unfold with_item in sym (append-nil _),
          λ ps. opened_file p ps st d,
        )
  ]

  add_path-Round : (p : Text) (b : Paths O) → HoldsNamed b → Round p b (add_path O p b)
  unfolding add_path
  add_path-Round p b h = elim (Try-cases (O.stat p)) [
    | inl (info, st) ↦
        let (name, found, free, _) = unique_name-fresh b.by_name (base p) in
        rw (st, add_path, found) (add_named-Round p info name b st free h)
    | inr (x, st) ↦ rw (st, add_path) (λ ps. opened_unknown p ps st)
  ]

  add_paths-roots :
      (ps : List Text) (b : Paths O)
      → HoldsNamed b
      → values (held (add_paths O ps b)).roots ≡ values b.roots ++ opened_roots ps
  unfolding add_paths
  add_paths-roots [] b h = unfold opened_roots in sym (append-nil _)
  add_paths-roots (p ∷ ps) b h = elim (Try-cases (add_path O p b)) [
    | inl (b', e) ↦
        let (h', new, roots, rest) = subst (Round p b) e (add_path-Round p b h) in
        rw (e, held, add_paths)
          (add_paths-roots ps b' h'
            ∙ rw (roots, rest ps) (append_assoc (values b.roots) new (opened_roots ps)))
    | inr (x, e) ↦
        let none_more = subst (Round p b) e (add_path-Round p b h) in
        rw (e, held, add_paths, none_more ps) (sym (append-nil _))
  ]

  -- Whatever the paths are, what `newPathsBackend` builds, or has built when it fails, holds the
  -- roots that were opened for them, each once: `Close` closes these and no others, in whatever
  -- order Go goes through the map.
  pub new_paths_backend-closes :
      (enumerate : Dict O.Root → List (Text × O.Root))
      → ((m : Dict O.Root) → Perm (enumerate m) m)
      → (ps : List Text)
      → Perm (close_paths O enumerate (held (new_paths_backend O ps))) (opened_roots ps)
  unfolding new_paths_backend close_paths
  new_paths_backend-closes enumerate same ps =
      let start : Paths O = record { entries = []; by_name = []; roots = [] } in
      let all : values (held (add_paths O ps start)).roots ≡ opened_roots ps =
        add_paths-roots ps start (λ n free. unfold lookup in refl) in
      subst (Perm _) (sorting (add_paths O ps start) ∙ all) (Perm.map _ (same _))
    where
      sorting :
          (t : Build (Paths O))
          → values
              (held {P = Paths O} (elim t [
                | failed x b ↦ failed x b
                | built b ↦ built (record b { entries = sort_items b.entries })
              ])).roots
            ≡ values (held t).roots
      sorting (built b) = refl
      sorting (failed x b) = refl
