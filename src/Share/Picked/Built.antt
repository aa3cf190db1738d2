-- ===== src/Share/Picked/Built.antt =====
-- backend.go: what a share of picked files is made of.
use tailcat_gui.Prelude.{
  true, false, List, [], ◌∷◌, ◌++◌, ◌≡◌, ◌⊎◌, inl, inr, refl, arith, some, Text, text_eq,
  Bool-cases, subst, append_assoc,
}
use tailcat_gui.Prelude.Dict.{Dict, lookup, insert, lookup-insert}
use tailcat_gui.Share.Backend.{Try, ok, err}
use tailcat_gui.Share.Names.{base}
use tailcat_gui.Share.Unique.{unique_name-fresh}
use tailcat_gui.Share.Picked.{
  Build, built, failed, Os, ShareItem, Paths, with_item, with_root, add_named, add_path, add_paths,
  new_paths_backend, sort_items,
}

-- A path that the user picked.
abbrev pub Among : Text → List Text → Type 0
Among p [] = ⊥
Among p (q ∷ qs) = (q ≡ p) ⊎ Among p qs

pub Try-cases {ℓ} : {A : Type ℓ} (t : Try A) → ((a : A) × (t ≡ ok a)) ⊎ ((x : _) × (t ≡ err x))
Try-cases (ok a) = inl (a, refl)
Try-cases (err x) = inr (x, refl)

pub Build-cases :
    {P : Type 0} (t : Build P) → ((b : P) × (t ≡ built b)) ⊎ ((x : _) × (b : P) × (t ≡ failed x b))
Build-cases (built b) = inl (b, refl)
Build-cases (failed x b) = inr (x, b, refl)

module _ (O : Os) where
  -- What the share knows of the item under the name `n`.
  pub record IsItem (ps : List Text) (roots : Dict O.Root) (n : Text) (e : ShareItem) : Type 0 where
    pub named : e.name ≡ n
    pub picked : Among e.path ps
    pub rooted :
        e.is_dir ≡ true → (r : O.Root) × (lookup n roots ≡ some r) × (O.open_root e.path ≡ ok r)

  -- Each item was picked, and each folder among them is open.
  abbrev pub IsPicked : List Text → Paths O → Type 0
  IsPicked ps b = (n : Text) (e : ShareItem) → lookup n b.by_name ≡ some e → IsItem ps b.roots n e

  insert-origin :
      (name n : Text) (x e : ShareItem) (m : Dict ShareItem)
      → lookup n (insert name x m) ≡ some e
      → ((name ≡ n) × (x ≡ e)) ⊎ ((text_eq name n ≡ false) × (lookup n m ≡ some e))
  insert-origin name n x e m h = ground (arith, lookup-insert name n x m)

  add_file-IsPicked :
      (ps : List Text) (e : ShareItem) (b : Paths O)
      → Among e.path ps
      → e.is_dir ≡ false
      → IsPicked ps b
      → IsPicked ps (with_item O e b)
  unfolding with_item
  add_file-IsPicked ps x b among file old n e h = elim (insert-origin x.name n x e b.by_name h) [
    | inl (same, is) ↦
        subst (IsItem ps b.roots n) is (record { named = same; picked = among; rooted = λ d. cc })
    | inr (_, found) ↦ old n e found
  ]

  add_folder-IsPicked :
      (ps : List Text) (e : ShareItem) (root : O.Root) (b : Paths O)
      → Among e.path ps
      → O.open_root e.path ≡ ok root
      → IsPicked ps b
      → IsPicked ps (with_item O e (with_root O e.name root b))
  unfolding with_item with_root
  add_folder-IsPicked ps x root b among opened old n e h =
      elim (insert-origin x.name n x e b.by_name h) [
        | inl (same, is) ↦ subst (IsItem ps _ n) is (record {
          named = same;
          picked = among;
          rooted = λ d. (root, rw lookup-insert (ground arith), opened);
        })
        | inr (differ, found) ↦
            let i = old n e found in
            record {
              named = i.named;
              picked = i.picked;
              rooted = λ d.
                  let (r, held, opened') = i.rooted d in
                  (r, rw (lookup-insert, differ) held, opened');
            }
      ]

  add_named-IsPicked :
      (ps : List Text) (path : Text) (info : O.Info) (name : Text) (b b' : Paths O)
      → Among path ps
      → add_named O path info name b ≡ ok b'
      → IsPicked ps b
      → IsPicked ps b'
  unfolding add_named
  add_named-IsPicked ps path info name b b' among h old = elim (Bool-cases (O.is_dir info)) [
    | inl d ↦ elim (Try-cases (O.open_root path)) [
      | inl (root, o) ↦
          let x : ShareItem = record { name = name; size = 0; is_dir = true; path = path } in
          subst (IsPicked ps) {x = with_item O x (with_root O name root b)} {y = b'} (ground arith)
            (add_folder-IsPicked ps x root b among o old)
      | inr (x, o) ↦ absurd (ground arith)
    ]
    | inr d ↦
        let x : ShareItem = record {
          name = name;
          size = O.size info;
          is_dir = false;
          path = path;
        } in
        subst (IsPicked ps) {x = with_item O x b} {y = b'} (ground arith)
          (add_file-IsPicked ps x b among refl old)
  ]

  add_path-IsPicked :
      (ps : List Text) (path : Text) (b b' : Paths O)
      → Among path ps
      → add_path O path b ≡ ok b'
      → IsPicked ps b
      → IsPicked ps b'
  unfolding add_path
  add_path-IsPicked ps path b b' among h old = elim (Try-cases (O.stat path)) [
    | inl (info, st) ↦
        let (name, found, _, _) = unique_name-fresh b.by_name (base path) in
        add_named-IsPicked ps path info name b b' among (ground arith) old
    | inr (x, st) ↦ absurd (ground arith)
  ]

  Among-later : (p : Text) (qs ps : List Text) → Among p ps → Among p (qs ++ ps)
  Among-later p [] ps a = a
  Among-later p (q ∷ qs) ps a = inr (Among-later p qs ps a)

  add_paths-IsPicked :
      (seen ps : List Text) (b b' : Paths O)
      → add_paths O ps b ≡ built b'
      → IsPicked (seen ++ ps) b
      → IsPicked (seen ++ ps) b'
  unfolding add_paths
  add_paths-IsPicked seen [] b b' h old =
      subst (IsPicked (seen ++ [])) {x = b} {y = b'} (ground arith) old
  add_paths-IsPicked seen (p ∷ ps) b b' h old = elim (Try-cases (add_path O p b)) [
    | inl (b₁, one) ↦
        let step =
          add_path-IsPicked (seen ++ (p ∷ ps)) p b b₁ (Among-later p seen (p ∷ ps) (inl refl)) one
            old in
        rw (append_assoc seen (p ∷ []) ps) at (
          add_paths-IsPicked (seen ++ (p ∷ [])) ps b₁ b' (ground arith)
            (rw (append_assoc seen (p ∷ []) ps) step))
    | inr (x, one) ↦ absurd (ground arith)
  ]

  -- `newPathsBackend` offers only what was picked, and has a root for each folder.
  pub new_paths_backend-IsPicked :
      (ps : List Text) (b : Paths O) → new_paths_backend O ps ≡ built b → IsPicked ps b
  unfolding new_paths_backend
  new_paths_backend-IsPicked ps b h = elim (Build-cases (add_paths O ps start)) [
    | inl (b₁, e) ↦
        let old = add_paths-IsPicked [] ps start b₁ e none_yet in
        subst (IsPicked ps) {x = record b₁ { entries = sort_items b₁.entries }} {y = b}
          (ground arith) (sorted b₁ old)
    | inr (x, b₁, e) ↦ absurd (ground arith)
  ]
    where
      start : Paths O
      start = record { entries = []; by_name = []; roots = [] }

      none_yet : IsPicked ps start
      none_yet n e found = absurd (unfold lookup in cc)

      sorted :
          (b₁ : Paths O)
          → IsPicked ps b₁
          → IsPicked ps (record b₁ { entries = sort_items b₁.entries })
      sorted b₁ old = old
