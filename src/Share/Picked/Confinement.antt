-- ===== src/Share/Picked/Confinement.antt =====
-- backend.go: a share of picked files reaches nothing else.
use tailcat_gui.Prelude.{
  true, false, List, [], ◌≡◌, ◌⊎◌, inl, inr, sym, ◌∙◌, arith, Option, some, Text, text_eq,
  if◌then◌else◌, Option-cases, Bool-cases, subst, ◌||◌,
}
use tailcat_gui.Prelude.Dict.{lookup}
use tailcat_gui.Share.Backend.{Try, ok, err, not_exist}
use tailcat_gui.Share.Names.{dot, cut_slash}
use tailcat_gui.Share.Picked.Built.{Among, IsPicked, new_paths_backend-IsPicked}
use tailcat_gui.Share.Picked.{
  built, told, virtual_dir, Os, ShareItem, Paths, new_paths_backend, split, resolve, open_read,
  stat,
}

module _ (O : Os) where
  -- The three answers that a picked share has for a path.
  abbrev pub Confined :
      {A : Type 0} → List Text → (Text → Try A) → (O.Root → Text → Try A) → Option (Try A) → Type 0
  Confined ps plain rooted res =
      (res ≡ some (err not_exist))
      ⊎ ((p : Text) × Among p ps × (res ≡ some (plain p)))
      ⊎ ((p sub : Text) × (root : O.Root) × Among p ps
          × (O.open_root p ≡ ok root)
          × (res ≡ some (rooted root sub)))

  pub split_found :
      (rel : Text) (b : Paths O) (e : ShareItem) (sub : Text)
      → split O rel b ≡ some (e, sub)
      → (n : Text) × (lookup n b.by_name ≡ some e)
  unfolding split
  split_found rel b e sub h =
      let name = (cut_slash rel).0 in
      elim (Bool-cases (text_eq rel dot || text_eq rel [])) [
        | inl root ↦ absurd (ground arith)
        | inr below ↦ (name, ground arith)
      ]

  resolve_folder :
      {A : Type 0} (plain : Text → Try A) (rooted : O.Root → Text → Try A) (rel : Text)
      (b : Paths O) (e : ShareItem) (sub : Text) (root : O.Root)
      → split O rel b ≡ some (e, sub)
      → e.is_dir ≡ true
      → lookup e.name b.roots ≡ some root
      → resolve O plain rooted rel b ≡ some (rooted root sub)
  unfolding resolve
  resolve_folder plain rooted rel b e sub root s d held = ground arith

  resolve_file :
      {A : Type 0} (plain : Text → Try A) (rooted : O.Root → Text → Try A) (rel : Text)
      (b : Paths O) (e : ShareItem) (sub : Text)
      → split O rel b ≡ some (e, sub)
      → e.is_dir ≡ false
      → resolve O plain rooted rel b
        ≡ (if text_eq sub dot then some (plain e.path) else some (err not_exist))
  unfolding resolve
  resolve_file plain rooted rel b e sub s d = ground arith

  resolve-Confined :
      {A : Type 0} (plain : Text → Try A) (rooted : O.Root → Text → Try A) (ps : List Text)
      (rel : Text) (b : Paths O)
      → IsPicked O ps b
      → Confined ps plain rooted (resolve O plain rooted rel b)
  resolve-Confined plain rooted ps rel b picked = elim (Option-cases (split O rel b)) [
    | inl s ↦ inl (unfold resolve in ground arith)
    | inr ((e, sub), s) ↦
        let (n, found) = split_found rel b e sub s in
        let i = picked n e found in
        elim (Bool-cases e.is_dir) [
          | inl d ↦
              let (root, held, opened) = i.rooted d in
              inr (
                inr (
                  e.path,
                  sub,
                  root,
                  i.picked,
                  opened,
                  resolve_folder plain rooted rel b e sub root s d
                      (subst (λ k. lookup k b.roots ≡ some root) (sym i.named) held),
                ))
          | inr d ↦
              let file = resolve_file plain rooted rel b e sub s d in
              elim (Bool-cases (text_eq sub dot)) [
                | inl t ↦ inr (inl (e.path, i.picked, file ∙ rw t))
                | inr t ↦ inl (file ∙ rw t)
              ]
        ]
  ]

  -- On a share that `newPathsBackend` has built, whatever the path is, `Open` does not panic. It
  -- answers that there is no such file, opens a file that was picked by its own path, or opens
  -- something through the root of a folder that was picked.
  pub open_read-Confined :
      (ps : List Text) (rel : Text) (b : Paths O)
      → new_paths_backend O ps ≡ built b
      → Confined ps O.open_path O.root_open (open_read O rel b)
  unfolding open_read
  open_read-Confined ps rel b h =
      resolve-Confined O.open_path O.root_open ps rel b (new_paths_backend-IsPicked O ps b h)

  -- On a share that `newPathsBackend` has built, whatever the path is, `Stat` does not panic. It
  -- answers with the virtual root, or that there is no such file, or it tells about a file that was
  -- picked by its own path, or about something through the root of a folder that was picked.
  pub stat-Confined :
      (ps : List Text) (rel : Text) (b : Paths O)
      → new_paths_backend O ps ≡ built b
      → (stat O rel b ≡ some (ok (virtual_dir dot)))
        ⊎ Confined ps
            (λ p. told (O.stat p))
            (λ root sub. told (O.root_stat root sub))
            (stat O rel b)
  unfolding stat
  stat-Confined ps rel b h = elim (Bool-cases (text_eq rel dot || text_eq rel [])) [
    | inl root ↦ inl (rw root)
    | inr below ↦ inr (
        rw below (
          resolve-Confined (λ p. told (O.stat p)) (λ root sub. told (O.root_stat root sub)) ps rel b
            (new_paths_backend-IsPicked O ps b h)))
  ]
