-- ===== src/Share/Picked/Served.antt =====
-- backend.go and handlers.go together: a share of picked files, as the server of `NewPathsServer`
-- shows it to clients.
use tailcat_gui.Prelude.{
  Bool, true, false, ◌||◌, List, [], ◌≡◌, ◌⊎◌, inl, inr, refl, sym, subst, arith, Option, none,
  some, Text, text_eq, Bool-cases, Option-cases,
}
use tailcat_gui.Prelude.Dict.{lookup}
use tailcat_gui.Share.Mode.{read_only}
use tailcat_gui.Share.Backend
use tailcat_gui.Share.Backend.{Backend, Try, ok, err, not_exist}
use tailcat_gui.Share.Names.{dot}
use tailcat_gui.Share.Request.{rel}
use tailcat_gui.Share.Handlers
use tailcat_gui.Share.Handlers.{
  Request, Reply, CountingFile, permission_denied, file_read, file_write, file_cmd, file_list,
  serve_file,
}
use tailcat_gui.Share.Picked.Built.{Among, new_paths_backend-IsPicked}
use tailcat_gui.Share.Picked.Confinement.{Confined, open_read-Confined, stat-Confined, split_found}
use tailcat_gui.Share.Picked.{
  Os, ShareItem, Paths, built, told, told_all, Info, info_name, info_size, info_is_dir,
  new_paths_backend, split, open_read, open_file, stat, read_dir, read_root, list_entries,
}

-- A method that may panic, on a state that says whether one has: after a panic its answer means nothing.
abbrev pub catch {ℓ} : {A : Type ℓ} → Option (Try A) → Bool → Try A × Bool
catch none panicked = (err not_exist, true)
catch (some t) panicked = (t, panicked)

module _ (O : Os) (b : Paths O) where
  -- The methods of `pathsBackend`. Those that change something refuse; `Chmod` and `Chtimes` too.
  abbrev pub paths_backend : Backend
  paths_backend = record {
    State = Bool;
    File = O.File;
    Info = Info O;
    name = info_name O;
    size = info_size O;
    is_dir = info_is_dir O;
    open_file = λ p f s. catch (open_file O p f b) s;
    open_read = λ p s. catch (open_read O p b) s;
    stat = λ p s. catch (stat O p b) s;
    lstat = λ p s. catch (stat O p b) s;
    read_dir = λ p s. catch (read_dir O p b) s;
    readlink = λ p s. (err not_exist, s);
    mkdir = λ p s. (err Backend.read_only, s);
    remove = λ p s. (err Backend.read_only, s);
    rename = λ p q s. (err Backend.read_only, s);
    symlink = λ p q s. (err Backend.read_only, s);
    link = λ p q s. (err Backend.read_only, s);
    chmod = λ p m s. (err Backend.read_only, s);
    chtimes = λ p a m s. (err Backend.read_only, s);
    file_stat = λ f s. (told (O.file_stat f), s);
    file_truncate = λ f n s. s;
    file_close = λ f s. s;
  }

module _ (O : Os) (ps : List Text) where
  -- A file that was picked, or that lies in a folder that was picked.
  abbrev pub FromPicked : O.File → Type 0
  FromPicked f =
      ((p : Text) × Among p ps × (O.open_path p ≡ ok f))
      ⊎ ((p sub : Text) × (root : O.Root) × Among p ps
          × (O.open_root p ≡ ok root)
          × (O.root_open root sub ≡ ok f))

  abbrev pub Serves : Reply (CountingFile O.File) → Type 0
  Serves (Handlers.ok c) = FromPicked c.file
  Serves (Handlers.err x) = Unit

  abbrev Opens : Try O.File → Type 0
  Opens (ok f) = FromPicked f
  Opens (err x) = Unit

  Confined-Opens :
      (res : Option (Try O.File))
      → Confined O ps O.open_path O.root_open res
      → (t : Try O.File) × (res ≡ some t) × Opens t
  Confined-Opens res (inl e) = (err not_exist, e, tt)
  Confined-Opens res (inr (inl (p, among, e))) = (O.open_path p, e, opens (O.open_path p) refl)
    where
      opens : (t : Try O.File) → O.open_path p ≡ t → Opens t
      opens (ok f) o = inl (p, among, o)
      opens (err x) o = tt
  Confined-Opens res (inr (inr (p, sub, root, among, opened, e))) =
      (O.root_open root sub, e, opens (O.root_open root sub) refl)
    where
      opens : (t : Try O.File) → O.root_open root sub ≡ t → Opens t
      opens (ok f) o = inr (p, sub, root, among, opened, o)
      opens (err x) o = tt

  module _ (b : Paths O) (h : new_paths_backend O ps ≡ built b) where
    file-Serves :
        (r : Request) (f : O.File) (info : Try (Info O))
        → FromPicked f
        → let served = serve_file (paths_backend O b) read_only r f info false in
          Serves served.0 × (served.1 ≡ false)
    unfolding serve_file
    file-Serves r f (err x) o = (o, refl)
    file-Serves r f (ok i) o = elim (Bool-cases (info_is_dir O i)) [
      | inl d ↦ rw d (tt, refl)
      | inr d ↦ rw d (o, refl)
    ]

    -- What `Fileread` makes of an answer of `Open`.
    abbrev fetched : Request → Option (Try O.File) → Reply (CountingFile O.File) × Bool
    fetched r res =
        let (t, panicked) = catch res false in
        elim t [
          | ok f ↦ serve_file (paths_backend O b) read_only r f (told (O.file_stat f)) panicked
          | err x ↦ (Handlers.err (Handlers.map_err x), panicked)
        ]

    fetched-Serves :
        (r : Request) (t : Try O.File)
        → Opens t
        → Serves (fetched r (some t)).0 × ((fetched r (some t)).1 ≡ false)
    fetched-Serves r (ok f) o = file-Serves r f (told (O.file_stat f)) o
    fetched-Serves r (err x) o = (tt, refl)

    read-Serves :
        (r : Request)
        → Serves (file_read (paths_backend O b) read_only r false).0
          × ((file_read (paths_backend O b) read_only r false).1 ≡ false)
    unfolding file_read
    read-Serves r =
        let (t, e, o) =
          Confined-Opens (open_read O (rel r.filepath) b)
            (open_read-Confined O ps (rel r.filepath) b h) in
        subst (λ res. Serves (fetched r res).0 × ((fetched r res).1 ≡ false)) (sym e)
          (fetched-Serves r t o)

    stat-calm : (p : Text) → (t : Try (Info O)) × (stat O p b ≡ some t)
    stat-calm p = elim (stat-Confined O ps p b h) [
      | inl e ↦ (_, e)
      | inr (inl e) ↦ (_, e)
      | inr (inr (inl (q, _, e))) ↦ (_, e)
      | inr (inr (inr (q, sub, root, _, _, e))) ↦ (_, e)
    ]

    read_dir_folder :
        (p : Text) (e : ShareItem) (sub : Text) (root : O.Root)
        → (text_eq p dot || text_eq p []) ≡ false
        → split O p b ≡ some (e, sub)
        → e.is_dir ≡ true
        → lookup e.name b.roots ≡ some root
        → read_dir O p b ≡ some (told_all (read_root O root sub))
    unfolding read_dir
    read_dir_folder p e sub root below s d held = ground arith

    read_dir-calm : (p : Text) → (t : Try (List (Info O))) × (read_dir O p b ≡ some t)
    unfolding read_dir
    read_dir-calm p = elim (Bool-cases (text_eq p dot || text_eq p [])) [
      | inl top ↦ (ok (list_entries O b.entries), rw top)
      | inr below ↦ elim (Option-cases (split O p b)) [
        | inl s ↦ (err not_exist, rw (below, s))
        | inr ((e, sub), s) ↦ elim (Bool-cases e.is_dir) [
          | inl d ↦
              let (n, found) = split_found O p b e sub s in
              let i = new_paths_backend-IsPicked O ps b h n e found in
              let (root, held, _) = i.rooted d in
              (
                told_all (read_root O root sub),
                read_dir_folder p e sub root below s d
                    (subst (λ k. lookup k b.roots ≡ some root) (sym i.named) held),
              )
          | inr d ↦ (err not_exist, rw (below, s, d))
        ]
      ]
    ]

    list-calm : (r : Request) → (file_list (paths_backend O b) read_only r false).1 ≡ false
    unfolding file_list
    list-calm r =
        let (t, e) = stat-calm (rel r.filepath) in
        let (u, d) = read_dir-calm (rel r.filepath) in ground (arith, e, d)

    -- On a share that `newPathsBackend` has built, whatever a client asks for, the read-only server of
    -- `NewPathsServer` does not panic, refuses what would write, and serves only a file that was picked by its own
    -- path, or one that it opens through the root of a folder that was picked.
    pub requests-Serve :
        (r : Request)
        → let B = paths_backend O b in
          Serves (file_read B read_only r false).0
          × ((file_read B read_only r false).1 ≡ false)
          × ((file_list B read_only r false).1 ≡ false)
          × (file_write B read_only r false ≡ (Handlers.err permission_denied, false))
          × (Handlers.open_file B read_only r false ≡ (Handlers.err permission_denied, false))
          × (file_cmd B read_only r false ≡ (Handlers.err permission_denied, false))
    unfolding file_write Handlers.open_file file_cmd
    requests-Serve r =
        let (served, calm) = read-Serves r in (served, calm, list-calm r, refl, refl, refl)
