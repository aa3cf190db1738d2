-- ===== src/Share/Picked.antt =====
-- core/engine/fileshare/backend.go: a picked set of files and folders under a virtual root.
pub mod Built
pub mod Confinement
pub mod Closing
pub mod Served
pub mod Sorted
pub mod Offered
use tailcat_gui.Prelude.{
  ℕ, Bool, true, false, not, ◌&&◌, ◌||◌, List, [], ◌∷◌, ◌++◌, map, if◌then◌else◌, Option, none,
  some, Text, text_eq, ltb,
}
use tailcat_gui.Prelude.Dict.{Dict, lookup, insert}
use tailcat_gui.Share.Backend.{
  Try, ok, err, OsError, not_exist, read_only, Flags, Mode, reads, other,
}
use tailcat_gui.Share.Names.{base, cut_slash, dot}
use tailcat_gui.Share.Unique.{unique_name}
pub use tailcat_gui.Share.Os.{Os, FileInfo, plain_info, virtual_dir, renamed, told, told_all}

-- How `newPathsBackend` ends: with the backend, or with an error, behind `b.Close()` on what it has so far.
pub data Build (P : Type 0) : Type 0 where
  built : P → Build P
  failed : OsError → P → Build P

pub record ShareItem : Type 0 where
  pub name : Text
  pub size : ℕ
  pub is_dir : Bool
  pub path : Text

pub record PathsBackend (R : Type 0) : Type 0 where
  pub entries : List ShareItem
  pub by_name : Dict ShareItem
  pub roots : Dict R

-- Go's `<` on strings.
unfoldable pub text_lt : Text → Text → Bool
text_lt s [] = false
text_lt [] (d ∷ ds) = true
text_lt (c ∷ cs) (d ∷ ds) =
    let rest = text_lt cs ds in if ltb c d then true else if ltb d c then false else rest

-- `sort.Slice` by name; the names differ, so every sort gives the same list.
unfoldable pub insert_item : ShareItem → List ShareItem → List ShareItem
insert_item x [] = x ∷ []
insert_item x (y ∷ ys) = if text_lt y.name x.name then y ∷ insert_item x ys else x ∷ y ∷ ys

unfoldable pub sort_items : List ShareItem → List ShareItem
unfolding insert_item
sort_items [] = []
sort_items (x ∷ xs) = insert_item x (sort_items xs)

module _ (O : Os) where
  abbrev pub Paths : Type 0
  Paths = PathsBackend O.Root

  unfoldable pub with_item : ShareItem → Paths → Paths
  with_item e b = record b { entries = b.entries ++ (e ∷ []); by_name = insert e.name e b.by_name }

  unfoldable pub with_root : Text → O.Root → Paths → Paths
  with_root name root b = record b { roots = insert name root b.roots }

  -- The body of the loop, once the file is known and has its name.
  unfoldable pub add_named : Text → O.Info → Text → Paths → Try Paths
  add_named path info name b =
      if O.is_dir info
      then (elim (O.open_root path) [
        | err x ↦ err x
        | ok root ↦ ok (
            with_item (record { name = name; size = 0; is_dir = true; path = path })
              (with_root name root b))
      ])
      else ok
          (with_item (record { name = name; size = O.size info; is_dir = false; path = path }) b)

  -- One round of the loop. `uniqueName` always ends (Share.Unique), so its `none` is not met.
  unfoldable pub add_path : Text → Paths → Try Paths
  add_path path b = elim (O.stat path) [
    | err x ↦ err x
    | ok info ↦ elim (unique_name b.by_name (base path)) [
      | none ↦ err not_exist
      | some name ↦ add_named path info name b
    ]
  ]

  unfoldable pub add_paths : List Text → Paths → Build Paths
  add_paths [] b = built b
  add_paths (p ∷ ps) b = elim (add_path p b) [ err x ↦ failed x b | ok b' ↦ add_paths ps b' ]

  -- `newPathsBackend`
  unfoldable pub new_paths_backend : List Text → Build Paths
  new_paths_backend ps = elim (add_paths ps (record { entries = []; by_name = []; roots = [] })) [
    | failed x b ↦ failed x b
    | built b ↦ built (record b { entries = sort_items b.entries })
  ]

  -- `Close`: the roots that it closes, in the order in which `range` goes through the map.
  unfoldable pub close_paths : (Dict O.Root → List (Text × O.Root)) → Paths → List O.Root
  close_paths enumerate b = map (λ (_, root). root) (enumerate b.roots)

  -- `split`
  unfoldable pub split : Text → Paths → Option (ShareItem × Text)
  split rel b =
      if text_eq rel dot || text_eq rel []
      then none
      else (let (name, sub) = cut_slash rel in
          elim (lookup name b.by_name) [
            | none ↦ none
            | some e ↦ some (e, (if text_eq sub [] then dot else sub))
          ])

  -- A method of `b.roots[name]`; a root that is missing would be a nil pointer, so `none` is a panic.
  abbrev pub at_root {ℓ} : {A : Type ℓ} → Text → (O.Root → A) → Paths → Option A
  at_root name f b = elim (lookup name b.roots) [ none ↦ none | some root ↦ some (f root) ]

  -- What `Open` and `Stat` share: nothing below a file, and the root's method below a folder.
  unfoldable pub resolve {ℓ} :
      {A : Type ℓ} → (Text → Try A) → (O.Root → Text → Try A) → Text → Paths → Option (Try A)
  resolve plain rooted rel b = elim (split rel b) [
    | none ↦ some (err not_exist)
    | some (e, sub) ↦
        if e.is_dir
        then at_root e.name (λ root. rooted root sub) b
        else if text_eq sub dot
        then some (plain e.path)
        else some (err not_exist)
  ]

  -- `Open`
  unfoldable pub open_read : Text → Paths → Option (Try O.File)
  unfolding resolve
  open_read rel b = resolve O.open_path O.root_open rel b

  abbrev pub is_reads : Mode → Bool
  is_reads reads = true
  is_reads _ = false

  -- `OpenFile`
  unfoldable pub open_file : Text → Flags → Paths → Option (Try O.File)
  open_file rel f b =
      if not (is_reads f.mode) || f.create || f.trunc || f.append
      then some (err read_only)
      else open_read rel b

  abbrev pub Info : Type 0
  Info = FileInfo O.Info

  -- `Name`, `Size` and `IsDir` of the three.
  unfoldable pub info_name : Info → Text
  info_name (plain_info i) = O.name i
  info_name (virtual_dir n) = n
  info_name (renamed i n) = n

  unfoldable pub info_size : Info → ℕ
  info_size (plain_info i) = O.size i
  info_size (virtual_dir n) = 0
  info_size (renamed i n) = info_size i

  unfoldable pub info_is_dir : Info → Bool
  info_is_dir (plain_info i) = O.is_dir i
  info_is_dir (virtual_dir n) = true
  info_is_dir (renamed i n) = info_is_dir i

  -- `Stat`, and `Lstat`, which is the same.
  unfoldable pub stat : Text → Paths → Option (Try Info)
  unfolding resolve
  stat rel b =
      if text_eq rel dot || text_eq rel []
      then some (ok (virtual_dir dot))
      else resolve (λ p. told (O.stat p)) (λ root sub. told (O.root_stat root sub)) rel b

  -- The list of the virtual root. A picked file that is gone is left out.
  unfoldable pub list_entries : List ShareItem → List Info
  list_entries [] = []
  list_entries (e ∷ es) =
      let rest = list_entries es in
      if e.is_dir
      then renamed (virtual_dir e.name) e.name ∷ rest
      else (elim (O.stat e.path) [ err _ ↦ rest | ok fi ↦ renamed (plain_info fi) e.name ∷ rest ])

  -- What is known of the entries of a directory; one whose `Info` fails is left out.
  unfoldable pub entry_infos : List O.DirEntry → List O.Info
  entry_infos [] = []
  entry_infos (e ∷ es) =
      let rest = entry_infos es in elim (O.entry_info e) [ err _ ↦ rest | ok fi ↦ fi ∷ rest ]

  -- `fs.ReadDir` below a root, and what follows it.
  unfoldable pub read_root : O.Root → Text → Try (List O.Info)
  unfolding entry_infos
  read_root root sub = elim (O.root_read_dir root sub) [
    | err x ↦ err x
    | ok es ↦ ok (entry_infos es)
  ]

  -- `ReadDir`
  unfoldable pub read_dir : Text → Paths → Option (Try (List Info))
  read_dir rel b =
      if text_eq rel dot || text_eq rel []
      then some (ok (list_entries b.entries))
      else (elim (split rel b) [
        | none ↦ some (err not_exist)
        | some (e, sub) ↦
            if e.is_dir
            then at_root e.name (λ root. told_all (read_root root sub)) b
            else some (err not_exist)
      ])
