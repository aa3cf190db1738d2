-- ===== src/Share/Folder.antt =====
-- core/engine/fileshare/backend.go: `dirBackend`, the share of one directory. `RootFs` stands for the methods of the
-- `os.Root` that it holds, of `fs.ReadDir` on it, and of the files that are opened.
use tailcat_gui.Prelude.{ℕ, Bool, List, [], ◌∷◌, Text}
use tailcat_gui.Share.Backend.{Backend, Try, ok, err, Flags}

pub record RootFs : Type 1 where
  pub State : Type 0
  pub File : Type 0
  pub Info : Type 0
  pub DirEntry : Type 0
  pub name : Info → Text
  pub size : Info → ℕ
  pub is_dir : Info → Bool
  pub open_read : Text → State → Try File × State
  pub open_file : Text → Flags → State → Try File × State
  pub stat : Text → State → Try Info × State
  pub lstat : Text → State → Try Info × State
  pub read_dir : Text → State → Try (List DirEntry) × State
  pub entry_info : DirEntry → State → Try Info × State
  pub readlink : Text → State → Try Text × State
  pub mkdir : Text → State → Try (Unit {0}) × State
  pub remove : Text → State → Try (Unit {0}) × State
  pub rename : Text → Text → State → Try (Unit {0}) × State
  pub symlink : Text → Text → State → Try (Unit {0}) × State
  pub link : Text → Text → State → Try (Unit {0}) × State
  pub chmod : Text → ℕ → State → Try (Unit {0}) × State
  pub chtimes : Text → ℕ → ℕ → State → Try (Unit {0}) × State
  pub file_stat : File → State → Try Info × State
  pub file_truncate : File → ℕ → State → State
  pub file_close : File → State → State

module _ (R : RootFs) where
  -- The loop of `ReadDir`: an entry whose `Info` fails is left out.
  unfoldable pub collect_infos : List R.DirEntry → R.State → List R.Info × R.State
  collect_infos [] s = ([], s)
  collect_infos (e ∷ es) s =
      let (info, s') = R.entry_info e s in
      let (infos, s'') = collect_infos es s' in
      (elim info [ ok fi ↦ fi ∷ infos | err _ ↦ infos ], s'')

  -- `ReadDir`
  unfoldable pub read_folder : Text → R.State → Try (List R.Info) × R.State
  unfolding collect_infos
  read_folder rel s =
      let (entries, s') = R.read_dir rel s in
      elim entries [
        | err x ↦ (err x, s')
        | ok es ↦ let (infos, s'') = collect_infos es s' in (ok infos, s'')
      ]

  -- The methods of `dirBackend`.
  abbrev pub dir_backend : Backend
  dir_backend = record {
    State = R.State;
    File = R.File;
    Info = R.Info;
    name = R.name;
    size = R.size;
    is_dir = R.is_dir;
    open_file = R.open_file;
    open_read = R.open_read;
    stat = R.stat;
    lstat = R.lstat;
    read_dir = read_folder;
    readlink = R.readlink;
    mkdir = R.mkdir;
    remove = R.remove;
    rename = R.rename;
    symlink = R.symlink;
    link = R.link;
    chmod = R.chmod;
    chtimes = R.chtimes;
    file_stat = R.file_stat;
    file_truncate = R.file_truncate;
    file_close = R.file_close;
  }
