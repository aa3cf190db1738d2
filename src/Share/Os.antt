-- ===== src/Share/Os.antt =====
-- core/engine/fileshare/backend.go: what a share of picked files asks of the system, and what it
-- tells about files. `Os` stands for the calls of Go's `os` and `io/fs` at one state of the file
-- system.
use tailcat_gui.Prelude.{ℕ, Bool, List, map, Text}
use tailcat_gui.Share.Backend.{Try, ok, err}

pub record Os : Type 1 where
  pub File : Type 0
  pub Info : Type 0
  pub Root : Type 0
  pub DirEntry : Type 0
  pub name : Info → Text
  pub size : Info → ℕ
  pub is_dir : Info → Bool
  pub stat : Text → Try Info
  pub open_path : Text → Try File
  pub open_root : Text → Try Root
  -- `Open`, `Stat` of an `os.Root`, `fs.ReadDir` on it, and `Info` of an entry.
  pub root_open : Root → Text → Try File
  pub root_stat : Root → Text → Try Info
  pub root_read_dir : Root → Text → Try (List DirEntry)
  pub entry_info : DirEntry → Try Info
  -- `Stat` of an open file.
  pub file_stat : File → Try Info

-- What is told about a file: by the system, by `virtualDir`, or by `renamedInfo`.
pub data FileInfo (I : Type 0) : Type 0 where
  plain_info : I → FileInfo I
  virtual_dir : Text → FileInfo I
  renamed : FileInfo I → Text → FileInfo I

abbrev pub told : {I : Type 0} → Try I → Try (FileInfo I)
told (ok i) = ok (plain_info i)
told (err x) = err x

abbrev pub told_all : {I : Type 0} → Try (List I) → Try (List (FileInfo I))
told_all (ok is) = ok (map plain_info is)
told_all (err x) = err x
