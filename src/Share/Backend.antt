-- ===== src/Share/Backend.antt =====
-- core/engine/fileshare/backend.go: the file system that a share exposes, as an interface. `State` is
-- what the calls act on; for a directory share they are the methods of Go's `os.Root`.
use tailcat_gui.Prelude.{ℕ, Bool, List, Text}

-- The errors that the handlers tell apart. `read_only` is `errReadOnly`.
pub data OsError : Type 0 where
  not_exist permission read_only : OsError
  other : Text → OsError

pub data Try {ℓ} (A : Type ℓ) : Type ℓ where
  ok : A → Try A
  err : OsError → Try A

-- `O_RDONLY`, `O_WRONLY`, `O_RDWR`
pub data Mode : Type 0 where
  reads writes reads_writes : Mode

-- The flags of `os.OpenFile`.
pub record Flags : Type 0 where
  pub mode : Mode
  pub create : Bool
  pub trunc : Bool
  pub excl : Bool
  pub append : Bool

pub record Backend : Type 1 where
  pub State : Type 0
  pub File : Type 0
  pub Info : Type 0
  pub name : Info → Text
  pub size : Info → ℕ
  pub is_dir : Info → Bool
  pub open_file : Text → Flags → State → Try File × State
  pub open_read : Text → State → Try File × State
  pub stat : Text → State → Try Info × State
  pub lstat : Text → State → Try Info × State
  pub read_dir : Text → State → Try (List Info) × State
  pub readlink : Text → State → Try Text × State
  pub mkdir : Text → State → Try (Unit {0}) × State
  pub remove : Text → State → Try (Unit {0}) × State
  pub rename : Text → Text → State → Try (Unit {0}) × State
  pub symlink : Text → Text → State → Try (Unit {0}) × State
  pub link : Text → Text → State → Try (Unit {0}) × State
  pub chmod : Text → ℕ → State → Try (Unit {0}) × State
  pub chtimes : Text → ℕ → ℕ → State → Try (Unit {0}) × State
  -- The methods of the open `*os.File` that the handlers call.
  pub file_stat : File → State → Try Info × State
  pub file_truncate : File → ℕ → State → State
  pub file_close : File → State → State
