-- ===== src/Share/Access.antt =====
-- handlers.go: what the modes of a share allow. A backend whose other methods are replaced gives the same
-- replies and the same state, so the handlers do not call those methods.
use tailcat_gui.Prelude.{
  ℕ, Bool, List, ◌≡◌, ◌≢◌, ◌⊎◌, refl, arith, Text, codes, Text-discrete, inl, inr,
}
use tailcat_gui.Share.Mode.{read_only, read_write, write_only}
use tailcat_gui.Share.Mode
use tailcat_gui.Share.Backend.{Try, Flags, Backend}
use tailcat_gui.Share.Handlers.{
  permission_denied, err, Request, file_read, file_write, open_file, file_cmd, file_list, set_stat,
  set_size, set_times, set_permissions, serve_file, open_flags,
}

-- The methods of a backend that change files or open them for writing.
pub record Writers (B : Backend) : Type 0 where
  pub open_file : Text → Flags → B.State → Try B.File × B.State
  pub mkdir : Text → B.State → Try (Unit {0}) × B.State
  pub remove : Text → B.State → Try (Unit {0}) × B.State
  pub rename : Text → Text → B.State → Try (Unit {0}) × B.State
  pub symlink : Text → Text → B.State → Try (Unit {0}) × B.State
  pub link : Text → Text → B.State → Try (Unit {0}) × B.State
  pub chmod : Text → ℕ → B.State → Try (Unit {0}) × B.State
  pub chtimes : Text → ℕ → ℕ → B.State → Try (Unit {0}) × B.State
  pub file_truncate : B.File → ℕ → B.State → B.State

-- The backend with other such methods.
abbrev pub with_writers : (B : Backend) → Writers B → Backend
with_writers B w = record B {
  open_file = w.open_file;
  mkdir = w.mkdir;
  remove = w.remove;
  rename = w.rename;
  symlink = w.symlink;
  link = w.link;
  chmod = w.chmod;
  chtimes = w.chtimes;
  file_truncate = w.file_truncate;
}

-- The methods that read files, list directories, or take away and move what is there.
pub record Readers (B : Backend) : Type 0 where
  pub open_read : Text → B.State → Try B.File × B.State
  pub read_dir : Text → B.State → Try (List B.Info) × B.State
  pub readlink : Text → B.State → Try Text × B.State
  pub remove : Text → B.State → Try (Unit {0}) × B.State
  pub rename : Text → Text → B.State → Try (Unit {0}) × B.State
  pub symlink : Text → Text → B.State → Try (Unit {0}) × B.State
  pub link : Text → Text → B.State → Try (Unit {0}) × B.State
  pub file_truncate : B.File → ℕ → B.State → B.State

abbrev pub with_readers : (B : Backend) → Readers B → Backend
with_readers B w = record B {
  open_read = w.open_read;
  read_dir = w.read_dir;
  readlink = w.readlink;
  remove = w.remove;
  rename = w.rename;
  symlink = w.symlink;
  link = w.link;
  file_truncate = w.file_truncate;
}

-- All handlers reply alike and leave the same state over the two backends.
abbrev pub SameWriters : (B : Backend) → Writers B → Mode.Mode → Request → B.State → Type 0
SameWriters B w m r s =
    let B' = with_writers B w in
    (file_read B' m r s ≡ file_read B m r s)
    × (file_write B' m r s ≡ file_write B m r s)
    × (open_file B' m r s ≡ open_file B m r s)
    × (file_cmd B' m r s ≡ file_cmd B m r s)
    × (file_list B' m r s ≡ file_list B m r s)

-- A read-only share changes nothing: whatever the methods that write would do, each request gets the
-- same reply and leaves the same state, and requests to write are refused with the state left as it is.
pub read_only-writes_nothing :
    (B : Backend) (w : Writers B) (r : Request) (s : B.State)
    → SameWriters B w read_only r s
      × (file_write B read_only r s ≡ (err permission_denied, s))
      × (open_file B read_only r s ≡ (err permission_denied, s))
      × (file_cmd B read_only r s ≡ (err permission_denied, s))
unfolding file_read file_write open_file file_cmd file_list serve_file
read_only-writes_nothing B w r s = ((refl, refl, refl, refl, refl), refl, refl, refl)

-- What a drop box refuses: to read, to open for both, to list, and the commands that remove, move or link.
pub record IsDropBox (B : Backend) (r : Request) (s : B.State) : Type 0 where
  pub no_reading : file_read B write_only r s ≡ (err permission_denied, s)
  pub no_opening : open_file B write_only r s ≡ (err permission_denied, s)
  pub no_changing :
      r.method ≢ codes "Mkdir"
      → r.method ≢ codes "Setstat"
      → file_cmd B write_only r s ≡ (err permission_denied, s)
  pub no_listing :
      (r.method ≡ codes "List") ⊎ (r.method ≡ codes "Readlink")
      → file_list B write_only r s ≡ (err permission_denied, s)

abbrev pub SameReaders : (B : Backend) → Readers B → Mode.Mode → Request → B.State → Type 0
SameReaders B w m r s =
    let B' = with_readers B w in
    (file_read B' m r s ≡ file_read B m r s)
    × (file_write B' m r s ≡ file_write B m r s)
    × (open_file B' m r s ≡ open_file B m r s)
    × (file_cmd B' m r s ≡ file_cmd B m r s)
    × (file_list B' m r s ≡ file_list B m r s)

refused-IsDropBox : (B : Backend) (r : Request) (s : B.State) → IsDropBox B r s
unfolding file_read open_file file_cmd file_list Text-discrete
refused-IsDropBox B r s = record {
  no_reading = refl;
  no_opening = refl;
  no_changing = λ a b. ground arith;
  no_listing = elim [ inl e ↦ rw e refl | inr e ↦ rw e refl ];
}

-- A write-only share reads nothing back, and removes, moves and links nothing: whatever the
-- methods that open for reading only, list, read links, truncate a file that is there, remove,
-- move or link would do, each request gets the same reply and leaves the same state. `Fileread`
-- and `OpenFile` are refused, so are the requests to list and to read links, and all commands but
-- `Mkdir` and `Setstat`, with the state left as it is. It says nothing of `Filewrite`, which may
-- overwrite a file, nor of the mode and the times that `Setstat` sets.
pub write_only-reads_nothing :
    (B : Backend) (w : Readers B) (r : Request) (s : B.State)
    → SameReaders B w write_only r s × IsDropBox B r s
unfolding file_read file_write open_file file_cmd file_list serve_file set_stat set_size set_times
    set_permissions
write_only-reads_nothing B w r s = ((refl, refl, refl, refl, refl), refused-IsDropBox B r s)

-- `OpenFile` reads neither the flag that asks for exclusive creation nor that for appending: the
-- file is opened as if the client had not set them.
pub open_file-ignores_flags :
    (B : Backend) (m : Mode.Mode) (r : Request) (excl append : Bool) (s : B.State)
    → open_file B m (record r { pflags = record (r.pflags) { excl = excl; append = append } }) s
      ≡ open_file B m r s
unfolding open_file open_flags
open_file-ignores_flags B m r excl append s = refl
