-- ===== src/Share/Handlers.antt =====
-- core/engine/fileshare/handlers.go: the SFTP requests, over any backend. A handler's reply comes with the
-- state that its calls of the backend leave.
use tailcat_gui.Prelude.{
  ℕ, Bool, true, false, not, ◌||◌, List, [], ◌∷◌, Option, none, some, if◌then◌else◌, Text, codes,
  text_eq, ℤ, ◌⊎◌, inl, inr,
}
use tailcat_gui.Share.Mode.{read_only, write_only}
use tailcat_gui.Share.Mode
use tailcat_gui.Share.Backend.{OsError, not_exist, permission, Try, Flags, Backend}
use tailcat_gui.Share.Backend
use tailcat_gui.Share.Request.{rel}

-- The replies of the SFTP library, and an error of the file system passed on.
pub data Status : Type 0 where
  no_such_file permission_denied failure op_unsupported : Status
  os_error : OsError → Status

pub data Reply {ℓ} (A : Type ℓ) : Type ℓ where
  ok : A → Reply A
  err : Status → Reply A

-- `mapErr`
unfoldable pub map_err : OsError → Status
map_err OsError.not_exist = no_such_file
map_err OsError.permission = permission_denied
map_err OsError.read_only = permission_denied
map_err (OsError.other e) = os_error (OsError.other e)

abbrev pub map_try {ℓ κ} : {A : Type ℓ} {B : Type κ} → (A → B) → Try A → Reply B
map_try f (Try.ok a) = ok (f a)
map_try f (Try.err e) = err (map_err e)

-- `Request.Pflags`
pub record Pflags : Type 0 where
  pub read : Bool
  pub creat : Bool
  pub trunc : Bool
  pub excl : Bool
  pub append : Bool

-- `Request.Attributes` and `AttrFlags`: the attributes that the client gave.
pub record Attributes : Type 0 where
  pub size : Option ℕ
  pub permissions : Option ℕ
  pub times : Option (ℕ × ℕ)

-- The fields of the SFTP library's `Request` that the handlers read.
pub record Request : Type 0 where
  pub method : Text
  pub filepath : Text
  pub target : Text
  pub pflags : Pflags
  pub attributes : Option Attributes

abbrev pub is_write_only : Mode.Mode → Bool
is_write_only write_only = true
is_write_only _ = false

abbrev pub is_read_only : Mode.Mode → Bool
is_read_only read_only = true
is_read_only _ = false

-- `canRead`, `canWrite`
abbrev pub can_read : Mode.Mode → Bool
can_read m = not (is_write_only m)

abbrev pub can_write : Mode.Mode → Bool
can_write m = not (is_read_only m)

-- The flags of `Filewrite`, and those of `OpenFile`, which reads only two.
unfoldable pub write_flags : Pflags → Flags
write_flags p = record {
  mode = if p.read then Backend.reads_writes else Backend.writes;
  create = p.creat;
  trunc = p.trunc;
  excl = p.excl;
  append = p.append;
}

unfoldable pub open_flags : Pflags → Flags
open_flags p = record {
  mode = Backend.reads_writes;
  create = p.creat;
  trunc = p.trunc;
  excl = false;
  append = false;
}

-- `countingFile`, less its hooks and its start; `total` is -1 where it is unknown.
pub record CountingFile (F : Type 0) : Type 0 where
  pub file : F
  pub path : Text
  pub total : ℤ
  pub upload : Bool
  pub bytes : ℕ

module _ (B : Backend) (mode : Mode.Mode) where
  open B use {State, File, Info}

  -- What `Fileread` makes of an open file: a directory is closed again.
  unfoldable pub serve_file : Request → File → Try Info → State → Reply (CountingFile File) × State
  serve_file r f stat s = elim stat [
    | Try.ok info ↦ if B.is_dir info then (err failure, B.file_close f s) else (
      ok (record {
        file = f;
        path = r.filepath;
        total = ℤ.pos (B.size info);
        upload = true;
        bytes = 0;
      }),
      s,
    )
    | Try.err _ ↦ (
      ok (record { file = f; path = r.filepath; total = ℤ.negsuc 0; upload = true; bytes = 0 }),
      s,
    )
  ]

  -- `Fileread`
  unfoldable pub file_read : Request → State → Reply (CountingFile File) × State
  file_read r s =
      if can_read mode
      then (let (opened, s') = B.open_read (rel r.filepath) s in
          elim opened [
            | Try.ok f ↦ let (info, s'') = B.file_stat f s' in serve_file r f info s''
            | Try.err e ↦ (err (map_err e), s')
          ])
      else (err permission_denied, s)

  -- `Filewrite`
  unfoldable pub file_write : Request → State → Reply (CountingFile File) × State
  file_write r s =
      if can_write mode
      then (let (opened, s') = B.open_file (rel r.filepath) (write_flags r.pflags) s in
          (
            map_try
                (λ f. record {
                  file = f;
                  path = r.filepath;
                  total = ℤ.negsuc 0;
                  upload = false;
                  bytes = 0;
                })
                opened,
            s',
          ))
      else (err permission_denied, s)

  -- `OpenFile`
  unfoldable pub open_file : Request → State → Reply File × State
  open_file r s =
      if not (can_write mode) || not (can_read mode)
      then (err permission_denied, s)
      else (let (opened, s') = B.open_file (rel r.filepath) (open_flags r.pflags) s in
          (map_try (λ f. f) opened, s'))

  -- The three parts of `Setstat`: their errors are ignored.
  unfoldable pub set_permissions : Text → Attributes → State → State
  set_permissions p a s = elim a.permissions [ none ↦ s | some perm ↦ (B.chmod p perm s).1 ]

  unfoldable pub set_times : Text → Attributes → State → State
  set_times p a s = elim a.times [ none ↦ s | some (atime, mtime) ↦ (B.chtimes p atime mtime s).1 ]

  abbrev write_only_flags : Flags
  write_only_flags = record {
    mode = Backend.writes;
    create = false;
    trunc = false;
    excl = false;
    append = false;
  }

  unfoldable pub truncate_opened : ℕ → Try File × State → State
  truncate_opened size (Try.ok f, s) = B.file_close f (B.file_truncate f size s)
  truncate_opened size (Try.err _, s) = s

  unfoldable pub set_size : Text → Attributes → State → State
  set_size p a s = elim a.size [
    | none ↦ s
    | some size ↦
        if is_write_only mode then s else truncate_opened size (B.open_file p write_only_flags s)
  ]

  unfoldable pub set_stat : Request → State → State
  set_stat r s = elim r.attributes [
    | none ↦ s
    | some a ↦ let p = rel r.filepath in set_size p a (set_times p a (set_permissions p a s))
  ]

  abbrev reply : Try (Unit {0}) × State → Reply (Unit {0}) × State
  reply (t, s) = (map_try (λ u. u) t, s)

  -- The second `switch` of `Filecmd`.
  unfoldable pub change : Request → State → Reply (Unit {0}) × State
  change r s =
      let p = rel r.filepath in
      if text_eq r.method (codes "Rename") || text_eq r.method (codes "PosixRename")
      then reply (B.rename p (rel r.target) s)
      else if text_eq r.method (codes "Rmdir") || text_eq r.method (codes "Remove")
      then reply (B.remove p s)
      else if text_eq r.method (codes "Symlink")
      then reply (B.symlink r.target p s)
      else if text_eq r.method (codes "Link")
      then reply (B.link (rel r.target) p s)
      else (err op_unsupported, s)

  -- `Filecmd`
  unfoldable pub file_cmd : Request → State → Reply (Unit {0}) × State
  file_cmd r s =
      if can_write mode
      then if text_eq r.method (codes "Mkdir")
        then reply (B.mkdir (rel r.filepath) s)
        else if text_eq r.method (codes "Setstat")
        then (ok tt, set_stat r s)
        else if is_write_only mode
        then (err permission_denied, s)
        else change r s
      else (err permission_denied, s)

  -- What `Filelist` returns: directory entries, one entry, or the target of a link.
  unfoldable pub file_list : Request → State → Reply (List Info ⊎ Text) × State
  file_list r s =
      let p = rel r.filepath in
      if text_eq r.method (codes "List")
      then if can_read mode
        then (let (infos, s') = B.read_dir p s in (map_try inl infos, s'))
        else (err permission_denied, s)
      else if text_eq r.method (codes "Stat") || text_eq r.method (codes "Lstat")
      then (let (info, s') = if text_eq r.method (codes "Lstat") then B.lstat p s else B.stat p s in
          (map_try (λ i. inl (i ∷ [])) info, s'))
      else if text_eq r.method (codes "Readlink")
      then if can_read mode
        then (let (target, s') = B.readlink p s in (map_try inr target, s'))
        else (err permission_denied, s)
      else (err op_unsupported, s)
