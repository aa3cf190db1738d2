-- ===== src/Share/Client/Walks.antt =====
-- client.go: trees of files, sent and fetched visit by visit.
use tailcat_gui.Prelude.{
  ℕ, zero, suc, Bool, true, false, not, ◌||◌, List, [], ◌∷◌, ◌++◌, Option, none, some,
  if◌then◌else◌, Text, codes, text_eq, ℤ,
}
use tailcat_gui.Tokens.{Outcome, good, bad}
use tailcat_gui.Share.Names.{clean, base, dot}
use tailcat_gui.Share.Counting.{Progress}
use tailcat_gui.Share.Client.{
  RemoteInfo, Entry, list, path_join, Copy, first_error, upload_file, download_file,
}

pub data FileType : Type 0 where
  directory regular special : FileType

-- What is done on the other side of a transfer: a directory, or a file with the reports of its progress.
pub data Act : Type 0 where
  makes : Text → Act
  transfers : (from to : Text) → List Progress → Act

abbrev pub error_of : Outcome (Unit {0}) → Option Text
error_of (good _) = none
error_of (bad e) = some e

-- A file or directory of a tree as a walk comes to it: the walk's error, `ctx.Err()`, the relative
-- path, and what is asked of it.
pub record Visit : Type 0 where
  pub path : Text
  pub error : Option Text
  pub ctx_err : Option Text
  pub rel : Outcome Text
  pub type : FileType
  pub made : Outcome (Unit {0})
  pub size : Outcome ℤ
  pub copy : Copy

-- The end of `Upload`'s callback and of the loop of `Download`, for a path on the other side.
unfoldable pub transfer_entry :
    (Copy → Text → ℤ → Option Text × List Progress)
    → Visit
    → (named : Text) → Text
    → FileType
    → Option Text × List Act
transfer_entry transfer v named to directory = (error_of v.made, makes to ∷ [])
transfer_entry transfer v named to special = (none, [])
transfer_entry transfer v named to regular = elim v.size [
  | bad e ↦ (some e, [])
  | good size ↦ let (e, rs) = transfer v.copy named size in (e, transfers v.path to rs ∷ [])
]

-- One visit, where `failed` is the error of the walk or of the context. The reports name the file by `named`.
unfoldable pub visit :
    (Copy → Text → ℤ → Option Text × List Progress)
    → Option Text
    → (Text → Text)
    → (Text → Text)
    → Visit
    → Option Text × List Act
visit transfer failed named place v = elim failed [
  | some e ↦ (some e, [])
  | none ↦ elim v.rel [
    | bad e ↦ (some e, [])
    | good r ↦ transfer_entry transfer v (named r) (place r) v.type
  ]
]

-- `filepath.WalkDir`, the loop over a walker, and that over entries: the first error ends it.
unfoldable pub walk : {V : Type 0} → (V → Option Text × List Act) → List V → Option Text × List Act
walk f [] = (none, [])
walk f (v ∷ vs) =
    let (e, acts) = f v in
    let (e', acts') = walk f vs in elim e [ some x ↦ (some x, acts) | none ↦ (e', acts ++ acts') ]

-- The callback of `Upload`: the reports name the remote path.
unfoldable pub upload_visit : Text → Text → Visit → Option Text × List Act
upload_visit remote_dir top v =
    let place = λ (r : Text). path_join (remote_dir ∷ top ∷ r ∷ []) in
    visit upload_file (first_error v.error v.ctx_err) place place v

-- `Upload`: `st` is what `os.Stat` says, a directory or a size; `file` and `visits` are what the
-- file or the tree answers.
unfoldable pub upload :
    Outcome (Bool × ℤ) → Copy → List Visit → Text → Text → Option Text × List Act
upload st file visits local remote_dir =
    let dir = if text_eq remote_dir [] then dot else remote_dir in
    elim st [
      | bad e ↦ (some e, [])
      | good (is_dir, size) ↦
          let to = path_join (dir ∷ base local ∷ []) in
          let (e, rs) = upload_file file to size in
          if not is_dir
          then (e, transfers local to rs ∷ [])
          else walk (upload_visit dir (base local)) visits
    ]

-- What the server and the local file system answer to `Download`.
pub record Remote : Type 0 where
  pub read_dir : Text → Outcome (List RemoteInfo)
  pub stat : Text → Outcome (Bool × ℤ)
  pub tree : Text → List Visit
  pub file : Text → Copy

abbrev pub is_everything : Text → Bool
is_everything s = text_eq s dot || text_eq s (codes "/") || text_eq s []

-- The body of the loop of `Download`, whose reports name the remote path.
unfoldable pub download_visit : Text → Visit → Option Text × List Act
download_visit local_dir v =
    visit download_file (first_error v.ctx_err v.error) (λ _. v.path)
      (λ r. path_join (local_dir ∷ r ∷ [])) v

-- `Download` of one file or tree.
unfoldable pub download_one : Remote → Text → Text → Option Text × List Act
download_one server remote local_dir = elim (server.stat remote) [
  | bad e ↦ (some e, [])
  | good (is_dir, size) ↦
      let to = path_join (local_dir ∷ base remote ∷ []) in
      let (e, rs) = download_file (server.file remote) remote size in
      if not is_dir
      then (e, transfers remote to rs ∷ [])
      else walk (download_visit local_dir) (server.tree remote)
]

-- The loop over the entries of a directory; `none` is a call that does not return.
unfoldable pub each :
    (Text → Option (Option Text × List Act)) → List Entry → Option (Option Text × List Act)
each f [] = some (none, [])
each f (x ∷ xs) =
    let rest = each f xs in
    elim (f x.name) [
      | none ↦ none
      | some (e, acts) ↦ elim e [
        | some why ↦ some (some why, acts)
        | none ↦ elim rest [ none ↦ none | some (e', acts') ↦ some (e', acts ++ acts') ]
      ]
    ]

-- `Download`, on fuel for the calls that it makes of itself.
unfoldable pub download : ℕ → Remote → Text → Text → Option (Option Text × List Act)
unfolding list download_one each
download zero server remote local_dir = none
download (suc n) server remote local_dir =
    let again = λ (name : Text). download n server name local_dir in
    elim (is_everything (clean remote)) [
      | false ↦ some (download_one server (clean remote) local_dir)
      | true ↦ elim (list server.read_dir dot) [
        | bad e ↦ some (some e, [])
        | good es ↦ each again es
      ]
    ]
