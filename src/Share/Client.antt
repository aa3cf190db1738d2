-- ===== src/Share/Client.antt =====
-- core/engine/fileshare/client.go: listing, sending and fetching files over SFTP. What the file
-- systems and the server answer is given by parameters, errors as their texts. The rate of a
-- `Progress` is left out.
pub mod Walks
pub mod Reports
pub mod Trees
pub mod Everything
use tailcat_gui.Prelude.{
  ℕ, zero, suc, ◌+◌, Bool, true, false, not, ◌&&◌, ◌||◌, List, [], ◌∷◌, ◌++◌, map, reverse, Option,
  none, some, if◌then◌else◌, Text, codes, text_eq, ℤ, ltb,
}
use tailcat_gui.Tokens.{Outcome, good, bad}
use tailcat_gui.Share.Names.{clean, join, base, cut_slash, has_byte, dot}
use tailcat_gui.Share.Counting.{Progress, final_total}

-- What a transfer holds open: tailcat's client, the connection to port 22, and what runs over it.
pub data Resource : Type 0 where
  tailcat_client connection ssh_client sftp_client : Resource

-- `NewClient`, on what `ssh.NewClientConn` and `sftp.NewClient` answer, and what it closes.
unfoldable pub new_client :
    Outcome (Unit {0}) → Outcome (Unit {0}) → Outcome (Unit {0}) × List Resource
new_client (bad e) sftp = (bad (codes "ssh handshake: " ++ e), [])
new_client (good _) (bad e) = (bad (codes "open sftp: " ++ e), ssh_client ∷ [])
new_client (good _) (good _) = (good tt, [])

-- `Close`
abbrev pub close_client : List Resource
close_client = sftp_client ∷ ssh_client ∷ connection ∷ []

-- `os.FileInfo` of a remote file, as `List` reads it.
pub record RemoteInfo : Type 0 where
  pub name : Text
  pub size : ℤ
  pub is_dir : Bool
  pub mod_ms : ℤ
  pub mode : Text
  pub is_link : Bool

pub record Entry : Type 0 where
  pub name : Text
  pub size : ℤ
  pub is_dir : Bool
  pub mod_ms : ℤ
  pub mode : Text
  pub is_link : Bool
  pub dirpath : Text

abbrev pub entry : Text → RemoteInfo → Entry
entry dir i = record {
  name = i.name;
  size = i.size;
  is_dir = i.is_dir;
  mod_ms = i.mod_ms;
  mode = i.mode;
  is_link = i.is_link;
  dirpath = dir;
}

-- `List`
unfoldable pub list : (Text → Outcome (List RemoteInfo)) → Text → Outcome (List Entry)
list read_dir dir =
    let dir' = if text_eq dir [] then dot else dir in
    elim (read_dir dir') [ bad e ↦ bad e | good infos ↦ good (map (entry dir') infos) ]

abbrev non_empty : List Text → List Text
non_empty [] = []
non_empty (e ∷ es) = if text_eq e [] then non_empty es else e ∷ non_empty es

-- `path.Join`
unfoldable pub path_join : List Text → Text
path_join es = elim (non_empty es) [ [] ↦ [] | f ∷ fs ↦ clean (join (f ∷ fs)) ]

-- `path.Dir`
unfoldable pub path_dir : Text → Text
path_dir s =
    let (_, rest) = cut_slash (reverse s) in
    clean (if has_byte b'/' s then reverse rest ++ (b'/' ∷ []) else [])

-- How a copy goes: what is opened and made, the bytes that each `Read` or `Write` transfers, how
-- `io.Copy` and `Close` end, and `ctx.Err()`.
pub record Copy : Type 0 where
  pub source : Outcome (Unit {0})
  pub parent : Outcome (Unit {0})
  pub target : Outcome (Unit {0})
  pub chunks : List ℕ
  pub copied : Option Text
  pub closed : Option Text
  pub ctx_err : Option Text

-- `Read` of `progressReader`, and `Write` of `progressWriter`: the progress, and what is reported
-- if it is more than nothing.
unfoldable pub transfer_chunk : ℕ → Progress → Progress × List Progress
transfer_chunk n p =
    if ltb 0 n then (let p' = record p { bytes = p.bytes + n } in (p', p' ∷ [])) else (p, [])

unfoldable pub transfer_chunks : List ℕ → Progress → Progress × List Progress
transfer_chunks [] p = (p, [])
transfer_chunks (n ∷ ns) p =
    let (p', rs) = transfer_chunk n p in let (p'', rs') = transfer_chunks ns p' in (p'', rs ++ rs')

-- `finish` of the two.
unfoldable pub finish_reader : Bool → Progress → Progress
finish_reader ok p = record p {
  done = true;
  total = if ok then final_total p.total p.bytes else p.total;
}

unfoldable pub finish_writer : Progress → Progress
finish_writer p = record p { done = true }

abbrev pub first_error : Option Text → Option Text → Option Text
first_error none b = b
first_error (some a) b = some a

-- The error of a copy that was opened.
abbrev pub copy_error : Copy → Option Text
copy_error c = first_error c.copied (first_error c.closed c.ctx_err)

abbrev pub is_none : Option Text → Bool
is_none none = true
is_none (some _) = false

abbrev pub begun : Text → ℤ → Bool → Progress
begun path size upload = record {
  path = path;
  bytes = 0;
  total = size;
  upload = upload;
  done = false;
}

-- `uploadFile`: its error, and what it reports. What `MkdirAll` answers is not looked at.
unfoldable pub upload_file : Copy → Text → ℤ → Option Text × List Progress
upload_file c remote size = elim c.source [
  | bad e ↦ (some e, [])
  | good _ ↦ elim c.target [
    | bad e ↦ (some e, [])
    | good _ ↦
        let (p, rs) = transfer_chunks c.chunks (begun remote size true) in
        (copy_error c, rs ++ (finish_reader (is_none (copy_error c)) p ∷ []))
  ]
]

-- `downloadFile`
unfoldable pub download_file : Copy → Text → ℤ → Option Text × List Progress
download_file c remote size = elim c.source [
  | bad e ↦ (some e, [])
  | good _ ↦ elim c.parent [
    | bad e ↦ (some e, [])
    | good _ ↦ elim c.target [
      | bad e ↦ (some e, [])
      | good _ ↦
          let (p, rs) = transfer_chunks c.chunks (begun remote size false) in
          (copy_error c, rs ++ (finish_writer p ∷ []))
    ]
  ]
]
