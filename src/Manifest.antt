-- ===== src/Manifest.antt =====
-- core/engine/manifest.go: what a server tells of itself on port 1. `marshal` and `unmarshal`
-- stand for `encoding/json`.
pub mod Read
use tailcat_gui.Prelude.{
  ℕ, Bool, true, false, not, ◌&&◌, List, [], ◌∷◌, ◌++◌, map, Option, none, some, if◌then◌else◌,
  Text, codes, text_eq, ℤ, ◌==◌, take,
}
use tailcat_gui.Errors.{Result, ok, err, coded, internal, plain}
use tailcat_gui.Share.Mode.{Mode, mode_text}
use tailcat_gui.Share.Names.{trim_space, trim_suffix, base}
use tailcat_gui.Share.Picked.{ShareItem}
use tailcat_gui.Tokens.{Outcome, good, bad}
use tailcat_gui.Serve.{StartServerArgs}
use tailcat_gui.Serve.Start.{Service, shell, shared, no_service, service_of}

pub record ManifestFiles : Type 0 where
  pub mode : Text
  pub items : List ShareItem
  pub dir : Text

pub record Manifest : Type 0 where
  pub app : Text
  pub version : Text
  pub name : Text
  pub platform : Text
  pub ports : List ℤ
  pub all : Bool
  pub exit_node : Bool
  pub ssh : Bool
  pub files : Option ManifestFiles

abbrev pub manifest_app : Text
manifest_app = codes "tailcat-gui"

-- `deviceName`: `hostname` is what `os.Hostname` returns, and `goos` the platform.
unfoldable pub device_name : Outcome Text → Text → Text → Text
device_name hostname goos override =
    let name = trim_space override in
    if not (text_eq name []) then name else (elim hostname [
      | bad _ ↦ goos
      | good h ↦ if text_eq h [] then goos else trim_suffix (codes ".local") h
    ])

abbrev dir_files : StartServerArgs → Mode → Option ManifestFiles
dir_files a mode = elim a.files [
  | none ↦ none
  | some f ↦ some (record { mode = mode_text mode; items = []; dir = base f.dir })
]

-- `mfFiles`, as the `switch` of `startServer` leaves it; `items` are the entries of the share of `a.share_paths`.
unfoldable pub manifest_files :
    List ShareItem → StartServerArgs → Mode → Service → Option ManifestFiles
manifest_files items a mode shell = dir_files a mode
manifest_files items a mode shared = elim a.share_paths [
  | [] ↦ dir_files a mode
  | p ∷ ps ↦ some (record { mode = codes "ro"; items = items; dir = [] })
]
manifest_files items a mode no_service = none

-- The manifest that `startServer` publishes; `device` is the name that `deviceName` gives.
unfoldable pub manifest_of : Text → Text → Text → List ShareItem → StartServerArgs → Mode → Manifest
manifest_of version device goos items a mode = record {
  app = manifest_app;
  version = version;
  name = device;
  platform = goos;
  ports = a.ports;
  all = a.all;
  exit_node = a.exit_node;
  ssh = a.ssh;
  files = manifest_files items a mode (service_of a);
}

-- What `manifestHandler` writes.
unfoldable pub manifest_line : (Manifest → Text) → Manifest → Text
manifest_line marshal m = marshal m ++ (10 ∷ [])

-- `ReadBytes('\n')`: the line, and whether it ends in a newline.
unfoldable pub read_bytes : Text → Text × Bool
read_bytes [] = ([], false)
read_bytes (c ∷ cs) =
    let (line, found) = read_bytes cs in if c == 10 then (c ∷ [], true) else (c ∷ line, found)

-- `1<<20`
unfoldable pub read_limit : ℕ
read_limit = 1048576

-- `readManifest`: what the connection delivers, and the error in which it ends.
unfoldable pub read_manifest : (Text → Outcome Manifest) → Text → Text → Result Manifest
unfolding read_bytes
read_manifest unmarshal stream end =
    let (line, found) = read_bytes (take read_limit stream) in
    if not found && text_eq line [] then err (plain end []) else (elim (unmarshal line) [
      | bad e ↦ err (plain e [])
      | good m ↦
          if text_eq m.app manifest_app
          then ok m
          else err (coded internal (codes "not a tailcat-gui manifest") [])
    ])

-- A manifest without what its encoding leaves out, the local paths of the items.
abbrev pub as_sent : Manifest → Manifest
as_sent m = record m {
  files = elim m.files [
    | none ↦ none
    | some f ↦ some (record f { items = map (λ (i : ShareItem). record i { path = [] }) f.items })
  ];
}
