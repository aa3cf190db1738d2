-- ===== src/Serve.antt =====
-- core/engine/server.go: what `startServer` accepts, which ports it serves, and what it does with
-- its session. `stat` stands for `os.Stat`: whether a path is a directory.
pub mod Accepted
pub mod Routes
pub mod Announced
pub mod Started
pub mod Hosted
pub mod Start
use tailcat_gui.Prelude.{
  ℕ, ◌-◌, ◌%◌, Bool, true, false, not, ◌&&◌, ◌||◌, List, [], ◌∷◌, ◌++◌, Option, none, some,
  if◌then◌else◌, Text, codes, ◌==◌, ltb, leb, ℤ, ltb_ℤ,
}
use tailcat_gui.Errors.{Error, Result, ok, err, coded, bad_request, unsupported, ◌>>=◌}
use tailcat_gui.Events.{text, int, bool, ints, texts}
use tailcat_gui.Events
use tailcat_gui.Session.{
  SessionOp, sets_info, sets_state, adds_closer, sets_token, fails, starting, running, share,
  tailcat_server,
}
use tailcat_gui.Share.Mode.{Mode, read_only, parse_mode, mode_text}
use tailcat_gui.Tokens.{Outcome, good, bad}

pub record FilesSpec : Type 0 where
  pub dir : Text
  pub mode : Text

-- `key` is read nowhere.
pub record StartServerArgs : Type 0 where
  pub ports : List ℤ
  pub all : Bool
  pub exit_node : Bool
  pub files : Option FilesSpec
  pub ssh : Bool
  pub share_paths : List Text
  pub name : Text

abbrev pub has_files : StartServerArgs → Bool
has_files a = elim a.files [ none ↦ false | some _ ↦ true ]

abbrev pub out_of_range : ℤ → Bool
out_of_range p = ltb_ℤ p (ℤ.pos 1) || ltb_ℤ (ℤ.pos 65535) p

abbrev pub offers_nothing : StartServerArgs → Bool
offers_nothing a =
    Events.is_empty a.ports
    && not a.all
    && not a.exit_node
    && not (has_files a)
    && not a.ssh
    && Events.is_empty a.share_paths

-- The refusals of `startServer`.
abbrev pub bad_port : ℤ → Error
bad_port p = coded bad_request (codes "port out of range: %d") (int p ∷ [])

abbrev pub bad_share : Text → Error
bad_share e = coded bad_request (codes "share path: %v") (text e ∷ [])

abbrev pub bad_mode : FilesSpec → Error
bad_mode f =
    coded bad_request (codes "unknown file share mode %q (want ro, rw or wo)") (text f.mode ∷ [])

abbrev pub bad_dir : Text → Error
bad_dir e = coded bad_request (codes "files dir: %v") (text e ∷ [])

abbrev pub no_dir : FilesSpec → Error
no_dir f = coded bad_request (codes "files dir %q is not a directory") (text f.dir ∷ [])

abbrev pub nothing_to_serve : Error
nothing_to_serve =
    coded bad_request
      (codes "nothing to serve: give ports, all, exit_node, files, share_paths or ssh") []

abbrev pub two_shares : Error
two_shares = coded bad_request (codes "files and share_paths are mutually exclusive") []

abbrev pub no_shell : Error
no_shell = coded unsupported (codes "no-auth SSH server is not supported on this platform") []

unfoldable pub check_ports : List ℤ → Result (Unit {0})
check_ports [] = ok tt
check_ports (p ∷ ps) =
    let rest = check_ports ps in if out_of_range p then err (bad_port p) else rest

module _ (stat : Text → Outcome Bool) (ssh_supported : Bool) where
  unfoldable pub check_shares : List Text → Result (Unit {0})
  check_shares [] = ok tt
  check_shares (p ∷ ps) =
      let rest = check_shares ps in elim (stat p) [ bad e ↦ err (bad_share e) | good _ ↦ rest ]

  -- The mode of the share; `read_only` is the zero value.
  unfoldable pub check_files : Option FilesSpec → Result Mode
  check_files none = ok read_only
  check_files (some f) = elim (parse_mode f.mode) [
    | err _ ↦ err (bad_mode f)
    | ok m ↦ elim (stat f.dir) [
      | bad e ↦ err (bad_dir e)
      | good is_dir ↦ if is_dir then ok m else err (no_dir f)
    ]
  ]

  -- The checks that come before the session.
  unfoldable pub validate : StartServerArgs → Result Mode
  validate a =
      if offers_nothing a
      then err nothing_to_serve
      else if has_files a && not (Events.is_empty a.share_paths)
      then err two_shares
      else check_shares a.share_paths >>= λ _. check_ports a.ports >>= λ _.
          (if a.ssh && not ssh_supported then err no_shell else check_files a.files)

-- What `OnTCP` hands a connection to. `service` is the handler of port 22.
pub data Handler : Type 0 where
  manifest service : Handler
  forward_to : ℕ → Handler

-- `uint16(p)`
abbrev pub uint16 : ℤ → ℕ
uint16 (ℤ.pos n) = n % 65536
uint16 (ℤ.negsuc n) = 65535 - n % 65536

-- `portSet[port]`
unfoldable pub in_port_set : ℕ → List ℤ → Bool
in_port_set port [] = false
in_port_set port (p ∷ ps) = uint16 p == port || in_port_set port ps

abbrev pub manifest_port : ℕ
manifest_port = 1

abbrev pub sftp_port : ℕ
sftp_port = 22

-- `port22 != nil`, where the `switch` has no error.
abbrev pub has_service : StartServerArgs → Bool
has_service a = a.ssh || not (Events.is_empty a.share_paths) || has_files a

-- `srv.OnTCP`; `none` is `nil`.
unfoldable pub on_tcp : StartServerArgs → ℕ → Option Handler
on_tcp a port =
    if port == manifest_port && not (in_port_set manifest_port a.ports)
    then some manifest
    else if port == sftp_port && has_service a
    then some service
    else if a.all || in_port_set port a.ports
    then some (forward_to port)
    else none

-- `slices.Sort` on the ports, as an insertion sort.
unfoldable pub insert_port : ℤ → List ℤ → List ℤ
insert_port p [] = p ∷ []
insert_port p (q ∷ qs) = let rest = insert_port p qs in if ltb_ℤ q p then q ∷ rest else p ∷ q ∷ qs

unfoldable pub sort_ports : List ℤ → List ℤ
unfolding insert_port
sort_ports [] = []
sort_ports (p ∷ ps) = insert_port p (sort_ports ps)

abbrev pub same_port : ℤ → ℤ → Bool
same_port p q = not (ltb_ℤ p q) && not (ltb_ℤ q p)

-- `slices.Compact`: of equal neighbours the first stays.
unfoldable pub compact : List ℤ → List ℤ
compact [] = []
compact (p ∷ []) = p ∷ []
compact (p ∷ q ∷ qs) = let rest = compact (q ∷ qs) in if same_port p q then rest else p ∷ rest

abbrev pub to_ranges : List ℤ → List ℕ
to_ranges [] = []
to_ranges (p ∷ ps) = uint16 p ∷ to_ranges ps

abbrev pub offered : StartServerArgs → List ℤ
offered a =
    (a.ports ++ (ℤ.pos manifest_port ∷ [])) ++ (if has_service a then ℤ.pos sftp_port ∷ [] else [])

-- `srv.ServedTCPPorts`, each range being one port
unfoldable pub served_ports : StartServerArgs → List ℕ
unfolding sort_ports compact
served_ports a = if a.all then [] else to_ranges (compact (sort_ports (offered a)))

-- What `startServer` records of its arguments; `device` is the name that `deviceName` gives.
unfoldable pub info_ops : StartServerArgs → Mode → Text → List SessionOp
info_ops a mode device =
    (sets_info (codes "ports") (ints a.ports)
      ∷ sets_info (codes "all") (bool a.all)
      ∷ sets_info (codes "exit_node") (bool a.exit_node)
      ∷ sets_info (codes "ssh") (bool a.ssh)
      ∷ sets_info (codes "name") (text device)
      ∷ [])
    ++ (elim a.files [
      | none ↦ []
      | some f ↦
          sets_info (codes "files_dir") (text f.dir)
          ∷ sets_info (codes "files_mode") (text (mode_text mode))
          ∷ []
    ])
    ++ (if Events.is_empty a.share_paths
        then []
        else sets_info (codes "share_paths") (texts a.share_paths)
          ∷ sets_info (codes "files_mode") (text (codes "ro"))
          ∷ [])

-- The goroutine: `started` is what `srv.Start` returns, with the server's token where it succeeds.
unfoldable pub start_ops : Outcome Text → List SessionOp
start_ops (bad e) =
    sets_state starting (codes "selecting relay") ∷ fails (codes "start server: " ++ e) ∷ []
start_ops (good blob) =
    sets_state starting (codes "selecting relay")
    ∷ adds_closer tailcat_server
    ∷ sets_token blob
    ∷ sets_state running (codes "listening")
    ∷ []
