-- ===== src/Commands.antt =====
-- core/engine/commands.go: a request of the UI, dispatched to its command. What lies outside the
-- engine is one record, `World`. `json.Unmarshal` is a parameter for each type of arguments.
pub mod Dispatched
use tailcat_gui.Prelude.{
  ℕ, Bool, true, false, List, [], ◌∷◌, Option, none, some, if◌then◌else◌, Text, codes, text_eq,
}
use tailcat_gui.Prelude.Dict.{Dict, lookup}
use tailcat_gui.Errors.{Error, Result, ok, err, coded, bad_request, Code, code_of}
use tailcat_gui.Events.{Event, text}
use tailcat_gui.Session.{Session, forward}
use tailcat_gui.Tokens.{Outcome, good, bad, parse_token}
use tailcat_gui.Tokens.Info.{ConnView, token_fields}
use tailcat_gui.Engine.{Engine, active_sessions, list_sessions, stop_session}
use tailcat_gui.Serve.{StartServerArgs}
use tailcat_gui.Serve.Start.{start_server}
use tailcat_gui.Forward.{
  StartForwardArgs, StartSocksArgs, Listener, Opened, Answer, start_forward, start_ssh_forward,
  start_socks,
}
use tailcat_gui.Transfers.{SendFilesArgs, DownloadArgs, send_files, download}
use tailcat_gui.Transfers.Listing.{ShareAnswers, list_remote}
use tailcat_gui.Manifest.{Manifest, device_name}
use tailcat_gui.Probe.{Answers, ProbeResult, PingAnswer, probe, ping}

-- The timeout of `TokenArgs` bounds the time that the answers take.
pub record TokenArgs : Type 0 where
  pub token : Text

pub record SessionArgs : Type 0 where
  pub session_id : Text

pub record ListRemoteArgs : Type 0 where
  pub token : Text
  pub dir : Text

pub record Request : Type 0 where
  pub op : Text
  pub args : Text

-- The commands that `dispatch` knows.
pub data Op : Type 0 where
  get_caps list_sessions_op stop parse_token_op ping_op probe_op start_server_op start_forward_op
        start_ssh_forward_op start_socks_op send_files_op list_remote_op download_op :
      Op

abbrev pub ops : Dict Op
ops =
    (codes "get_caps", get_caps)
    ∷ (codes "list_sessions", list_sessions_op)
    ∷ (codes "stop", stop)
    ∷ (codes "parse_token", parse_token_op)
    ∷ (codes "ping", ping_op)
    ∷ (codes "probe", probe_op)
    ∷ (codes "start_server", start_server_op)
    ∷ (codes "start_forward", start_forward_op)
    ∷ (codes "start_ssh_forward", start_ssh_forward_op)
    ∷ (codes "start_socks", start_socks_op)
    ∷ (codes "send_files", send_files_op)
    ∷ (codes "list_remote", list_remote_op)
    ∷ (codes "download", download_op)
    ∷ []

-- `json.Unmarshal` of the arguments of each command.
pub record Decoders : Type 0 where
  pub session_args : Text → Outcome SessionArgs
  pub token_args : Text → Outcome TokenArgs
  pub server_args : Text → Outcome StartServerArgs
  pub forward_args : Text → Outcome StartForwardArgs
  pub socks_args : Text → Outcome StartSocksArgs
  pub send_args : Text → Outcome SendFilesArgs
  pub list_args : Text → Outcome ListRemoteArgs
  pub download_args : Text → Outcome DownloadArgs

-- A module that the program was built with, and the version of its replacement if it has one.
pub record Dep : Type 0 where
  pub path : Text
  pub version : Text
  pub replace : Option Text

-- The loop of `tailcatVersion`.
unfoldable pub find_version : List Dep → Text
find_version [] = codes "unknown"
find_version (d ∷ ds) =
    if text_eq d.path (codes "github.com/tailscale/tailcat")
    then (elim d.replace [ some v ↦ v | none ↦ d.version ])
    else find_version ds

-- `tailcatVersion`, on what `debug.ReadBuildInfo` gives.
unfoldable pub tailcat_version : Option (List Dep) → Text
unfolding find_version
tailcat_version deps = elim deps [ none ↦ codes "unknown" | some ds ↦ find_version ds ]

-- What the commands ask of the platform, the clock and the network, as the parameters of their models.
pub record World (ConnInfo Entries : Type 0) : Type 0 where
  pub lookup_txt : Text → Outcome (List Text)
  pub parse_conn_blob : Text → Outcome ConnInfo
  pub stat : Text → Outcome Bool
  pub listen : Text → Outcome Listener
  pub unmarshal : Text → Outcome Manifest
  pub hostname : Outcome Text
  pub goos : Text
  pub goarch : Text
  pub version : Text
  pub build_deps : Option (List Dep)
  pub view : ConnInfo → ConnView
  pub ssh_supported : Bool
  pub windows : Bool
  pub clock : ℕ → ℕ
  pub enumerate : Dict Session → List (Text × Session)
  pub message : Error → Text
  pub opened : StartServerArgs → Outcome (Unit {0})
  pub answers : Text → Answers
  pub elapsed : ℕ
  pub share_of : Text → ShareAnswers Entries

-- The result of `caps`.
pub record Caps : Type 0 where
  pub platform : Text
  pub arch : Text
  pub version : Text
  pub tailcat : Text
  pub ssh_server : Bool
  pub active_session : ℕ

-- What a command returns; `nothing` is sent as an empty object.
pub data Reply (ConnInfo Entries : Type 0) : Type 0 where
  nothing : Reply ConnInfo Entries
  caps_of : Caps → Reply ConnInfo Entries
  sessions : List Event → Reply ConnInfo Entries
  token_info : Event → Reply ConnInfo Entries
  pinged : PingAnswer → Reply ConnInfo Entries
  probed : ProbeResult → Reply ConnInfo Entries
  started : Text → Reply ConnInfo Entries
  listening : Opened → Reply ConnInfo Entries
  entries : Entries → Reply ConnInfo Entries

-- `Response`
pub data Response (ConnInfo Entries : Type 0) : Type 0 where
  success : Reply ConnInfo Entries → Response ConnInfo Entries
  failure : Code → Error → Response ConnInfo Entries

abbrev pub or_error : {A B : Type 0} → (A → B) → Result A → Result B
or_error f (ok a) = ok (f a)
or_error f (err x) = err x

-- `decode`, and the command on what it decodes.
unfoldable pub with_args :
    {A R : Type 0} → Outcome A → (A → Engine → Result R × Engine) → Engine → Result R × Engine
with_args (bad e) run state =
    (err (coded bad_request (codes "invalid args: %v") (text e ∷ [])), state)
with_args (good a) run state = run a state

-- A command that only reads.
abbrev pub reading : {R : Type 0} → Result R → Engine → Result R × Engine
reading r e = (r, e)

-- A command that gives the engine with its result, or an error and leaves the engine as it is.
abbrev pub changing :
    {A R : Type 0} → (A → R) → (A → Engine) → Result A → Engine → Result R × Engine
changing shown next (ok a) e = (ok (shown a), next a)
changing shown next (err x) e = (err x, e)

module _ {ConnInfo Entries : Type 0} (d : Decoders) (w : World ConnInfo Entries) where
  -- `caps`
  unfoldable pub caps : Engine → Caps
  caps e = record {
    platform = w.goos;
    arch = w.goarch;
    version = w.version;
    tailcat = tailcat_version w.build_deps;
    ssh_server = w.ssh_supported;
    active_session = active_sessions e;
  }

  abbrev opening : Answer → Result (Reply ConnInfo Entries) × Engine
  opening (r, _, e) = (or_error listening r, e)

  abbrev starting : Result Text × Engine → Result (Reply ConnInfo Entries) × Engine
  starting (r, e) = (or_error started r, e)

  -- The `switch` of `dispatch`, on arguments that are not empty.
  unfoldable pub command : Op → Text → Engine → Result (Reply ConnInfo Entries) × Engine
  command get_caps args e = (ok (caps_of (caps e)), e)
  command list_sessions_op args e = (ok (sessions (list_sessions w.enumerate e)), e)
  command stop args e =
      with_args (d.session_args args)
        (λ a e. changing (λ _. nothing) (λ e'. e') (stop_session w.clock a.session_id e) e) e
  command parse_token_op args e =
      with_args (d.token_args args)
        (λ a e.
          reading
            (or_error (λ (token, info). token_info (token_fields token (w.view info)))
              (parse_token w.lookup_txt w.parse_conn_blob a.token))
            e)
        e
  command ping_op args e =
      with_args (d.token_args args)
        (λ a e.
          reading
            (or_error pinged (ping w.lookup_txt w.parse_conn_blob w.answers w.elapsed a.token)) e)
        e
  command probe_op args e =
      with_args (d.token_args args)
        (λ a e.
          reading
            (or_error probed (probe w.lookup_txt w.parse_conn_blob w.unmarshal w.answers a.token))
            e)
        e
  command start_server_op args e =
      with_args (d.server_args args)
        (λ a e. starting (
          start_server w.stat w.ssh_supported w.clock w.message (w.opened a) a
            (device_name w.hostname w.goos a.name) e))
        e
  command start_forward_op args e =
      with_args (d.forward_args args)
        (λ a e.
          opening
            (start_forward w.lookup_txt w.parse_conn_blob w.listen w.windows w.clock forward a e))
        e
  command start_ssh_forward_op args e =
      with_args (d.token_args args)
        (λ a e.
          opening
            (start_ssh_forward w.lookup_txt w.parse_conn_blob w.listen w.windows w.clock a.token e))
        e
  command start_socks_op args e =
      with_args (d.socks_args args)
        (λ a e. opening (start_socks w.lookup_txt w.parse_conn_blob w.listen w.windows w.clock a e))
        e
  command send_files_op args e =
      with_args (d.send_args args)
        (λ a e.
          changing (λ r. started r.0) (λ r. r.1)
            (send_files w.lookup_txt w.parse_conn_blob w.stat w.clock a e) e)
        e
  command list_remote_op args e =
      with_args (d.list_args args)
        (λ a e.
          let (r, e') =
            list_remote w.lookup_txt w.parse_conn_blob w.clock w.share_of a.token a.dir e in
          (or_error entries r, e'))
        e
  command download_op args e =
      with_args (d.download_args args)
        (λ a e.
          changing (λ r. started r.0) (λ r. r.1)
            (download w.lookup_txt w.parse_conn_blob w.stat w.clock a e) e)
        e

  -- `dispatch`
  unfoldable pub dispatch : Request → Engine → Result (Reply ConnInfo Entries) × Engine
  dispatch r e = elim (lookup r.op ops) [
    | none ↦ (err (coded bad_request (codes "unknown op %q") (text r.op ∷ [])), e)
    | some o ↦ command o (if text_eq r.args [] then codes "{}" else r.args) e
  ]

  -- `Call`, on what `json.Unmarshal` makes of the request, less the encoding of the response.
  unfoldable pub call : Outcome Request → Engine → Response ConnInfo Entries × Engine
  call (bad e) s =
      let x = coded bad_request (codes "invalid JSON request: %v") (text e ∷ []) in
      (failure bad_request x, s)
  call (good r) s =
      let (res, s') = dispatch r s in
      (elim res [ ok reply ↦ success reply | err x ↦ failure (code_of x) x ], s')
