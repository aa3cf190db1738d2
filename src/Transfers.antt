-- ===== src/Transfers.antt =====
-- core/engine/files.go: what `sendFiles` and `download` accept, and their goroutines as calls on
-- the session. `stat` stands for `os.Stat`: whether a path is a directory.
pub mod Outcomes
pub mod Throttle
pub mod Listing
pub mod Resources
use tailcat_gui.Prelude.{ℕ, Bool, List, [], ◌∷◌, ◌++◌, if◌then◌else◌, Text, codes}
use tailcat_gui.Errors.{Result, ok, err, coded, bad_request, ◌>>=◌}
use tailcat_gui.Events.{text, texts}
use tailcat_gui.Session.{
  SessionOp, sets_info, sets_state, adds_closer, fails, pushes, shuts_down, starting, running, done,
  client, file_client, send, recv, session_step,
}
use tailcat_gui.Tokens.{Outcome, good, bad, normalize_token}
use tailcat_gui.Prelude.Dict.{Dict}
use tailcat_gui.Connect.{log_all}
use tailcat_gui.Share.Counting.{Progress}
use tailcat_gui.Transfers.Throttle.{throttle, progress_event}
use tailcat_gui.Engine.{Engine, open_session, on_session}

pub record SendFilesArgs : Type 0 where
  pub token : Text
  pub paths : List Text
  pub remote_dir : Text

pub record DownloadArgs : Type 0 where
  pub token : Text
  pub remote_paths : List Text
  pub local_dir : Text

module _ (stat : Text → Outcome Bool) where
  unfoldable pub check_paths : List Text → Result (Unit {0})
  check_paths [] = ok tt
  check_paths (p ∷ ps) =
      let rest = check_paths ps in
      elim (stat p) [ bad e ↦ err (coded bad_request (codes "%v") (text e ∷ [])) | good _ ↦ rest ]

  unfoldable pub check_send : List Text → Result (Unit {0})
  check_send [] = err (coded bad_request (codes "no paths given") [])
  check_send (p ∷ ps) = check_paths (p ∷ ps)

  unfoldable pub check_download : List Text → Text → Result (Unit {0})
  check_download [] dir = err (coded bad_request (codes "no remote_paths given") [])
  check_download (p ∷ ps) dir = elim (stat dir) [
    | bad _ ↦ err (coded bad_request (codes "local_dir %q is not a directory") (text dir ∷ []))
    | good is_dir ↦
        if is_dir
        then ok tt
        else err (coded bad_request (codes "local_dir %q is not a directory") (text dir ∷ []))
  ]

-- What the two jobs say while they run, of a path that fails, and at the end.
pub record Wording : Type 0 where
  pub doing : Text
  pub verb : Text
  pub finished : Text

abbrev pub uploads : Wording
uploads = record { doing = codes "uploading"; verb = codes "upload "; finished = codes "uploaded" }

abbrev pub downloads : Wording
downloads = record {
  doing = codes "downloading";
  verb = codes "download ";
  finished = codes "downloaded";
}

-- How the transfer of one path ends: well, with an error, or with one after the session was cancelled.
pub data Transfer : Type 0 where
  complete : Transfer
  broken : Text → Transfer
  interrupted : Transfer

abbrev pub failure : Wording → Text → Text → Text
failure v p e = v.verb ++ (p ++ (codes ": " ++ e))

-- A report of `Upload` or `Download` on the way, with the time and the rate that `progressEmitter` finds.
pub record Report : Type 0 where
  pub now : ℕ
  pub progress : Progress
  pub rate : ℕ

-- A path, what is reported of its transfer, and how that ends.
pub record Job : Type 0 where
  pub path : Text
  pub reports : List Report
  pub ending : Transfer

-- What the session's `progressEmitter` pushes of these reports, and its times after them.
unfoldable pub emit_reports : Text → List Report → Dict ℕ → List SessionOp × Dict ℕ
emit_reports id [] last = ([], last)
emit_reports id (r ∷ rs) last =
    let (pushed, last') = throttle r.now r.progress last in
    let (os, last'') = emit_reports id rs last' in
    ((if pushed then pushes (progress_event id r.progress r.rate) ∷ os else os), last'')

-- The loop over the paths, and what follows it.
unfoldable pub transfer_loop : Wording → Text → Dict ℕ → List Job → List SessionOp
unfolding emit_reports
transfer_loop v id last [] = sets_state done v.finished ∷ shuts_down ∷ []
transfer_loop v id last (j ∷ js) =
    let (os, last') = emit_reports id j.reports last in
    let rest = transfer_loop v id last' js in
    os ++ (elim j.ending [
      | complete ↦ rest
      | broken e ↦ fails (failure v j.path e) ∷ []
      | interrupted ↦ []
    ])

-- The goroutine of the session `id`: what `openShare` returns and logs, then the transfers.
unfoldable pub transfer_ops :
    Wording → Text → Outcome (Unit {0}) → List Text → List Job → List SessionOp
transfer_ops v id opened messages js =
    sets_state starting (codes "connecting")
    ∷ (log_all messages ++ (elim opened [
      | bad e ↦ fails e ∷ []
      | good _ ↦
          adds_closer client
          ∷ adds_closer file_client
          ∷ sets_state running v.doing
          ∷ transfer_loop v id [] js
    ]))

module _ {ConnInfo : Type 0} (lookup_txt : Text → Outcome (List Text))
    (parse_conn_blob : Text → Outcome ConnInfo) (stat : Text → Outcome Bool) (clock : ℕ → ℕ) where
  -- `sendFiles` up to its goroutine: the session's id and the engine.
  unfoldable pub send_files : SendFilesArgs → Engine → Result (Text × Engine)
  send_files a e = check_send stat a.paths >>= λ _.
      normalize_token lookup_txt parse_conn_blob a.token >>= λ _.
      open_session clock send e >>= λ (id, e'). ok (
        id,
        on_session id (session_step clock (sets_info (codes "remote_dir") (text a.remote_dir)))
            (on_session id (session_step clock (sets_info (codes "paths") (texts a.paths))) e'),
      )

  -- `download` up to its goroutine.
  unfoldable pub download : DownloadArgs → Engine → Result (Text × Engine)
  download a e = check_download stat a.remote_paths a.local_dir >>= λ _.
      normalize_token lookup_txt parse_conn_blob a.token >>= λ _.
      open_session clock recv e >>= λ (id, e'). ok (
        id,
        on_session id (session_step clock (sets_info (codes "local_dir") (text a.local_dir))) (
            on_session id
              (session_step clock (sets_info (codes "remote_paths") (texts a.remote_paths))) e'),
      )
