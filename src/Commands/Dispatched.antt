-- ===== src/Commands/Dispatched.antt =====
-- commands.go: what a call does to the engine.
use tailcat_gui.Prelude.{
  ℕ, List, [], ◌∷◌, ◌≡◌, refl, subst, some, Text, codes, text_eq, if◌then◌else◌, inl, inr,
  Option-cases,
}
use tailcat_gui.Prelude.Dict.{Dict, lookup}
use tailcat_gui.Errors.{Result, ok, err, Result-cases, ◌>>=◌}
use tailcat_gui.Events.{text, texts}
use tailcat_gui.Session.{
  Session, SessionOp, sets_info, stops, session_step, send, recv, forward, ssh, Kind,
}
use tailcat_gui.Tokens.{Outcome, good, bad, normalize_token}
use tailcat_gui.Engine.{Engine, stop_session, session, open_session}
use tailcat_gui.Engine.Ids.{IsWellFormed, engine_run-IsWellFormed}
use tailcat_gui.Engine.History.{Holds, run-Holds}
use tailcat_gui.Engine.Shut.{ShutOut, engine_run-ShutOut}
use tailcat_gui.Engine.Starting.{
  Runs, Runs-refl, Runs-trans, calls_all, calls_all-Runs, open_session-Runs,
}
use tailcat_gui.Serve.Start.{start_server-Runs}
use tailcat_gui.Forward.{start_ssh_forward}
use tailcat_gui.Forward.Started.{start_forward-Runs, start_socks-Runs}
use tailcat_gui.Transfers.{
  SendFilesArgs, DownloadArgs, send_files, download, check_send, check_download,
}
use tailcat_gui.Transfers.Listing.{list_remote, listing_ops}
use tailcat_gui.Manifest.{device_name}
use tailcat_gui.Commands.{
  Op, get_caps, list_sessions_op, stop, parse_token_op, ping_op, probe_op, start_server_op,
  start_forward_op, start_ssh_forward_op, start_socks_op, send_files_op, list_remote_op,
  download_op, Decoders, World, Request, with_args, changing, command, dispatch, call, ops, nothing,
  started,
}

module _ (clock : ℕ → ℕ) (enumerate : Dict Session → List (Text × Session)) where
  with_args-Runs :
      {A R : Type 0} (o : Outcome A) (run : A → Engine → Result R × Engine) (e : Engine)
      → ((a : A) → Runs clock enumerate e (run a e).1)
      → Runs clock enumerate e (with_args o run e).1
  unfolding with_args
  with_args-Runs (bad x) run e h = Runs-refl clock enumerate e
  with_args-Runs (good a) run e h = h a

  stop_session-Runs :
      {R : Type 0} (r : R) (id : Text) (e : Engine)
      → Runs clock enumerate e (changing (λ _. r) (λ e'. e') (stop_session clock id e) e).1
  unfolding stop_session calls_all session_step
  stop_session-Runs r id e = elim (Result-cases (session id e)) [
    | inr (x, h) ↦ rw (h, changing, stop_session) (Runs-refl clock enumerate e)
    | inl (s, h) ↦ rw (h, changing, stop_session) (calls_all-Runs clock enumerate id (stops ∷ []) e)
  ]

  changing-Runs :
      {A R : Type 0} (shown : A → R) (next : A → Engine) (r : Result A) (e : Engine)
      → ((a : A) → r ≡ ok a → Runs clock enumerate e (next a))
      → Runs clock enumerate e (changing shown next r e).1
  changing-Runs shown next (ok a) e h = h a refl
  changing-Runs shown next (err x) e h = Runs-refl clock enumerate e

  opens_and_calls : Kind → List SessionOp → Result (Unit {0}) → Engine → Result (Text × Engine)
  opens_and_calls kind os checked e =
      checked >>= λ _. open_session clock kind e >>= λ (id, e'). ok (id, calls_all clock id os e')

  opens_and_calls-Runs :
      {R : Type 0} (shown : Text × Engine → R) (kind : Kind) (os : List SessionOp)
      (checked : Result (Unit {0})) (e : Engine)
      → Runs clock enumerate e (changing shown (λ r. r.1) (opens_and_calls kind os checked e) e).1
  unfolding opens_and_calls
  opens_and_calls-Runs shown kind os (err x) e = Runs-refl clock enumerate e
  opens_and_calls-Runs shown kind os (ok _) e = elim (Result-cases (open_session clock kind e)) [
    | inr (x, h) ↦ rw (h, changing) (Runs-refl clock enumerate e)
    | inl ((id, e'), h) ↦
        rw (h, changing)
          (Runs-trans clock enumerate e e' (calls_all clock id os e')
            (open_session-Runs clock enumerate kind e e' h)
            (calls_all-Runs clock enumerate id os e'))
  ]

module _ {ConnInfo Entries : Type 0} (d : Decoders) (w : World ConnInfo Entries) where
  send_files-Runs :
      {R : Type 0} (shown : Text × Engine → R) (a : SendFilesArgs) (e : Engine)
      → Runs w.clock w.enumerate e
          (changing shown
            (λ r. r.1)
            (send_files w.lookup_txt w.parse_conn_blob w.stat w.clock a e)
            e).1
  unfolding send_files opens_and_calls calls_all
  send_files-Runs shown a e = elim (Result-cases (check_send w.stat a.paths)) [
    | inr (x, h) ↦ rw (h, changing, send_files) (Runs-refl w.clock w.enumerate e)
    | inl (_, h) ↦ elim (Result-cases (normalize_token w.lookup_txt w.parse_conn_blob a.token)) [
      | inr (x, n) ↦ rw (h, n, changing, send_files) (Runs-refl w.clock w.enumerate e)
      | inl (t, n) ↦
          rw (h, n, changing, send_files)
            (opens_and_calls-Runs w.clock w.enumerate shown send
              (sets_info (codes "paths") (texts a.paths)
                ∷ sets_info (codes "remote_dir") (text a.remote_dir)
                ∷ [])
              (ok tt) e)
    ]
  ]

  download-Runs :
      {R : Type 0} (shown : Text × Engine → R) (a : DownloadArgs) (e : Engine)
      → Runs w.clock w.enumerate e
          (changing shown
            (λ r. r.1)
            (download w.lookup_txt w.parse_conn_blob w.stat w.clock a e)
            e).1
  unfolding download opens_and_calls calls_all
  download-Runs shown a e = elim (Result-cases (check_download w.stat a.remote_paths a.local_dir)) [
    | inr (x, h) ↦ rw (h, changing, download) (Runs-refl w.clock w.enumerate e)
    | inl (_, h) ↦ elim (Result-cases (normalize_token w.lookup_txt w.parse_conn_blob a.token)) [
      | inr (x, n) ↦ rw (h, n, changing, download) (Runs-refl w.clock w.enumerate e)
      | inl (t, n) ↦
          rw (h, n, changing, download)
            (opens_and_calls-Runs w.clock w.enumerate shown recv
              (sets_info (codes "remote_paths") (texts a.remote_paths)
                ∷ sets_info (codes "local_dir") (text a.local_dir)
                ∷ [])
              (ok tt) e)
    ]
  ]

  list_remote-Runs :
      (token dir : Text) (e : Engine)
      → Runs w.clock w.enumerate e
          (list_remote w.lookup_txt w.parse_conn_blob w.clock w.share_of token dir e).1
  unfolding list_remote
  list_remote-Runs token dir e =
      elim (Result-cases (normalize_token w.lookup_txt w.parse_conn_blob token)) [
        | inr (x, n) ↦ rw (n, list_remote) (Runs-refl w.clock w.enumerate e)
        | inl (cb, n) ↦ elim (Result-cases (open_session w.clock recv e)) [
          | inr (x, h) ↦ rw (n, h, list_remote) (Runs-refl w.clock w.enumerate e)
          | inl ((id, e'), h) ↦
              rw (n, h, list_remote)
                (Runs-trans w.clock w.enumerate e e' _
                  (open_session-Runs w.clock w.enumerate recv e e' h)
                  (calls_all-Runs w.clock w.enumerate id (listing_ops (w.share_of cb) dir).1 e'))
        ]
      ]

  command-Runs :
      (o : Op) (args : Text) (e : Engine) → Runs w.clock w.enumerate e (command d w o args e).1
  unfolding command start_ssh_forward
  command-Runs get_caps args e = Runs-refl w.clock w.enumerate e
  command-Runs list_sessions_op args e = Runs-refl w.clock w.enumerate e
  command-Runs stop args e =
      with_args-Runs w.clock w.enumerate (d.session_args args) _ e
        (λ a. stop_session-Runs w.clock w.enumerate nothing a.session_id e)
  command-Runs parse_token_op args e =
      with_args-Runs w.clock w.enumerate (d.token_args args) _ e
        (λ a. Runs-refl w.clock w.enumerate e)
  command-Runs ping_op args e =
      with_args-Runs w.clock w.enumerate (d.token_args args) _ e
        (λ a. Runs-refl w.clock w.enumerate e)
  command-Runs probe_op args e =
      with_args-Runs w.clock w.enumerate (d.token_args args) _ e
        (λ a. Runs-refl w.clock w.enumerate e)
  command-Runs start_server_op args e =
      with_args-Runs w.clock w.enumerate (d.server_args args) _ e (λ a.
        start_server-Runs w.stat w.ssh_supported w.clock w.message w.enumerate (w.opened a) a
          (device_name w.hostname w.goos a.name) e)
  command-Runs start_forward_op args e =
      with_args-Runs w.clock w.enumerate (d.forward_args args) _ e (λ a.
        start_forward-Runs w.lookup_txt w.parse_conn_blob w.listen w.windows w.clock w.enumerate
          forward a e)
  command-Runs start_ssh_forward_op args e =
      with_args-Runs w.clock w.enumerate (d.token_args args) _ e (λ a.
        start_forward-Runs w.lookup_txt w.parse_conn_blob w.listen w.windows w.clock w.enumerate ssh
          _ e)
  command-Runs start_socks_op args e =
      with_args-Runs w.clock w.enumerate (d.socks_args args) _ e (λ a.
        start_socks-Runs w.lookup_txt w.parse_conn_blob w.listen w.windows w.clock w.enumerate a e)
  command-Runs send_files_op args e =
      with_args-Runs w.clock w.enumerate (d.send_args args) _ e
        (λ a. send_files-Runs (λ r. started r.0) a e)
  command-Runs list_remote_op args e =
      with_args-Runs w.clock w.enumerate (d.list_args args) _ e
        (λ a. list_remote-Runs a.token a.dir e)
  command-Runs download_op args e =
      with_args-Runs w.clock w.enumerate (d.download_args args) _ e
        (λ a. download-Runs (λ r. started r.0) a e)

  -- Whatever the request, what `Call` does to the engine is a sequence of sessions that are opened and of calls of
  -- their methods, and nothing else: the engine is neither closed nor polled.
  pub call-Runs : (r : Outcome Request) (e : Engine) → Runs w.clock w.enumerate e (call d w r e).1
  unfolding call dispatch
  call-Runs (bad x) e = Runs-refl w.clock w.enumerate e
  call-Runs (good r) e = elim (Option-cases (lookup r.op ops)) [
    | inl h ↦ rw (h, call, dispatch) (Runs-refl w.clock w.enumerate e)
    | inr (o, h) ↦
        rw (h, call, dispatch) (command-Runs o (if text_eq r.args [] then codes "{}" else r.args) e)
  ]

  -- Whatever the request, `Call` leaves a well-formed engine well-formed, and a session that the
  -- engine holds stays under its id, as the session that it is, and in its state and detail if it
  -- has ended.
  pub call-Holds :
      (r : Outcome Request) (e : Engine)
      → IsWellFormed e
      → let e' = (call d w r e).1 in
        IsWellFormed e'
        × ((id : Text) (s : Session) → lookup id e.sessions ≡ some s → Holds id s e')
  call-Holds r e k =
      let (os, _, h) = call-Runs r e in
      (
        subst IsWellFormed h (engine_run-IsWellFormed w.clock w.enumerate os e k),
        λ id s found. subst (Holds id s) h (run-Holds w.clock w.enumerate os id s e k found),
      )

  -- On a closed engine, whatever the request, `Call` opens no session: the engine stays closed,
  -- and an id that no session had has none.
  pub call_closed :
      (r : Outcome Request) (e : Engine) (j : Text) → ShutOut j e → ShutOut j (call d w r e).1
  call_closed r e j h =
      let (os, _, same) = call-Runs r e in
      subst (ShutOut j) same (engine_run-ShutOut w.clock w.enumerate j os e h)
