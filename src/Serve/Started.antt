-- ===== src/Serve/Started.antt =====
-- server.go: what `startServer` does with its session.
use tailcat_gui.Prelude.{
  ℕ, [], ◌∷◌, ◌++◌, ◌≡◌, inl, inr, refl, arith, Option, none, some, if◌then◌else◌, Text,
  Text-discrete, Bool-cases,
}
use tailcat_gui.Events
use tailcat_gui.Share.Mode.{Mode}
use tailcat_gui.Session.{
  Scope, is_terminal, running, tailcat_server, session_run, session_step, set_state, add_closer,
  set_token, emit, State-discrete,
}
use tailcat_gui.Session.Report.{Proper}
use tailcat_gui.Tokens.{good}
use tailcat_gui.Serve.{FilesSpec, StartServerArgs, info_ops, start_ops}

-- `startServer` records its arguments under keys that the session does not use itself.
pub info_ops-Proper :
    (a : StartServerArgs) (mode : Mode) (device : Text) → Proper (info_ops a mode device)
unfolding info_ops Text-discrete
info_ops-Proper a mode device = files_Proper a.files
  where
    files_Proper : (f : Option FilesSpec) → Proper (info_ops (record a { files = f }) mode device)
    files_Proper none = elim (Bool-cases (Events.is_empty a.share_paths)) [
      | inl e ↦ rw e (refl, (refl, (refl, (refl, (refl, tt)))))
      | inr e ↦ rw e (refl, (refl, (refl, (refl, (refl, (refl, (refl, tt)))))))
    ]
    files_Proper (some f) = elim (Bool-cases (Events.is_empty a.share_paths)) [
      | inl e ↦ rw e (refl, (refl, (refl, (refl, (refl, (refl, (refl, tt)))))))
      | inr e ↦ rw e (refl, (refl, (refl, (refl, (refl, (refl, (refl, (refl, (refl, tt)))))))))
    ]

module _ (clock : ℕ → ℕ) where
  -- If `srv.Start` succeeds and no other call comes between those of the goroutine, the session has
  -- the server's token afterwards. It is running, unless it had ended before. An open session
  -- registers the server as a resource; on a session that was closed before, the server is closed at
  -- once.
  pub start_ops-good :
      (blob : Text) (w : Scope)
      → let t = session_run clock (start_ops (good blob)) w in
        (t.session.token ≡ blob)
        × (t.session.state ≡ (if is_terminal w.session.state then w.session.state else running))
        × (t.session.closers ≡ (
            if w.session.closed
            then w.session.closers
            else w.session.closers ++ (tailcat_server ∷ [])))
        × (t.closed_log
            ≡ (if w.session.closed then w.closed_log ++ (tailcat_server ∷ []) else w.closed_log))
  unfolding start_ops session_run session_step set_state add_closer set_token emit State-discrete
  start_ops-good blob w = ground arith
