-- ===== src/Serve/Hosted/Begun.antt =====
-- server.go: what `startServer` has opened, and who closes it.
use tailcat_gui.Prelude.{
  ℕ, Bool, false, List, [], ◌∷◌, ◌++◌, ◌≡◌, ◌≢◌, ◌⊎◌, refl, sym, ap, ◌∙◌, Option, none, some, Text,
  codes, inl, inr, Perm, subst,
}
use tailcat_gui.Prelude.Dict.{Dict, lookup}
use tailcat_gui.Errors.{Error, Result, Result-cases, ok, err, coded, internal}
use tailcat_gui.Events.{text}
use tailcat_gui.Session.{
  Closer, Scope, Session, SessionOp, server, share, adds_closer, fails, session_run, new_session,
}
use tailcat_gui.Share.Backend.{Try, OsError}
use tailcat_gui.Share.Mode.{Mode}
use tailcat_gui.Share.Picked.{Os}
use tailcat_gui.Share.Server.Opened.{Owns}
use tailcat_gui.Tokens.{Outcome, good, bad}
use tailcat_gui.Engine.{Engine, open_session}
use tailcat_gui.Engine.Starting.{calls_all, HoldsNew, open_session-HoldsNew}
use tailcat_gui.Engine.Ids.{IsWellFormed, open_session_cases}
use tailcat_gui.Serve.{StartServerArgs, validate, info_ops}
use tailcat_gui.Serve.Accepted.{IsAccepted, validate-Decides}
use tailcat_gui.Serve.Start.{
  Service, shell, shared, no_service, service_of, open_service, begin_server, start_server,
  shell_handler-accepted,
}
use tailcat_gui.Serve.Hosted.{
  Made, make_share, share_answer, roots, share_mode, make_share-Owns, host,
}
use tailcat_gui.Serve.Hosted.Owned.{
  info_ops-OnlyInfo, OnlyInfo-closers, failed_closers, shared_closers,
}

module _ (O : Os) (enumerate : Dict O.Root → List (Text × O.Root)) (key signer : Try (Unit {0}))
    (os_text : OsError → Text) where
  module _ (stat : Text → Outcome Bool) (ssh_supported : Bool) (clock : ℕ → ℕ)
      (message : Error → Text) where
    -- A new session is under `id`, and these are the resources that it owns.
    abbrev pub IsNew : Text → List Closer → Engine → Engine → Type 0
    IsNew id cs e e' =
        (lookup id e.sessions ≡ none)
        × ((s : Session) × (lookup id e'.sessions ≡ some s) × (s.closers ≡ cs))

    -- How an accepted call ends: without a share the session owns nothing; with one it owns the
    -- share; and if the share fails to be made, the call says so and the session owns nothing.
    abbrev pub Hosts :
        StartServerArgs
        → Mode
        → Engine
        → (Result Text × Engine) × Option (Made O enumerate key signer os_text)
        → Type 0
    Hosts a mode e ((r, e'), none) = (id : Text) × (r ≡ ok id) × IsNew id [] e e'
    Hosts a mode e ((r, e'), some (Try.ok s, closed)) =
        ((id : Text) × (r ≡ ok id) × IsNew id (share ∷ []) e e')
        × Owns O enumerate key signer (roots O enumerate key signer os_text a)
            (share_mode O enumerate key signer os_text a mode) (Try.ok s, closed)
    Hosts a mode e ((r, e'), some (Try.err x, closed)) =
        (r ≡ err (coded internal (codes "file share: %v") (text (os_text x) ∷ [])))
        × ((id : Text) × IsNew id [] e e')
        × Owns O enumerate key signer (roots O enumerate key signer os_text a)
            (share_mode O enumerate key signer os_text a mode) (Try.err x, closed)

    HoldsNew-IsNew :
        (os : List SessionOp) (cs : List Closer) (e e' : Engine) (id : Text)
        → ((w : Scope)
            → w.session ≡ new_session (clock e.readings) id server
            → (session_run clock os w).session.closers ≡ cs)
        → HoldsNew clock server os e id e'
        → IsNew id cs e e'
    HoldsNew-IsNew os cs e e' id h n = (n.fresh, (_, n.held, h n.w n.begun))

    no_share :
        (a : StartServerArgs) (mode : Mode) (s : Service)
        → IsAccepted stat ssh_supported a mode
        → s ≢ shared
        → open_service message (good tt) a s ≡ inr []
    unfolding open_service
    no_share a mode shell k n =
        rw (shell_handler-accepted stat ssh_supported clock message a mode k, open_service) refl
    no_share a mode no_service k n = refl
    no_share a mode shared k n = absurd (n refl)

    begun_share :
        (opened : Outcome (Unit {0})) (a : StartServerArgs) (mode : Mode) (device id : Text)
        (e : Engine) (os : List SessionOp)
        → open_service message opened a (service_of a) ≡ inr os
        → begin_server stat ssh_supported clock message opened a mode device id e
          ≡ (ok id, calls_all clock id (os ++ info_ops a mode device) e)
    unfolding begin_server
    begun_share opened a mode device id e os o = rw (o, begin_server) refl

    failed_share :
        (opened : Outcome (Unit {0})) (a : StartServerArgs) (mode : Mode) (device id : Text)
        (e : Engine) (x : Error) (why : Text)
        → open_service message opened a (service_of a) ≡ inl (x, why)
        → begin_server stat ssh_supported clock message opened a mode device id e
          ≡ (err x, calls_all clock id (fails why ∷ []) e)
    unfolding begin_server
    failed_share opened a mode device id e x why o = rw (o, begin_server) refl

    -- What follows `newSession`, by what is made.
    begin_server-Hosts :
        ((m : Dict O.Root) → Perm (enumerate m) m)
        → (a : StartServerArgs) (mode : Mode) (device : Text) (e e' : Engine) (id : Text)
        → IsAccepted stat ssh_supported a mode
        → IsWellFormed e
        → e.closed ≡ false
        → open_session clock server e ≡ ok (id, e')
        → let made = make_share O enumerate key signer os_text a mode (service_of a) in
          Hosts a mode e (
            begin_server stat ssh_supported clock message
                (share_answer O enumerate key signer os_text made)
                a
                mode
                device
                id
                e',
            made,
          )
    unfolding new_session open_service
    begin_server-Hosts same a mode device e e' id k w c h =
        let info = info_ops a mode device in
        elim (make_share-Owns O enumerate key signer os_text same a mode (service_of a) refl) [
          | inl (unmade, other) ↦
              let o = no_share a mode (service_of a) k other in
              rw (unmade, begun_share (good tt) a mode device id e' [] o)
                (
                  id,
                  refl,
                  HoldsNew-IsNew info [] e _ id
                      (λ v b.
                        OnlyInfo-closers clock info v (info_ops-OnlyInfo a mode device)
                        ∙ ap (λ s. s.closers) b)
                      (open_session-HoldsNew clock server info e e' id w c h),
                )
          | inr ((Try.ok s, closed), made, s', owns) ↦
              let os : List SessionOp = adds_closer share ∷ [] in
              let o : open_service message (good tt) a (service_of a) ≡ inr os =
                rw (s', open_service) refl in
              rw (made, begun_share (good tt) a mode device id e' os o)
                (
                  (
                    id,
                    refl,
                    HoldsNew-IsNew (adds_closer share ∷ info) (share ∷ []) e _ id
                        (λ v b.
                          shared_closers clock info v (info_ops-OnlyInfo a mode device)
                            (ap (λ s. s.closers) b) (ap (λ s. s.closed) b))
                        (open_session-HoldsNew clock server (adds_closer share ∷ info) e e' id w c
                          h),
                  ),
                  owns,
                )
          | inr ((Try.err x, closed), made, s', owns) ↦
              let why = os_text x in
              let error = coded internal (codes "file share: %v") (text why ∷ []) in
              let o : open_service message (bad why) a (service_of a) ≡ inl (error, why) =
                rw (s', open_service) refl in
              rw (made, failed_share (bad why) a mode device id e' error why o)
                (
                  refl,
                  (
                    id,
                    HoldsNew-IsNew (fails why ∷ []) [] e _ id
                        (λ v b. failed_closers clock why v (ap (λ s. s.closers) b))
                        (open_session-HoldsNew clock server (fails why ∷ []) e e' id w c h),
                  ),
                  owns,
                )
        ]

    host_opened :
        (a : StartServerArgs) (mode : Mode) (device id : Text) (e e' : Engine)
        → validate stat ssh_supported a ≡ ok mode
        → open_session clock server e ≡ ok (id, e')
        → let made = make_share O enumerate key signer os_text a mode (service_of a) in
          host O enumerate key signer os_text stat ssh_supported clock message a device e ≡ (
            begin_server stat ssh_supported clock message
                (share_answer O enumerate key signer os_text made)
                a
                mode
                device
                id
                e',
            made,
          )
    unfolding host
    host_opened a mode device id e e' v h = rw (v, h, host) refl

    -- The engine's part of `host` is `start_server` on what the servers of fileshare answer.
    host-start_server :
        (a : StartServerArgs) (device : Text) (e : Engine)
        → (host O enumerate key signer os_text stat ssh_supported clock message a device e).0
          ≡ start_server stat ssh_supported clock message
              (share_answer O enumerate key signer os_text
                (host O enumerate key signer os_text stat ssh_supported clock message a device e).1)
              a
              device
              e
    unfolding host start_server
    host-start_server a device e = elim (Result-cases (validate stat ssh_supported a)) [
      | inr (x, v) ↦ rw (v, host, start_server) refl
      | inl (mode, v) ↦ elim (Result-cases (open_session clock server e)) [
        | inr (x, h) ↦ rw (v, h, host, start_server) refl
        | inl ((id, e'), h) ↦
            subst
              (λ r.
                r.0
                ≡ start_server stat ssh_supported clock message
                    (share_answer O enumerate key signer os_text r.1) a device e)
              (sym (host_opened a mode device id e e' v h)) (rw (v, h, start_server) refl)
      ]
    ]

    -- On a well-formed engine, whatever the system and the SSH library answer, and in whatever
    -- order Go goes through a map: `startServer` does to the engine what it does with such answers
    -- of the share. It refuses, with the engine as it was and no root opened, or it accepts its
    -- arguments and opens a session. Without a share to serve, the session owns nothing. If the
    -- share opens, the session owns it and nothing else. The share has the mode that was asked
    -- for, or is read-only for picked files, and its `Close` closes the roots that were opened for
    -- it, each once. If it does not open, the call fails with its error, the session owns nothing,
    -- and the roots that were opened have been closed, each once.
    pub host-Hosts :
        ((m : Dict O.Root) → Perm (enumerate m) m)
        → (a : StartServerArgs) (device : Text) (e : Engine) → IsWellFormed e
        → let h = host O enumerate key signer os_text stat ssh_supported clock message a device e in
          (h.0
            ≡ start_server stat ssh_supported clock message
                (share_answer O enumerate key signer os_text h.1)
                a
                device
                e)
          × (((x : Error) × (h ≡ ((err x, e), none)))
              ⊎ ((mode : Mode) × IsAccepted stat ssh_supported a mode × Hosts a mode e h))
    unfolding host
    host-Hosts same a device e w = (
      host-start_server a device e,
      elim (validate-Decides stat ssh_supported a) [
        | inr (x, v, _, _) ↦ inl (x, rw (v, host) refl)
        | inl (mode, v, k) ↦ elim (open_session_cases clock server e w) [
          | inl (_, h) ↦ inl (coded internal (codes "engine is closed") [], rw (v, h, host) refl)
          | inr (id, e', c, h, _, _, _) ↦ inr (
            mode,
            k,
            rw (host_opened a mode device id e e' v h)
                (begin_server-Hosts same a mode device e e' id k w c h),
          )
        ]
      ],
    )
