-- ===== src/Serve/Hosted.antt =====
-- server.go: `startServer` with the servers of fileshare that it makes. `os_text` stands for
-- `err.Error()` on an error of the system.
pub mod Owned
pub mod Begun
use tailcat_gui.Prelude.{
  ℕ, Bool, true, not, List, [], ◌≡◌, ◌≢◌, ◌⊎◌, refl, arith, Option, none, some, if◌then◌else◌, Text,
  inl, inr, Perm, Bool-cases, Option-cases,
}
use tailcat_gui.Prelude.Dict.{Dict}
use tailcat_gui.Errors.{Error, Result, ok, err}
use tailcat_gui.Events
use tailcat_gui.Session.{server}
use tailcat_gui.Share.Backend.{Try, OsError}
use tailcat_gui.Share.Mode.{Mode, read_only}
use tailcat_gui.Share.Picked.{Os, Paths}
use tailcat_gui.Share.Picked.Closing.{opened_roots}
use tailcat_gui.Share.Server.Opened.{
  Share, Fs, Owns, opened_dir, new_dir_server, new_paths_server, new_servers-Own,
}
use tailcat_gui.Tokens.{Outcome, good, bad}
use tailcat_gui.Engine.{Engine, open_session}
use tailcat_gui.Serve.{StartServerArgs, validate}
use tailcat_gui.Serve.Start.{Service, shell, shared, no_service, service_of, begin_server}

module _ (O : Os) (enumerate : Dict O.Root → List (Text × O.Root)) (key signer : Try (Unit {0}))
    (os_text : OsError → Text) where
  -- What making a server of fileshare gives: the server or its error, and the roots that it has closed again.
  abbrev pub Made : Type 0
  Made = Try (Share (Fs O.Root (Paths O))) × List O.Root

  -- The servers of fileshare in the first `switch`.
  unfoldable pub make_share : StartServerArgs → Mode → Service → Option Made
  make_share a mode shell = none
  make_share a mode no_service = none
  make_share a mode shared =
      if not (Events.is_empty a.share_paths)
      then some (new_paths_server O enumerate key signer a.share_paths)
      else (elim a.files [
        | none ↦ none
        | some f ↦ some (new_dir_server O enumerate key signer f.dir mode)
      ])

  -- Whether that failed, and with which text.
  abbrev pub share_answer : Option Made → Outcome (Unit {0})
  share_answer none = good tt
  share_answer (some (Try.ok _, _)) = good tt
  share_answer (some (Try.err x, _)) = bad (os_text x)

  -- The roots that are opened for a share, and the share's mode.
  abbrev pub roots : StartServerArgs → List O.Root
  roots a =
      if not (Events.is_empty a.share_paths)
      then opened_roots O a.share_paths
      else (elim a.files [ none ↦ [] | some f ↦ opened_dir O enumerate key signer f.dir ])

  abbrev pub share_mode : StartServerArgs → Mode → Mode
  share_mode a mode = if not (Events.is_empty a.share_paths) then read_only else mode

  something_shared :
      (a : StartServerArgs)
      → service_of a ≡ shared
      → Events.is_empty a.share_paths ≡ true
      → a.files ≢ none
  unfolding service_of
  something_shared a e p h = absurd (ground arith)

  pub make_share-Owns :
      ((m : Dict O.Root) → Perm (enumerate m) m)
      → (a : StartServerArgs) (mode : Mode) (s : Service) → service_of a ≡ s
      → ((make_share a mode s ≡ none) × (s ≢ shared))
        ⊎ ((made : Made) × (make_share a mode s ≡ some made)
            × (s ≡ shared)
            × Owns O enumerate key signer (roots a) (share_mode a mode) made)
  unfolding make_share
  make_share-Owns same a mode shell e = inl (refl, λ h. cc)
  make_share-Owns same a mode no_service e = inl (refl, λ h. cc)
  make_share-Owns same a mode shared e = elim (Bool-cases (Events.is_empty a.share_paths)) [
    | inr p ↦
        rw p (
          inr
            (_, refl, refl, (new_servers-Own O enumerate key signer same [] mode a.share_paths).1))
    | inl p ↦ elim (Option-cases a.files) [
      | inr (f, h) ↦
          rw (p, h)
            (inr (_, refl, refl, (new_servers-Own O enumerate key signer same f.dir mode []).0))
      | inl h ↦ absurd (something_shared a e p h)
    ]
  ]

  module _ (stat : Text → Outcome Bool) (ssh_supported : Bool) (clock : ℕ → ℕ)
      (message : Error → Text) where
    -- `startServer`, and what became of the server of fileshare if it made one.
    unfoldable pub host : StartServerArgs → Text → Engine → (Result Text × Engine) × Option Made
    host a device e = elim (validate stat ssh_supported a) [
      | err x ↦ ((err x, e), none)
      | ok mode ↦ elim (open_session clock server e) [
        | err x ↦ ((err x, e), none)
        | ok (id, e') ↦
            let made = make_share a mode (service_of a) in
            (
              begin_server stat ssh_supported clock message (share_answer made) a mode device id e',
              made,
            )
      ]
    ]
