-- ===== src/Serve/Start.antt =====
-- core/engine/server.go: `startServer` as a whole, up to its goroutine. `opened` stands for
-- `NewServer` and `NewPathsServer`, `device` for the name that `deviceName` gives.
use tailcat_gui.Prelude.{
  ℕ, Bool, true, false, not, ◌&&◌, ◌||◌, List, [], ◌∷◌, ◌++◌, ◌≡◌, ◌⊎◌, refl, Option, none, some,
  if◌then◌else◌, Text, codes, inl, inr,
}
use tailcat_gui.Prelude.Dict.{Dict}
use tailcat_gui.Errors.{Error, Result, ok, err, coded, internal, Result-cases}
use tailcat_gui.Events.{text}
use tailcat_gui.Events
use tailcat_gui.Session.{Session, SessionOp, server, logs, adds_closer, fails, share}
use tailcat_gui.Share.Mode.{Mode, parse_mode}
use tailcat_gui.Tokens.{Outcome, good, bad}
use tailcat_gui.Engine.{Engine, open_session}
use tailcat_gui.Engine.Starting.{
  calls_all, calls_all-Runs, HoldsNew, Runs, Runs-refl, Runs-trans, open_session-Runs,
}
use tailcat_gui.Serve.{FilesSpec, StartServerArgs, validate, info_ops, bad_mode, has_files}
use tailcat_gui.Serve.Accepted.{IsAccepted, HasMode}

-- The handler of port 22 is tailcat's own shell server, an SFTP share, or none.
pub data Service : Type 0 where
  shell shared no_service : Service

unfoldable pub service_of : StartServerArgs → Service
service_of a =
    if a.ssh
    then shell
    else if not (Events.is_empty a.share_paths)
    then shared
    else if has_files a
    then shared
    else no_service

-- `sshShellHandler`: it fails only on a mode that it cannot read.
unfoldable pub shell_handler : Option FilesSpec → Result (Unit {0})
shell_handler none = ok tt
shell_handler (some f) = elim (parse_mode f.mode) [ ok m ↦ ok tt | err _ ↦ err (bad_mode f) ]

-- The first `switch`: what it registers; or its error, and the text that the session is failed
-- with. `message` stands for `err.Error()`, which formats an error.
unfoldable pub open_service :
    (Error → Text)
    → Outcome (Unit {0})
    → StartServerArgs
    → Service
    → (Error × Text) ⊎ List SessionOp
open_service message opened a shell = elim (shell_handler a.files) [
  | ok _ ↦ inr []
  | err x ↦ inl (x, message x)
]
open_service message (good _) a shared = inr (adds_closer share ∷ [])
open_service message (bad e) a shared =
    inl (coded internal (codes "file share: %v") (text e ∷ []), e)
open_service message opened a no_service = inr []

-- `tcpForwardTo` at an address, by what the dial gives: `none` closes the incoming connection,
-- else the two are joined.
unfoldable pub tcp_forward_to : {Conn : Type 0} → Text → Outcome Conn → Option Conn × List SessionOp
tcp_forward_to addr (good c) = (some c, [])
tcp_forward_to addr (bad e) =
    (none, logs (codes "proxy to " ++ (addr ++ (codes " failed: " ++ e))) ∷ [])

opens_cases :
    (r : (Error × Text) ⊎ List SessionOp)
    → ((x : Error × Text) × (r ≡ inl x)) ⊎ ((os : List SessionOp) × (r ≡ inr os))
opens_cases (inl x) = inl (x, refl)
opens_cases (inr os) = inr (os, refl)

-- Whether the arguments ask for a share of fileshare, and what its session then gets.
abbrev pub asks_share : StartServerArgs → Bool
asks_share a = not a.ssh && (has_files a || not (Events.is_empty a.share_paths))

abbrev pub share_ops : StartServerArgs → List SessionOp
share_ops a = if asks_share a then adds_closer share ∷ [] else []

module _ (stat : Text → Outcome Bool) (ssh_supported : Bool) (clock : ℕ → ℕ)
    (message : Error → Text) where
  -- `startServer` behind `newSession`.
  unfoldable pub begin_server :
      Outcome (Unit {0}) → StartServerArgs → Mode → Text → Text → Engine → Result Text × Engine
  begin_server opened a mode device id e = elim (open_service message opened a (service_of a)) [
    | inl (x, why) ↦ (err x, calls_all clock id (fails why ∷ []) e)
    | inr os ↦ (ok id, calls_all clock id (os ++ info_ops a mode device) e)
  ]

  -- `startServer`
  unfoldable pub start_server :
      Outcome (Unit {0}) → StartServerArgs → Text → Engine → Result Text × Engine
  start_server opened a device e = elim (validate stat ssh_supported a) [
    | err x ↦ (err x, e)
    | ok mode ↦ elim (open_session clock server e) [
      | err x ↦ (err x, e)
      | ok (id, e') ↦ begin_server opened a mode device id e'
    ]
  ]

  -- What the engine makes of arguments that it accepts. The new session gets the share, if the
  -- arguments ask for one and it opens, and then the arguments; if a share is asked for and does
  -- not open, the session fails.
  abbrev pub Serves :
      Outcome (Unit {0}) → StartServerArgs → Mode → Text → Engine → Result Text × Engine → Type 0
  Serves opened a mode device e r =
      ((id : Text) × (e' : Engine) × ((asks_share a ≡ false) ⊎ (opened ≡ good tt))
        × (r ≡ (ok id, e'))
        × HoldsNew clock server (share_ops a ++ info_ops a mode device) e id e')
      ⊎ ((id : Text) × (e' : Engine) × (why : Text) × (asks_share a ≡ true)
          × (opened ≡ bad why)
          × (r ≡ (err (coded internal (codes "file share: %v") (text why ∷ [])), e'))
          × HoldsNew clock server (fails why ∷ []) e id e')

  -- With arguments that are accepted, the shell's handler has no error.
  pub shell_handler-accepted :
      (a : StartServerArgs) (m : Mode)
      → IsAccepted stat ssh_supported a m
      → shell_handler a.files ≡ ok tt
  unfolding shell_handler
  shell_handler-accepted a m k = files_handler a.files k.files
    where
      files_handler :
          (f : Option FilesSpec) → HasMode stat ssh_supported f m → shell_handler f ≡ ok tt
      files_handler none h = refl
      files_handler (some f) (h, _) = rw (h, shell_handler) refl

  -- What the first `switch` comes to.
  abbrev Opens : Outcome (Unit {0}) → StartServerArgs → (Error × Text) ⊎ List SessionOp → Type 0
  Opens opened a r =
      (((asks_share a ≡ false) ⊎ (opened ≡ good tt)) × (r ≡ inr (share_ops a)))
      ⊎ ((why : Text) × (asks_share a ≡ true)
          × (opened ≡ bad why)
          × (r ≡ inl (coded internal (codes "file share: %v") (text why ∷ []), why)))

  pub start_server-Runs :
      (enumerate : Dict Session → List (Text × Session)) (opened : Outcome (Unit {0}))
      (a : StartServerArgs) (device : Text) (e : Engine)
      → Runs clock enumerate e (start_server opened a device e).1
  unfolding start_server begin_server
  start_server-Runs enumerate opened a device e =
      elim (Result-cases (validate stat ssh_supported a)) [
        | inr (x, v) ↦ rw (v, start_server) (Runs-refl clock enumerate e)
        | inl (m, v) ↦ elim (Result-cases (open_session clock server e)) [
          | inr (x, h) ↦ rw (v, h, start_server) (Runs-refl clock enumerate e)
          | inl ((id, e'), h) ↦
              rw (v, h, start_server)
                (Runs-trans clock enumerate e e' _ (open_session-Runs clock enumerate server e e' h)
                  (begins m id e'))
        ]
      ]
    where
      begins :
          (m : Mode) (id : Text) (f : Engine)
          → Runs clock enumerate f (begin_server opened a m device id f).1
      begins m id f = elim (opens_cases (open_service message opened a (service_of a))) [
        | inl ((x, why), o) ↦
            rw (o, begin_server) (calls_all-Runs clock enumerate id (fails why ∷ []) f)
        | inr (os, o) ↦
            rw (o, begin_server) (calls_all-Runs clock enumerate id (os ++ info_ops a m device) f)
      ]
