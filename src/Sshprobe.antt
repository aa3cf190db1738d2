-- ===== src/Sshprobe.antt =====
-- core/cmd/sshprobe/main.go: the command that serves a share on a listener, without a tunnel.
-- `temp` is what `os.MkdirTemp` answers, `listen` stands for `net.Listen` and gives the listener's
-- port, and `addr` is the flag.
use tailcat_gui.Prelude.{ℕ, List, [], ◌∷◌, ◌++◌, ◌≡◌, refl, Option, none, some, Text, codes, Perm}
use tailcat_gui.Prelude.Dict.{Dict}
use tailcat_gui.Prelude.Decimal.{decimal}
use tailcat_gui.Share.Backend.{Try, OsError}
use tailcat_gui.Share.Mode.{read_write}
use tailcat_gui.Share.Picked.{Os, Paths}
use tailcat_gui.Share.Server.Opened.{
  Share, Fs, close_share, close_fs, new_dir_server, new_servers-Own, Owns, opened_dir,
}
use tailcat_gui.Tokens.{Outcome, good, bad}

-- The rounds of the loop: the connections that get a handler, up to the first error of `Accept`.
unfoldable pub handed : {Conn : Type 0} → List (Option Conn) → List Conn
handed [] = []
handed (none ∷ cs) = []
handed (some c ∷ cs) = c ∷ handed cs

module _ (O : Os) (enumerate : Dict O.Root → List (Text × O.Root))
    (key signer : Try (Unit {0})) where
  -- How `main` goes: `log.Fatal` on an error of the system or of the network, or the share that it serves, what it
  -- logs and the connections that it hands on.
  pub data Main (Conn : Type 0) : Type 0 where
    fatal : OsError → Main Conn
    no_listener : Text → Main Conn
    serves : Share (Fs O.Root (Paths O)) → Text → List Conn → Main Conn

  -- `main`
  unfoldable pub main :
      {Conn : Type 0} → Try Text → (Text → Outcome ℕ) → Text → List (Option Conn) → Main Conn
  unfolding handed
  main temp listen addr accepts = elim temp [
    | Try.err x ↦ fatal x
    | Try.ok dir ↦ elim (new_dir_server O enumerate key signer dir read_write).0 [
      | Try.err x ↦ fatal x
      | Try.ok srv ↦ elim (listen addr) [
        | bad e ↦ no_listener e
        | good port ↦ serves srv (codes "PORT=" ++ decimal port) (handed accepts)
      ]
    ]
  ]

  -- What is served is a read-write share of the temporary directory, which alone it holds open.
  abbrev pub Probes : {Conn : Type 0} → Try Text → Main Conn → Type 0
  Probes temp (fatal x) = Unit
  Probes temp (no_listener e) = Unit
  Probes temp (serves srv log conns) =
      (dir : Text) × (temp ≡ Try.ok dir)
      × (srv.mode ≡ read_write)
      × Perm (close_share (close_fs O enumerate) srv).1 (opened_dir O enumerate key signer dir)

  listens-Probes :
      {Conn : Type 0} (dir : Text) (made : Try (Share (Fs O.Root (Paths O))) × List O.Root)
      (listened : Outcome ℕ) (conns : List Conn)
      → Owns O enumerate key signer (opened_dir O enumerate key signer dir) read_write made
      → Probes (Try.ok dir) (elim made.0 [
        | Try.err x ↦ fatal x
        | Try.ok srv ↦ elim listened [
          | bad e ↦ no_listener e
          | good port ↦ serves srv (codes "PORT=" ++ decimal port) conns
        ]
      ])
  listens-Probes dir (Try.err x, closed) listened conns owns = tt
  listens-Probes dir (Try.ok srv, closed) (bad e) conns owns = tt
  listens-Probes dir (Try.ok srv, closed) (good port) conns (_, mode, closes, _) =
      (dir, refl, mode, closes)

  main-Probes :
      ((m : Dict O.Root) → Perm (enumerate m) m)
      → {Conn : Type 0} (temp : Try Text) (listen : Text → Outcome ℕ) (addr : Text)
        (accepts : List (Option Conn))
      → Probes temp (main temp listen addr accepts)
  unfolding main
  main-Probes same (Try.err x) listen addr accepts = tt
  main-Probes same (Try.ok dir) listen addr accepts =
      listens-Probes dir (new_dir_server O enumerate key signer dir read_write) (listen addr)
        (handed accepts) (new_servers-Own O enumerate key signer same dir read_write []).0
