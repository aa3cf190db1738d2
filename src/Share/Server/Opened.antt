-- ===== src/Share/Server/Opened.antt =====
-- server.go: `NewServer`, `NewPathsServer` and `Close`, and what they leave open. `key` and `signer` are what
-- `ed25519.GenerateKey` and `ssh.NewSignerFromKey` answer.
use mathlib.Core.List.Perm
use tailcat_gui.Prelude.{
  ℕ, false, List, [], ◌∷◌, ◌≡◌, inl, inr, refl, if◌then◌else◌, Text, Perm, subst,
}
use tailcat_gui.Prelude.Dict.{Dict}
use tailcat_gui.Share.Backend.{Try, ok, err}
use tailcat_gui.Share.Mode.{Mode, read_only}
use tailcat_gui.Share.Picked.Built.{Try-cases, Build-cases}
use tailcat_gui.Share.Picked.Closing.{held, opened_roots, new_paths_backend-closes}
use tailcat_gui.Share.Picked.{Os, ShareItem, Paths, built, failed, new_paths_backend, close_paths}
use tailcat_gui.Share.Server.{Server, close_server}

-- A `Server` over the backend `fs`, less its hooks and the configuration of SSH.
pub record Share (B : Type 0) : Type 0 where
  pub fs : B
  pub mode : Mode
  pub server : Server

-- A backend behind `backend`: a folder's root, or picked files.
pub data Fs (R P : Type 0) : Type 0 where
  folder : R → Fs R P
  picked : P → Fs R P

-- `Close`: the connections and what else it closes.
unfoldable pub close_share : {B R : Type 0} → (B → List R) → Share B → List ℕ × List R × Share B
close_share close s =
    let (conns, closes, server) = close_server s.server in
    (conns, (if closes then close s.fs else []), record s { server = server })

module _ (O : Os) where
  -- `Entries`; those of a folder are nil.
  unfoldable pub share_entries : Share (Fs O.Root (Paths O)) → List ShareItem
  share_entries s = elim s.fs [ folder _ ↦ [] | picked b ↦ b.entries ]

module _ (O : Os) (enumerate : Dict O.Root → List (Text × O.Root)) where
  -- `Close` of a backend; that of a folder closes its root.
  unfoldable pub close_fs : Fs O.Root (Paths O) → List O.Root
  close_fs (folder root) = root ∷ []
  close_fs (picked b) = close_paths O enumerate b

  module _ (key signer : Try (Unit {0})) where
    -- `newServer`: the server, and what it closes.
    unfoldable pub new_server :
        Fs O.Root (Paths O) → Mode → Try (Share (Fs O.Root (Paths O))) × List O.Root
    new_server fs mode = elim key [
      | err x ↦ (err x, close_fs fs)
      | ok _ ↦ elim signer [
        | err x ↦ (err x, close_fs fs)
        | ok _ ↦
            (ok (record { fs = fs; mode = mode; server = record { conns = []; done = false } }), [])
      ]
    ]

    -- `NewServer`
    unfoldable pub new_dir_server : Text → Mode → Try (Share (Fs O.Root (Paths O))) × List O.Root
    new_dir_server dir mode = elim (O.open_root dir) [
      | err x ↦ (err x, [])
      | ok root ↦ new_server (folder root) mode
    ]

    -- `NewPathsServer`
    unfoldable pub new_paths_server : List Text → Try (Share (Fs O.Root (Paths O))) × List O.Root
    new_paths_server ps = elim (new_paths_backend O ps) [
      | failed x b ↦ (err x, close_paths O enumerate b)
      | built b ↦ new_server (picked b) read_only
    ]

    -- Either the server fails to be made and these are closed, or `Close` closes them, and closes nothing when it is
    -- called again.
    abbrev pub Releases :
        Fs O.Root (Paths O) → Mode → Try (Share (Fs O.Root (Paths O))) × List O.Root → Type 0
    Releases fs mode (err x, closed) = closed ≡ close_fs fs
    Releases fs mode (ok s, closed) =
        (closed ≡ [])
        × (s.fs ≡ fs)
        × (s.mode ≡ mode)
        × ((close_share close_fs s).1 ≡ close_fs fs)
        × ((close_share close_fs (close_share close_fs s).2).1 ≡ [])

    new_server-Releases :
        (fs : Fs O.Root (Paths O)) (mode : Mode) → Releases fs mode (new_server fs mode)
    unfolding new_server close_share close_server
    new_server-Releases fs mode = elim (Try-cases key) [
      | inl (_, k) ↦ elim (Try-cases signer) [
        | inl (_, g) ↦ rw (k, new_server, g) (refl, refl, refl, refl, refl)
        | inr (x, g) ↦ rw (k, new_server, g) refl
      ]
      | inr (x, k) ↦ rw (k, new_server) refl
    ]

    -- What is opened for a server is closed if it fails to be made. Else it stays open until `Close`, which closes it
    -- once and closes nothing when it is called again.
    abbrev pub Owns : List O.Root → Mode → Try (Share (Fs O.Root (Paths O))) × List O.Root → Type 0
    Owns roots mode (err x, closed) = Perm closed roots
    Owns roots mode (ok s, closed) =
        (closed ≡ [])
        × (s.mode ≡ mode)
        × Perm (close_share close_fs s).1 roots
        × ((close_share close_fs (close_share close_fs s).2).1 ≡ [])

    Releases-Owns :
        (fs : Fs O.Root (Paths O)) (mode : Mode) (roots : List O.Root)
        (made : Try (Share (Fs O.Root (Paths O))) × List O.Root)
        → Perm (close_fs fs) roots
        → Releases fs mode made
        → Owns roots mode made
    Releases-Owns fs mode roots (err x, closed) p r = rw r p
    Releases-Owns fs mode roots (ok s, closed) p (none_closed, _, m, first, again) =
        (none_closed, m, rw first p, again)

    abbrev pub opened_dir : Text → List O.Root
    opened_dir dir = elim (O.open_root dir) [ err _ ↦ [] | ok root ↦ root ∷ [] ]

    new_dir_server-Owns :
        (dir : Text) (mode : Mode) → Owns (opened_dir dir) mode (new_dir_server dir mode)
    unfolding new_dir_server
    new_dir_server-Owns dir mode = elim (Try-cases (O.open_root dir)) [
      | inl (root, o) ↦
          let p : Perm (close_fs (folder root)) (opened_dir dir) =
            unfold close_fs in rw (o, opened_dir) (Perm.refl (root ∷ [])) in
          rw (o, new_dir_server)
            (Releases-Owns (folder root) mode (opened_dir dir) (new_server (folder root) mode) p
              (new_server-Releases (folder root) mode))
      | inr (x, o) ↦ rw (o, new_dir_server, opened_dir) (Perm.refl [])
    ]

    -- Whatever the calls of the system and of the SSH library answer, and in whatever order Go goes through a map:
    -- if `NewServer` or `NewPathsServer` fails, it closes the roots that it has opened, each once. Else it closes
    -- nothing, the server has the mode that was asked for, or is read-only for picked files, its `Close` closes the
    -- roots that were opened for it, each once, and a second `Close` closes nothing.
    pub new_servers-Own :
        ((m : Dict O.Root) → Perm (enumerate m) m)
        → (dir : Text) (mode : Mode) (ps : List Text)
        → Owns (opened_dir dir) mode (new_dir_server dir mode)
          × Owns (opened_roots O ps) read_only (new_paths_server ps)
    unfolding new_paths_server
    new_servers-Own same dir mode ps =
        let closes = new_paths_backend-closes O enumerate same ps in
        (
          new_dir_server-Owns dir mode,
          (elim (Build-cases (new_paths_backend O ps)) [
            | inl (b, e) ↦
                let p : Perm (close_paths O enumerate b) (opened_roots O ps) =
                  subst (λ t. Perm (close_paths O enumerate (held t)) (opened_roots O ps)) e
                    closes in
                rw (e, new_paths_server)
                  (Releases-Owns (picked b) read_only _ (new_server (picked b) read_only)
                    (unfold close_fs in p) (new_server-Releases (picked b) read_only))
            | inr (x, b, e) ↦
                rw (e, new_paths_server)
                  (subst (λ t. Perm (close_paths O enumerate (held t)) (opened_roots O ps)) e
                    closes)
          ]),
        )
