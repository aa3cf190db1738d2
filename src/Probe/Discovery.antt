-- ===== src/Probe/Discovery.antt =====
-- probe.go: what a client finds out about a server of this program, and about any other.
use tailcat_gui.Prelude.{
  Bool, true, false, not, ◌&&◌, ◌||◌, Text-discrete, List, ◌≡◌, refl, ap, arith, none, some,
  is_some, Text, codes, text_eq, ◌⊎◌, inl, inr, Option-cases,
}
use tailcat_gui.Errors.{ok, err, Error, code_of, internal, invalid_token, Result-cases}
use tailcat_gui.Events
use tailcat_gui.Share.Mode.{Mode, read_only, read_write, write_only, mode_text}
use tailcat_gui.Share.Picked.{ShareItem}
use tailcat_gui.Tokens.{Outcome, good, bad, normalize_token}
use tailcat_gui.Connect.{PingResult, Handshake, connected, cancelled, unreachable}
use tailcat_gui.Tokens.Accepted.{parse_token-normalize_token}
use tailcat_gui.Serve.Accepted.{IsAccepted}
use tailcat_gui.Serve.{StartServerArgs, has_service, has_files}
use tailcat_gui.Serve.Start.{service_of}
use tailcat_gui.Manifest.{
  Manifest, manifest_of, manifest_files, manifest_line, as_sent, read_manifest,
}
use tailcat_gui.Manifest.Read.{IsEncoded, read_manifest-manifest_line}
use tailcat_gui.Probe.{
  Answers, Port22, no_answer, no_ssh, speaks_ssh, ProbeResult, probe_result, probe, reach,
  with_manifest, with_fallback, reached_at,
}

-- What a probe says of the files and the shell fits together: files that can be listed and a shell
-- need SSH on port 22, and port 22 is looked at only without a manifest.
pub record IsProper (r : ProbeResult) : Type 0 where
  pub is_reachable : r.reachable ≡ true
  pub lists : r.sftp_list ≡ true → r.sftp ≡ true
  pub shell : r.ssh_shell ≡ true → r.sftp ≡ true
  pub fallback : r.cli_fallback ≡ not (is_some r.manifest)

with_manifest-IsProper : (m : Manifest) (p : PingResult) → IsProper (with_manifest m (reached_at p))
unfolding with_manifest
with_manifest-IsProper m p = record {
  is_reachable = refl;
  lists = λ h. ground (arith, h);
  shell = λ h. ground (arith, h);
  fallback = refl;
}

with_fallback-IsProper : (a : Port22) (p : PingResult) → IsProper (with_fallback a (reached_at p))
unfolding with_fallback
with_fallback-IsProper no_answer p = record {
  is_reachable = refl;
  lists = λ h. h;
  shell = λ h. h;
  fallback = refl;
}
with_fallback-IsProper no_ssh p = record {
  is_reachable = refl;
  lists = λ h. h;
  shell = λ h. h;
  fallback = refl;
}
with_fallback-IsProper (speaks_ssh l s) p = record {
  is_reachable = refl;
  lists = λ h. refl;
  shell = λ h. refl;
  fallback = refl;
}

-- With a manifest, the services are those that the arguments of the server ask for.
manifest_of-service :
    (version device goos : Text) (items : List ShareItem) (a : StartServerArgs) (mode : Mode)
    → let m = as_sent (manifest_of version device goos items a mode) in
      (is_some m.files || m.ssh) ≡ has_service a
unfolding manifest_of manifest_files service_of
manifest_of-service version device goos items a mode = ground arith

-- Whether clients can list files on port 22: picked files, a folder unless it takes uploads only, and, behind a shell
-- without a folder, what the shell's user can see.
abbrev pub can_list : Mode → Bool
can_list write_only = false
can_list _ = true

abbrev pub lists_files : StartServerArgs → Mode → Bool
lists_files a mode = elim a.files [
  | some _ ↦ can_list mode
  | none ↦ a.ssh || not (Events.is_empty a.share_paths)
]

-- A shell without a folder: the manifest does not speak of the files behind it.
abbrev pub is_bare_shell : StartServerArgs → Bool
is_bare_shell a = a.ssh && not (has_files a)

mode_text-can_list : (mode : Mode) → not (text_eq (mode_text mode) (codes "wo")) ≡ can_list mode
unfolding mode_text Text-discrete
mode_text-can_list read_only = refl
mode_text-can_list read_write = refl
mode_text-can_list write_only = refl

manifest_of-listable :
    (version device goos : Text) (items : List ShareItem) (a : StartServerArgs) (mode : Mode)
    (p : PingResult)
    → (has_files a && not (Events.is_empty a.share_paths)) ≡ false
    → (with_manifest
        (as_sent (manifest_of version device goos items a mode))
        (reached_at p)).sftp_list
      ≡ (lists_files a mode && not (is_bare_shell a))
unfolding with_manifest manifest_of manifest_files service_of
manifest_of-listable version device goos items a mode p h =
    ground (arith, h, mode_text-can_list mode)

probe_result-IsProper :
    (unmarshal : Text → Outcome Manifest) (s : Answers) (p : PingResult)
    → IsProper (probe_result unmarshal s p)
unfolding probe_result
probe_result-IsProper unmarshal s p = elim (Option-cases s.port1) [
  | inl h ↦ rw h (with_fallback-IsProper s.port22 p)
  | inr ((line, end), h) ↦ elim (Result-cases (read_manifest unmarshal line end)) [
    | inl (m, k) ↦ rw (h, k, probe_result) (with_manifest-IsProper m p)
    | inr (x, k) ↦ rw (h, k, probe_result) (with_fallback-IsProper s.port22 p)
  ]
]

probe_result-found :
    (unmarshal : Text → Outcome Manifest) (s : Answers) (p : PingResult) (line end : Text)
    (m : Manifest)
    → s.port1 ≡ some (line, end)
    → read_manifest unmarshal line end ≡ ok m
    → probe_result unmarshal s p ≡ with_manifest m (reached_at p)
unfolding probe_result
probe_result-found unmarshal s p line end m h k = rw (h, k, probe_result) refl

reach-internal :
    (format : Text) (h : Handshake) (disco : Outcome PingResult)
    → ((p : PingResult) × (reach format h disco ≡ ok p))
      ⊎ ((x : Error) × (reach format h disco ≡ err x) × (code_of x ≡ internal))
unfolding reach code_of
reach-internal format connected (good p) = inl (p, refl)
reach-internal format connected (bad e) = inr (_, refl, refl)
reach-internal format (cancelled c) disco = inr (_, refl, refl)
reach-internal format (unreachable e) disco = inr (_, refl, refl)

module _ {ConnInfo : Type 0} (lookup_txt : Text → Outcome (List Text))
    (parse_conn_blob : Text → Outcome ConnInfo) (unmarshal : Text → Outcome Manifest)
    (answers : Text → Answers) where
  -- Whatever the token and the server's answers, `probe` returns findings that fit together, or an
  -- error with the code `invalid_token` or `internal`.
  pub probe-IsProper :
      (token : Text)
      → let r = probe lookup_txt parse_conn_blob unmarshal answers token in
        ((found : ProbeResult) × (r ≡ ok found) × IsProper found)
        ⊎ ((x : Error) × (r ≡ err x) × ((code_of x ≡ invalid_token) ⊎ (code_of x ≡ internal)))
  unfolding probe
  probe-IsProper token = elim (parse_token-normalize_token lookup_txt parse_conn_blob token) [
    | inr (x, n, _, c) ↦ inr (x, rw (n, probe) refl, inl c)
    | inl (cb, _, n, _, _) ↦
        elim (reach-internal (codes "connect: %v") (answers cb).handshake (answers cb).disco) [
          | inl (p, h) ↦
              inl (_, rw (n, h, probe) refl, probe_result-IsProper unmarshal (answers cb) p)
          | inr (x, h, c) ↦ inr (x, rw (n, h, probe) refl, inr c)
        ]
  ]

  module _ (stat : Text → Outcome Bool) (ssh_supported : Bool) (marshal : Manifest → Text) where
    -- If a token leads to a server of this program that `startServer` accepted, which a client
    -- reaches, and whose manifest it receives as one line of less than 1 MiB that decodes to it,
    -- then `probe` finds what the server offers: its manifest, less the local paths, whether port
    -- 22 is served, the shell, and whether files can be listed. Only of a server with a shell and
    -- no folder it says that they cannot, though SFTP behind the shell lists them.
    pub probe-manifest_of :
        (token cb version device goos end : Text) (items : List ShareItem) (a : StartServerArgs)
        (mode : Mode) (p : PingResult)
        → let m = manifest_of version device goos items a mode in
          normalize_token lookup_txt parse_conn_blob token ≡ ok cb
          → reach (codes "connect: %v") (answers cb).handshake (answers cb).disco ≡ ok p
          → (answers cb).port1 ≡ some (manifest_line marshal m, end)
          → IsEncoded marshal unmarshal m
          → IsAccepted stat ssh_supported a mode
          → (found : ProbeResult) × (probe lookup_txt parse_conn_blob unmarshal answers token
              ≡ ok found)
            × (found.manifest ≡ some (as_sent m))
            × (found.sftp ≡ has_service a)
            × (found.sftp_list ≡ (lists_files a mode && not (is_bare_shell a)))
            × (found.ssh_shell ≡ a.ssh)
    unfolding probe
    probe-manifest_of token cb version device goos end items a mode p n h s k acc =
        let m = manifest_of version device goos items a mode in
        let read =
          read_manifest-manifest_line marshal unmarshal m end (unfold manifest_of in refl) k in
        (
          with_manifest (as_sent m) (reached_at p),
          rw (n, h, probe)
              (ap ok (
                probe_result-found unmarshal (answers cb) p (manifest_line marshal m) end
                  (as_sent m) s read)),
          (unfold with_manifest in refl),
          (unfold with_manifest in manifest_of-service version device goos items a mode),
          manifest_of-listable version device goos items a mode p acc.one_share,
          (unfold with_manifest manifest_of in refl),
        )
