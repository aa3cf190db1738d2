-- ===== src/Probe.antt =====
-- core/engine/probe.go and path.go, and `ping` of engine.go: what a client learns of a server.
-- What the network answers is a parameter.
pub mod Discovery
pub mod Path
pub mod Peers
use tailcat_gui.Prelude.{
  ℕ, ◌*◌, Bool, true, false, not, ◌&&◌, ◌||◌, List, [], ◌∷◌, ◌++◌, Option, none, some, is_some,
  if◌then◌else◌, Text, codes, text_eq, ℤ, ◌==◌,
}
use tailcat_gui.Errors.{Error, Result, ok, err, coded, internal, plain, ◌>>=◌}
use tailcat_gui.Events.{text}
use tailcat_gui.Manifest.{Manifest, read_manifest}
use tailcat_gui.Tokens.{Outcome, good, bad, normalize_token}
use tailcat_gui.Connect.{PingResult, via_of, Handshake, handshake_error}

pub record ProbeResult : Type 0 where
  pub reachable : Bool
  pub via : Text
  pub detail : Text
  pub latency_ms : ℕ
  pub manifest : Option Manifest
  pub sftp : Bool
  pub sftp_list : Bool
  pub ssh_shell : Bool
  pub cli_fallback : Bool

-- What the server answers on port 22: nothing, no SSH, or SSH, and then whether the root can be
-- listed and whether a shell is granted.
pub data Port22 : Type 0 where
  no_answer no_ssh : Port22
  speaks_ssh : (lists shell : Bool) → Port22

-- What a probed server answers: the handshake, the disco ping, what port 1 delivers if it answers,
-- with the error in which that ends, and port 22.
pub record Answers : Type 0 where
  pub handshake : Handshake
  pub disco : Outcome PingResult
  pub port1 : Option (Text × Text)
  pub port22 : Port22

abbrev reached_at : PingResult → ProbeResult
reached_at p = record {
  reachable = true;
  via = (via_of p).0;
  detail = (via_of p).1;
  latency_ms = 1000 * p.latency;
  manifest = none;
  sftp = false;
  sftp_list = false;
  ssh_shell = false;
  cli_fallback = false;
}

-- The part of `probe` that reads the manifest.
unfoldable pub with_manifest : Manifest → ProbeResult → ProbeResult
with_manifest m r = record r {
  manifest = some m;
  sftp = is_some m.files || m.ssh;
  sftp_list = elim m.files [ none ↦ false | some f ↦ not (text_eq f.mode (codes "wo")) ];
  ssh_shell = m.ssh;
}

-- The part for a server without a manifest.
unfoldable pub with_fallback : Port22 → ProbeResult → ProbeResult
with_fallback no_answer r = record r { cli_fallback = true }
with_fallback no_ssh r = record r { cli_fallback = true }
with_fallback (speaks_ssh lists shell) r = record r {
  cli_fallback = true;
  sftp = true;
  sftp_list = lists;
  ssh_shell = shell;
}

-- `ping` and `probe` up to the disco ping; `verb` is how their errors begin.
unfoldable pub reach : Text → Handshake → Outcome PingResult → Result PingResult
reach format h disco = elim (handshake_error h) [
  | some e ↦ err (coded internal format (text e ∷ []))
  | none ↦ elim disco [ bad e ↦ err (coded internal format (text e ∷ [])) | good p ↦ ok p ]
]

unfoldable pub probe_result : (Text → Outcome Manifest) → Answers → PingResult → ProbeResult
probe_result unmarshal s p = elim s.port1 [
  | none ↦ with_fallback s.port22 (reached_at p)
  | some (line, end) ↦ elim (read_manifest unmarshal line end) [
    | ok m ↦ with_manifest m (reached_at p)
    | err _ ↦ with_fallback s.port22 (reached_at p)
  ]
]

-- What `ping` tells: the latency in millionths of a millisecond, and the path.
pub record PingAnswer : Type 0 where
  pub latency_ms : ℕ
  pub via : Text
  pub detail : Text

module _ {ConnInfo : Type 0} (lookup_txt : Text → Outcome (List Text))
    (parse_conn_blob : Text → Outcome ConnInfo) where
  -- `probe`; `answers` is what the server of a token answers.
  unfoldable pub probe : (Text → Outcome Manifest) → (Text → Answers) → Text → Result ProbeResult
  probe unmarshal answers token = normalize_token lookup_txt parse_conn_blob token >>= λ cb.
      reach (codes "connect: %v") (answers cb).handshake (answers cb).disco >>= λ p.
      ok (probe_result unmarshal (answers cb) p)

  -- `ping`; `elapsed` is the time since its start, in millionths of a millisecond.
  unfoldable pub ping : (Text → Answers) → ℕ → Text → Result PingAnswer
  ping answers elapsed token = normalize_token lookup_txt parse_conn_blob token >>= λ cb.
      reach (codes "ping: %v") (answers cb).handshake (answers cb).disco >>= λ p. ok (record {
        latency_ms = if 1000 * p.latency == 0 then elapsed else 1000 * p.latency;
        via = (via_of p).0;
        detail = (via_of p).1;
      })
