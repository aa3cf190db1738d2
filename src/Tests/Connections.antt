-- ===== src/Tests/Connections.antt =====
-- Runs of connect.go, socks.go, path.go, probe.go and manifest.go.
use tailcat_gui.Share.Names.{trim_space}
use tailcat_gui.Share.Names.{trim_prefix}
use tailcat_gui.Prelude.{
  ℕ, ◌*◌, ◌==◌, true, false, Bool, List, [], ◌∷◌, ◌≡◌, ◌↔◌, refl, arith, Option, none, some, Text,
  codes, ℤ, Text-discrete, if◌then◌else◌, length,
}
use tailcat_gui.Errors.{ok}
use tailcat_gui.Events.{text, int}
use tailcat_gui.Session.{Scope, new_session, forward, session_run}
use tailcat_gui.Session.Coherent.{IsCoherent}
use tailcat_gui.Share.Mode.{read_only}
use tailcat_gui.Share.Picked.{ShareItem}
use tailcat_gui.Tokens.{Outcome, good, bad, normalize_token, resolve_token, check_token}
use tailcat_gui.Connect.{
  connected, unreachable, attempts, warm_client, PingResult, client_warmup, handshake_error,
}
use tailcat_gui.Connect.Attempts.{Answered, warm_client-connected}
use tailcat_gui.Connect.Warmup.{WarmsUp, reached, client_warmup-WarmsUp}
use tailcat_gui.Forward.{socks_dial}
use tailcat_gui.Forward.Socks.{Dials, socks_dial-Dials}
use tailcat_gui.Serve.{StartServerArgs, has_service}
use tailcat_gui.Serve.Accepted.{IsAccepted}
use tailcat_gui.Manifest.{Manifest, manifest_of, manifest_line, as_sent, read_limit}
use tailcat_gui.Manifest.Read.{IsEncoded}
use tailcat_gui.Probe.{Answers, no_answer, ProbeResult, probe, reach}
use tailcat_gui.Probe.Discovery.{probe-manifest_of}
use tailcat_gui.Probe.Path.{Look, Peer, server_path_probe}
use tailcat_gui.Probe.Path.Told.{server_path_probe-tells, told_peers, known_summary}

abbrev clock : ℕ → ℕ
clock n = 1000 * n

-- The second handshake is answered.
abbrev second : ℕ → ℕ → Outcome (Unit {0})
second i d = if i == 1 then good tt else bad (codes "timeout")

abbrev never_cancelled : ℕ → Option Text
never_cancelled _ = none

warm_client-connected_example :
    (Answered never_cancelled second attempts 0
      ↔ ((warm_client never_cancelled second).0 ≡ connected))
    × ((Answered never_cancelled second attempts 0 → ⊥)
        → (e : Text) × ((warm_client never_cancelled second).0 ≡ unreachable e))
warm_client-connected_example = warm_client-connected never_cancelled second (λ _. refl)

one_retry : length (warm_client never_cancelled second).1 ≡ 1
unfolding warm_client
one_retry = refl

abbrev fresh : Scope
fresh = record {
  session = new_session 5 (codes "forward-1") forward;
  queue = record { events = []; dropped = 0 };
  readings = 0;
  closed_log = [];
}

fresh-IsCoherent : IsCoherent fresh
unfolding new_session
fresh-IsCoherent = record { released = λ _. refl; cancelled = λ h. absurd (ground (arith, h)) }

abbrev direct : PingResult
direct = record {
  endpoint = codes "10.0.0.2:41641";
  region_code = [];
  region_id = ℤ.pos 0;
  latency = 12;
}

client_warmup-WarmsUp_example : WarmsUp false (reached (handshake_error connected) (good direct)) (
    session_run clock (client_warmup (codes "forward-1") false (connected, []) (good direct)) fresh)
unfolding new_session
client_warmup-WarmsUp_example =
    client_warmup-WarmsUp clock (codes "forward-1") false connected [] (good direct) fresh
      fresh-IsCoherent refl refl

abbrev no_addr : Text → Option ℕ
no_addr _ = none

socks_dial-Dials_example :
    Dials no_addr
      (good tt)
      (codes "localhost:8080")
      (socks_dial no_addr (λ s. s) (good tt) (codes "localhost:8080"))
socks_dial-Dials_example = socks_dial-Dials no_addr (λ s. s) (good tt) (codes "localhost:8080")

abbrev relayed : Peer
relayed = record { active = true; cur_addr = []; relay = codes "fra" }

abbrev near : Peer
near = record { active = true; cur_addr = codes "10.0.0.2:41641"; relay = codes "fra" }

abbrev looks : List Look
looks =
    record { table = some (some relayed ∷ none ∷ []); measured = 5000; emitted = 5001 }
    ∷ record { table = none; measured = 10000; emitted = 10001 }
    ∷ record { table = some (some near ∷ some relayed ∷ []); measured = 15000; emitted = 15001 }
    ∷ []

server_path_probe-tells_example :
    told_peers (known_summary none) (server_path_probe (codes "server-1") none 0 looks)
    ≡ (some (int (ℤ.pos 2)), some (text (codes "direct")))
unfolding Text-discrete
server_path_probe-tells_example = server_path_probe-tells (codes "server-1") none 0 looks

abbrev web : StartServerArgs
web = record {
  ports = [];
  all = false;
  exit_node = false;
  files = none;
  ssh = false;
  share_paths = codes "/home/me/docs" ∷ [];
  name = [];
}

abbrev docs : List ShareItem
docs = record { name = codes "docs"; size = 0; is_dir = true; path = codes "/home/me/docs" } ∷ []

abbrev hello : Manifest
unfolding manifest_of
hello = manifest_of (codes "1") (codes "laptop") (codes "linux") docs web read_only

abbrev marshal : Manifest → Text
marshal _ = codes "{}"

abbrev unmarshal : Text → Outcome Manifest
unmarshal _ = good (as_sent hello)

abbrev publishing : Text → Answers
publishing _ = record {
  handshake = connected;
  disco = good direct;
  port1 = some (manifest_line marshal hello, codes "EOF");
  port22 = no_answer;
}

abbrev reads_all : Text → Outcome ℕ
reads_all _ = good 1

abbrev no_host : Text → Outcome (List Text)
no_host _ = bad (codes "no such host")

abbrev all_exist : Text → Outcome Bool
all_exist _ = good true

hello-IsEncoded : IsEncoded marshal unmarshal hello
unfolding read_limit
hello-IsEncoded = record {
  one_line = (λ e. absurd (omega (arith, e)), (λ e. absurd (omega (arith, e)), tt));
  fits = omega arith;
  decodes = refl;
}

web-IsAccepted : IsAccepted all_exist false web read_only
web-IsAccepted = record {
  something = refl;
  one_share = refl;
  shares = ((true, refl), tt);
  ports = tt;
  shell = refl;
  files = refl;
}

tcabc : normalize_token no_host reads_all (codes "tcabc") ≡ ok (codes "tcabc")
unfolding normalize_token resolve_token check_token Text-discrete trim_prefix trim_space
tcabc = refl

reached_directly : reach (codes "connect: %v") connected (good direct) ≡ ok direct
unfolding reach
reached_directly = refl

probe-manifest_of_example :
    (found : ProbeResult) × (probe no_host reads_all unmarshal publishing (codes "tcabc")
      ≡ ok found)
    × (found.manifest ≡ some (as_sent hello))
    × (found.sftp ≡ has_service web)
    × (found.sftp_list ≡ true)
    × (found.ssh_shell ≡ web.ssh)
unfolding manifest_of hello
probe-manifest_of_example =
    probe-manifest_of no_host reads_all unmarshal publishing all_exist false marshal (codes "tcabc")
      (codes "tcabc") (codes "1") (codes "laptop") (codes "linux") (codes "EOF") docs web read_only
      direct tcabc reached_directly refl hello-IsEncoded web-IsAccepted
