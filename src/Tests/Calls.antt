-- ===== src/Tests/Calls.antt =====
-- Runs of core/engine/commands.go and of the commands that open sessions.
use tailcat_gui.Prelude.{
  ℕ, arith, ◌*◌, true, false, Bool, List, [], ◌∷◌, ◌≡◌, ◌⊎◌, refl, none, some, Text, codes, ℤ,
  Text-discrete,
}
use tailcat_gui.Prelude.Dict.{Dict, lookup}
use tailcat_gui.Errors.{ok, coded, bad_request, code_of}
use tailcat_gui.Events.{text}
use tailcat_gui.Session.{Session, forward}
use tailcat_gui.Share.Mode.{Mode}
use tailcat_gui.Tokens.{Outcome, good, bad, normalize_token}
use tailcat_gui.Connect.{connected, PingResult}
use tailcat_gui.Engine.{Engine, new}
use tailcat_gui.Engine.Ids.{IsWellFormed, new-IsWellFormed}
use tailcat_gui.Engine.Starting.{Runs}
use tailcat_gui.Serve.{StartServerArgs}
use tailcat_gui.Serve.Accepted.{IsPort}
use tailcat_gui.Forward.{StartForwardArgs, Listener, start_forward, forward_ops}
use tailcat_gui.Forward.Started.{start_forward_cases, Refuses, Listens, forward_shown, asked_addr}
use tailcat_gui.Transfers.Listing.{ShareAnswers}
use tailcat_gui.Probe.{Answers, no_answer}
use tailcat_gui.Transfers.Resources.{Accounts, opened, open_share-Accounts}
use tailcat_gui.Transfers.Listing.{dial_share}
use tailcat_gui.Commands.{World, Decoders, Request, failure, command, dispatch, call, with_args}
use tailcat_gui.Bridge.{
  Bridge, current_engine, tc_shutdown, detach, close_on, calls_on, acquires, bridge_run,
}
use tailcat_gui.Bridge.Retired.{IsRetired, tc_shutdown-IsRetired}
use tailcat_gui.Commands.Dispatched.{call-Runs}

abbrev clock : ℕ → ℕ
clock n = 1000 * n

abbrev in_order : Dict Session → List (Text × Session)
in_order m = m

abbrev empty : Engine
empty = new (record { data_dir = []; derp_map_url = [] })

empty-IsWellFormed : IsWellFormed empty
empty-IsWellFormed = new-IsWellFormed (record { data_dir = []; derp_map_url = [] })

abbrev no_host : Text → Outcome (List Text)
no_host _ = bad (codes "no such host")

abbrev reads_all : Text → Outcome ℕ
reads_all _ = good 1

abbrev all_exist : Text → Outcome Bool
all_exist _ = good true

abbrev port_5000 : Text → Outcome Listener
port_5000 _ = good (record { port = 5000; addr = codes "127.0.0.1:5000" })

abbrev direct : PingResult
direct = record {
  endpoint = codes "10.0.0.2:41641";
  region_code = [];
  region_id = ℤ.pos 0;
  latency = 12;
}

abbrev answering : Text → Answers
answering _ = record {
  handshake = connected;
  disco = good direct;
  port1 = none;
  port22 = no_answer;
}

abbrev sharing : Text → ShareAnswers ℕ
sharing _ = record {
  handshake = connected;
  messages = [];
  dial = good tt;
  ssh = good tt;
  sftp = good tt;
  list = λ _. good 3;
}

abbrev world : World ℕ ℕ
world = record {
  lookup_txt = no_host;
  parse_conn_blob = reads_all;
  stat = all_exist;
  listen = port_5000;
  unmarshal = λ _. bad (codes "no manifest");
  hostname = good (codes "laptop.local");
  goos = codes "linux";
  goarch = codes "amd64";
  version = codes "1";
  build_deps = none;
  view = λ n. record { region_id = ℤ.pos n; server_public = codes "key"; regions = [] };
  ssh_supported = true;
  windows = false;
  clock = clock;
  enumerate = in_order;
  message = λ _. codes "error";
  opened = λ _. good tt;
  answers = answering;
  elapsed = 1;
  share_of = sharing;
}

abbrev web : StartServerArgs
web = record {
  ports = ℤ.pos 8080 ∷ [];
  all = false;
  exit_node = false;
  files = none;
  ssh = false;
  share_paths = codes "/home/me/docs" ∷ [];
  name = [];
}

abbrev ssh_forward : StartForwardArgs
ssh_forward = record {
  token = codes "tcabc";
  local_port = ℤ.pos 0;
  remote_port = ℤ.pos 22;
  bind_all = false;
}

-- Decoders that read the same arguments from every text.
abbrev decoders : Decoders
decoders = record {
  session_args = λ _. good (record { session_id = codes "server-1" });
  token_args = λ _. good (record { token = codes "tcabc" });
  server_args = λ _. good web;
  forward_args = λ _. good ssh_forward;
  socks_args = λ _. good (record { token = codes "tcabc"; listen = codes "1080" });
  send_args =
      λ _. good (record { token = codes "tcabc"; paths = codes "/a" ∷ []; remote_dir = [] });
  list_args = λ _. good (record { token = codes "tcabc"; dir = [] });
  download_args = λ _. bad (codes "unexpected end of JSON input");
}

abbrev request : Text → Outcome Request
request op = good (record { op = op; args = [] })

unknown_op :
    (call decoders world (request (codes "reboot")) empty).0
    ≡ failure bad_request (coded bad_request (codes "unknown op %q") (text (codes "reboot") ∷ []))
unfolding call dispatch lookup Text-discrete code_of
unknown_op = refl

bad_args :
    (call decoders world (request (codes "download")) empty).0
    ≡ failure bad_request (
        coded bad_request
          (codes "invalid args: %v")
          (text (codes "unexpected end of JSON input") ∷ []))
unfolding call dispatch lookup Text-discrete code_of command with_args
bad_args = refl

call-Runs_example :
    Runs clock in_order empty (call decoders world (request (codes "start_server")) empty).1
call-Runs_example = call-Runs decoders world (request (codes "start_server")) empty

start_forward_cases_example :
    let r = start_forward no_host reads_all port_5000 false clock forward ssh_forward empty in
    Refuses empty r
    ⊎ (IsPort (ℤ.pos 22)
        × ((tok : Text) × (ci : ℕ) × (normalize_token no_host reads_all (codes "tcabc") ≡ ok tok)
            × (reads_all tok ≡ good ci))
        × ((ln : Listener) × (port_5000 (asked_addr ssh_forward) ≡ good ln)
            × Listens clock forward
                (forward_ops (ℤ.pos 22) ln)
                (forward_shown no_host reads_all port_5000 false clock forward ln)
                empty
                r))
start_forward_cases_example =
    start_forward_cases no_host reads_all port_5000 false clock forward ssh_forward empty
      empty-IsWellFormed

-- A library with one engine.
abbrev one_engine : Bridge
one_engine = record { eng = some 0; heap = λ _. empty; next = 1; made = [] }

no_forward : lookup (codes "forward-1") empty.sessions ≡ none
unfolding new lookup
no_forward = refl

tc_shutdown-IsRetired_example : IsRetired 0 (codes "forward-1") (
    bridge_run decoders world
      (calls_on 0 (request (codes "start_forward")) ∷ acquires ∷ [])
      (tc_shutdown decoders world one_engine))
tc_shutdown-IsRetired_example =
    tc_shutdown-IsRetired decoders world 0 (codes "forward-1")
      (calls_on 0 (request (codes "start_forward")) ∷ acquires ∷ []) one_engine refl (omega arith)
      no_forward

next_is_new : (current_engine (tc_shutdown decoders world one_engine)).0 ≡ 1
unfolding current_engine tc_shutdown detach close_on
next_is_new = refl

open_share-Accounts_example :
    Accounts (dial_share (sharing (codes "tcabc"))) (opened (sharing (codes "tcabc")))
open_share-Accounts_example = open_share-Accounts (sharing (codes "tcabc"))
