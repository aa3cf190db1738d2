-- ===== src/Tests/Serving.antt =====
-- Runs of core/engine/server.go.
use tailcat_gui.Serve.{in_port_set}
use tailcat_gui.Serve.{check_shares}
use tailcat_gui.Serve.{check_ports}
use tailcat_gui.Serve.{check_files}
use tailcat_gui.Prelude.{
  ℕ, ◌*◌, true, false, Bool, [], ◌∷◌, ◌||◌, ◌≡◌, refl, arith, none, some, is_some, Text, codes, ℤ,
  All,
}
use tailcat_gui.Errors.{ok, err}
use tailcat_gui.Share.Mode.{read_only}
use tailcat_gui.Session.{Scope, new_session, server}
use tailcat_gui.Tokens.{Outcome, good}
use tailcat_gui.Serve.{
  StartServerArgs, validate, on_tcp, served_ports, bad_port, service, manifest, forward_to,
}
use tailcat_gui.Serve.Accepted.{Decides, IsAccepted, IsPort, validate-Decides}
use tailcat_gui.Serve.Routes.{member, on_tcp-served_ports}

abbrev clock : ℕ → ℕ
clock n = 1000 * n

-- A server of two ports, one of them named twice, and of a folder.
abbrev web : StartServerArgs
web = record {
  ports = ℤ.pos 8080 ∷ ℤ.pos 80 ∷ ℤ.pos 8080 ∷ [];
  all = false;
  exit_node = false;
  files = none;
  ssh = false;
  share_paths = codes "/home/me/docs" ∷ [];
  name = [];
}

abbrev all_exist : Text → Outcome Bool
all_exist _ = good true

abbrev opened : Scope
opened = record {
  session = new_session 5 (codes "server-1") server;
  queue = record { events = []; dropped = 0 };
  readings = 0;
  closed_log = [];
}

web_is_valid : validate all_exist false web ≡ ok read_only
unfolding validate check_shares check_ports check_files
web_is_valid = refl

zero_is_no_port :
    validate all_exist false (record web { ports = ℤ.pos 0 ∷ [] }) ≡ err (bad_port (ℤ.pos 0))
unfolding validate check_shares check_ports
zero_is_no_port = refl

web_announces : served_ports web ≡ 1 ∷ 22 ∷ 80 ∷ 8080 ∷ []
unfolding served_ports
web_announces = refl

web_routes :
    (on_tcp web 22 ≡ some service)
    × (on_tcp web 1 ≡ some manifest)
    × (on_tcp web 80 ≡ some (forward_to 80))
    × (on_tcp web 81 ≡ none)
unfolding on_tcp in_port_set
web_routes = (refl, refl, refl, refl)

validate-Decides_example : Decides (validate all_exist false web) (IsAccepted all_exist false web)
validate-Decides_example = validate-Decides all_exist false web

on_tcp-served_ports_example : is_some (on_tcp web 80) ≡ web.all || member 80 (served_ports web)
on_tcp-served_ports_example = on_tcp-served_ports 80 web

web_ports : All IsPort web.ports
web_ports = (
  (8080, refl, omega arith, omega arith),
  ((80, refl, omega arith, omega arith), ((8080, refl, omega arith, omega arith), tt)),
)
