-- ===== src/Forward.antt =====
-- core/engine/forward.go and socks.go: forwarded ports and the SOCKS proxy. `listen` stands for
-- `net.Listen` at an address.
pub mod Started
pub mod Socks
use tailcat_gui.Prelude.{
  ℕ, ◌+◌, Bool, true, false, not, ◌&&◌, ◌||◌, List, [], ◌∷◌, ◌++◌, Option, none, some,
  if◌then◌else◌, Text, codes, text_eq, ℤ, ltb_ℤ,
}
use tailcat_gui.Prelude.Decimal.{decimal}
use tailcat_gui.Errors.{Error, Result, ok, err, coded, bad_request, internal, plain, ◌>>=◌}
use tailcat_gui.Events.{Event, text, int, ev_error}
use tailcat_gui.Session.{
  Kind, forward, ssh, socks, SessionOp, adds_closer, sets_info, pushes, client, listener,
}
use tailcat_gui.Tokens.{
  Outcome, good, bad, normalize_token, listen_addr, in_port_range, atoi, split_host_port,
}
use tailcat_gui.Engine.{Engine}
use tailcat_gui.Engine.Starting.{start_session}

pub record StartForwardArgs : Type 0 where
  pub token : Text
  pub local_port : ℤ
  pub remote_port : ℤ
  pub bind_all : Bool

pub record StartSocksArgs : Type 0 where
  pub token : Text
  pub listen : Text

-- A `net.Listener`: its port, and its address as a text.
pub record Listener : Type 0 where
  pub port : ℕ
  pub addr : Text

-- What the UI gets: the session's id, the local port, the address, and a command for a terminal.
pub record Opened : Type 0 where
  pub session_id : Text
  pub local_port : Option ℕ
  pub listen : Option Text
  pub command : Option Text

-- `sshCommand`
unfoldable pub ssh_command : Bool → ℕ → Text
ssh_command windows port =
    codes "ssh -p "
    ++ (decimal port
        ++ (codes " -o StrictHostKeyChecking=no -o UserKnownHostsFile="
            ++ ((if windows then codes "NUL" else codes "/dev/null")
                ++ codes " -o LogLevel=ERROR tailcat@127.0.0.1")))

abbrev pub integer : ℤ → Text
integer (ℤ.pos n) = decimal n
integer (ℤ.negsuc n) = b'-' ∷ decimal (n + 1)

-- `net.JoinHostPort(host, strconv.Itoa(a.LocalPort))`, for the two hosts.
unfoldable pub forward_addr : Bool → ℤ → Text
forward_addr bind_all port = (if bind_all then [] else codes "127.0.0.1") ++ (b':' ∷ integer port)

-- The checks of `startForward`.
unfoldable pub check_forward : StartForwardArgs → Result (Unit {0})
check_forward a =
    if ltb_ℤ a.remote_port (ℤ.pos 1) || ltb_ℤ (ℤ.pos 65535) a.remote_port
    then err (coded bad_request (codes "remote_port out of range: %d") (int a.remote_port ∷ []))
    else if ltb_ℤ a.local_port (ℤ.pos 0) || ltb_ℤ (ℤ.pos 65535) a.local_port
    then err (coded bad_request (codes "local_port out of range: %d") (int a.local_port ∷ []))
    else ok tt

-- What is done to the session of a forwarded port, and to that of a proxy.
unfoldable pub forward_ops : ℤ → Listener → List SessionOp
forward_ops remote ln =
    adds_closer client
    ∷ adds_closer listener
    ∷ sets_info (codes "local_port") (int (ℤ.pos ln.port))
    ∷ sets_info (codes "remote_port") (int remote)
    ∷ sets_info (codes "listen") (text ln.addr)
    ∷ []

unfoldable pub socks_ops : Listener → List SessionOp
socks_ops ln =
    adds_closer client
    ∷ adds_closer listener
    ∷ sets_info (codes "listen") (text ln.addr)
    ∷ sets_info (codes "local_port") (int (ℤ.pos ln.port))
    ∷ []

abbrev pub is_ssh : Kind → Bool
is_ssh ssh = true
is_ssh _ = false

-- The result of a command, whether a listener that it opened is still open, and the engine.
abbrev pub Answer : Type 0
Answer = Result Opened × Bool × Engine

abbrev pub answer : (Text → Opened) → Result Text × Engine → Answer
answer shown (ok id, e) = (ok (shown id), true, e)
answer shown (err x, e) = (err x, false, e)

-- A session for a listener. It owns the listener; if it cannot be opened, the listener is closed again.
unfoldable pub serve_listener : (ℕ → ℕ) → Kind → List SessionOp → (Text → Opened) → Engine → Answer
serve_listener clock kind os shown e = answer shown (start_session clock kind os e)

module _ {ConnInfo : Type 0} (lookup_txt : Text → Outcome (List Text))
    (parse_conn_blob : Text → Outcome ConnInfo) (listen : Text → Outcome Listener) (windows : Bool)
    (clock : ℕ → ℕ) where
  -- `net.Listen` and what follows it.
  unfoldable pub listen_at : Text → (Listener → Engine → Answer) → Engine → Answer
  listen_at addr serve e = elim (listen addr) [
    | bad x ↦ (err (coded internal (codes "listen: %v") (text x ∷ [])), false, e)
    | good ln ↦ serve ln e
  ]

  -- `startForward`, up to its goroutines.
  unfoldable pub start_forward : Kind → StartForwardArgs → Engine → Answer
  start_forward kind a e =
      elim (check_forward a >>= λ _. normalize_token lookup_txt parse_conn_blob a.token) [
        | err x ↦ (err x, false, e)
        | ok _ ↦
            listen_at (forward_addr a.bind_all a.local_port)
              (λ ln e.
                serve_listener clock kind (forward_ops a.remote_port ln)
                  (λ id. record {
                    session_id = id;
                    local_port = some ln.port;
                    listen = none;
                    command = if is_ssh kind then some (ssh_command windows ln.port) else none;
                  })
                  e)
              e
      ]

  -- `startSSHForward`
  unfoldable pub start_ssh_forward : Text → Engine → Answer
  start_ssh_forward token e =
      start_forward ssh
        (record { token = token; local_port = ℤ.pos 0; remote_port = ℤ.pos 22; bind_all = false }) e

  -- `startSocks`, up to its goroutines.
  unfoldable pub start_socks : StartSocksArgs → Engine → Answer
  start_socks a e =
      elim (normalize_token lookup_txt parse_conn_blob a.token >>= λ _. listen_addr a.listen 1080) [
        | err x ↦ (err x, false, e)
        | ok addr ↦
            listen_at addr
              (λ ln e.
                serve_listener clock socks (socks_ops ln)
                  (λ id. record {
                    session_id = id;
                    local_port = none;
                    listen = some ln.addr;
                    command = none;
                  })
                  e)
              e
      ]

-- Where the proxy dials: a port of the server, an address behind it, or a host name that the server resolves.
pub data Dial (Addr : Type 0) : Type 0 where
  server_port : ℕ → Dial Addr
  address : Addr → ℕ → Dial Addr
  named : Text → Dial Addr

abbrev pub one_of : Text → List Text → Bool
one_of s [] = false
one_of s (x ∷ xs) = text_eq s x || one_of s xs

abbrev pub own_hosts : List Text
own_hosts = [] ∷ codes "server.tailcat" ∷ codes "localhost" ∷ codes "127.0.0.1" ∷ codes "::1" ∷ []

abbrev pub port_number : ℤ → ℕ
port_number (ℤ.pos n) = n
port_number (ℤ.negsuc n) = 0

-- The proxy's `Dialer`. `parse_addr` stands for `netip.ParseAddr` followed by `Unmap`,
-- `split_error` for the message of `net.SplitHostPort`, and `ready` is what `waitReady` returns.
unfoldable pub socks_dial :
    {Addr : Type 0}
    → (Text → Option Addr)
    → (Text → Text)
    → Outcome (Unit {0})
    → Text
    → Result (Dial Addr)
socks_dial parse_addr split_error (bad e) addr = err (plain e [])
socks_dial parse_addr split_error (good _) addr = elim (split_host_port addr) [
  | none ↦ err (plain (split_error addr) [])
  | some (host, port) ↦ elim (atoi port) [
    | none ↦ err (coded bad_request (codes "bad port %q") (text port ∷ []))
    | some p ↦
        if in_port_range p
        then if one_of host own_hosts
          then ok (server_port (port_number p))
          else (elim (parse_addr host) [
            | some ip ↦ ok (address ip (port_number p))
            | none ↦ ok (named addr)
          ])
        else err (coded bad_request (codes "bad port %q") (text port ∷ []))
  ]
]

-- What is done with an accepted connection: `none` proxies it, else it is closed and the error is pushed.
unfoldable pub forward_conn : {Conn : Type 0} → Text → Outcome Conn → Option Conn × List SessionOp
forward_conn id (good c) = (some c, [])
forward_conn id (bad e) = (none, pushes (dial_error id e) ∷ [])
  where
    dial_error : Text → Text → Event
    dial_error id e =
        (codes "type", ev_error)
        ∷ (codes "session_id", text id)
        ∷ (codes "code", text (codes "dial_failed"))
        ∷ (codes "message", text e)
        ∷ []
