-- ===== src/Connect.antt =====
-- core/engine/connect.go and forward.go: how a client session reaches its server. The answers of
-- the network and of the context are parameters: `ping i d` is the i-th handshake, with a time
-- limit of `d` seconds, and `ctx_err n` the n-th reading of `ctx.Err()`.
pub mod Attempts
pub mod Warmup
pub mod Accepting
use tailcat_gui.Prelude.{
  ℕ, zero, suc, ◌+◌, ◌*◌, Bool, true, false, not, List, [], ◌∷◌, ◌++◌, Option, none, some,
  if◌then◌else◌, Text, codes, ℤ,
}
use tailcat_gui.Prelude.Decimal.{decimal}
use tailcat_gui.Events.{Event, Value, text, int, float, ev_path, ev_error}
use tailcat_gui.Events
use tailcat_gui.Session.{SessionOp, sets_state, fails, marks_ready, logs, pushes, starting, running}
use tailcat_gui.Tokens.{Outcome, good, bad, classify_ping}

-- What `warmClient` returns: nothing, the context's error, or `server not reachable` with the last error.
pub data Handshake : Type 0 where
  connected : Handshake
  cancelled : Text → Handshake
  unreachable : Text → Handshake

abbrev pub attempts : List ℕ
attempts = 2 ∷ 3 ∷ 5 ∷ 10 ∷ []

abbrev pub retry_message : ℕ → Text → Text
retry_message i e =
    codes "handshake attempt "
    ++ (decimal (i + 1) ++ (codes " failed (" ++ (e ++ codes "); retrying")))

module _ (ctx_err : ℕ → Option Text) (ping : ℕ → ℕ → Outcome (Unit {0})) where
  -- The loop, with what it logs.
  unfoldable pub warm_loop : List ℕ → ℕ → Text → Handshake × List Text
  warm_loop [] i last = (unreachable last, [])
  warm_loop (d ∷ ds) i last = elim (ctx_err (2 * i)) [
    | some c ↦ (cancelled c, [])
    | none ↦ elim (ping i d) [
      | good _ ↦ (connected, [])
      | bad e ↦ elim (ctx_err (2 * i + 1)) [
        | some c ↦ (cancelled c, [])
        | none ↦
            let (r, messages) = warm_loop ds (i + 1) e in
            (r, (if Events.is_empty ds then messages else retry_message i e ∷ messages))
      ]
    ]
  ]

  -- `warmClient`
  unfoldable pub warm_client : Handshake × List Text
  unfolding warm_loop
  warm_client = warm_loop attempts 0 []

module _ {Conn : Type 0} (port : ℕ) (ctx_err : ℕ → Option Text) (dial : ℕ → Outcome Conn) where
  abbrev pub dial_message : ℕ → Text → Text
  dial_message attempt e =
      codes "dial peer port "
      ++ (decimal port ++ (codes " (attempt " ++ (decimal attempt ++ (codes "): " ++ e))))

  -- The loop of `dialPeerPort`: the rounds left, the number of the attempt and the last error.
  unfoldable pub dial_loop : ℕ → ℕ → Text → Outcome Conn × List SessionOp
  dial_loop zero attempt last =
      (bad (codes "peer port " ++ (decimal port ++ (codes " is not reachable: " ++ last))), [])
  dial_loop (suc n) attempt last = elim (dial attempt) [
    | good c ↦ (good c, [])
    | bad e ↦ elim (ctx_err attempt) [
      | some x ↦ (bad x, [])
      | none ↦ let (r, os) = dial_loop n (attempt + 1) e in (r, logs (dial_message attempt e) ∷ os)
    ]
  ]

  -- `dialPeerPort`: what it returns and what it does to the session. `ready` is what `waitReady` returns.
  unfoldable pub dial_peer_port : Outcome (Unit {0}) → Outcome Conn × List SessionOp
  unfolding dial_loop
  dial_peer_port (bad e) = (bad (codes "connect to peer: " ++ e), [])
  dial_peer_port (good _) = dial_loop 3 1 []

-- What a disco ping says of the path; the latency is in millionths of a second.
pub record PingResult : Type 0 where
  pub endpoint : Text
  pub region_code : Text
  pub region_id : ℤ
  pub latency : ℕ

abbrev pub via_of : PingResult → Text × Text
via_of p = classify_ping p.endpoint p.region_code p.region_id

-- The event of `clientWarmup` and `clientPathProbe`.
unfoldable pub path_event : Text → PingResult → Event
path_event id p =
    let (via, detail) = via_of p in
    (codes "type", ev_path)
    ∷ (codes "session_id", text id)
    ∷ (codes "via", text via)
    ∷ (codes "detail", text detail)
    ∷ (codes "latency_ms", float (1000 * p.latency))
    ∷ []

abbrev pub log_all : List Text → List SessionOp
log_all [] = []
log_all (m ∷ ms) = logs m ∷ log_all ms

-- The errors of `warmClient` as texts.
abbrev pub handshake_error : Handshake → Option Text
handshake_error connected = none
handshake_error (cancelled c) = some c
handshake_error (unreachable e) = some (codes "server not reachable: " ++ e)

-- `clientWarmup` behind its pings, on the session `id`: `stopped` tells whether the session's context is cancelled.
unfoldable pub warmup_end : Text → Bool → Option Text → Outcome PingResult → List SessionOp
warmup_end id stopped (some e) disco =
    if stopped then [] else fails (codes "connect to server: " ++ e) ∷ []
warmup_end id stopped none (bad e) =
    if stopped then [] else fails (codes "connect to server: " ++ e) ∷ []
warmup_end id stopped none (good p) =
    marks_ready
    ∷ sets_state running (codes "connected via " ++ (via_of p).1)
    ∷ pushes (path_event id p)
    ∷ []

-- `clientWarmup`, up to the probing of the path.
unfoldable pub client_warmup :
    Text → Bool → Handshake × List Text → Outcome PingResult → List SessionOp
client_warmup id stopped (h, messages) disco =
    sets_state starting (codes "connecting")
    ∷ (log_all messages ++ warmup_end id stopped (handshake_error h) disco)

-- What `ln.Accept` returns: a connection, an error that comes of the session's end, or another error.
pub data Accept : Type 0 where
  accepted : ℕ → Accept
  stopped : Accept
  broken : Text → Accept

-- `acceptLoop`: the connections that it hands on, and what it does to the session. The list ends
-- where `Accept` blocks.
unfoldable pub accept_loop : List Accept → List ℕ × List SessionOp
accept_loop [] = ([], [])
accept_loop (accepted c ∷ rest) = let (cs, os) = accept_loop rest in (c ∷ cs, os)
accept_loop (stopped ∷ rest) = ([], [])
accept_loop (broken e ∷ rest) = ([], fails (codes "accept: " ++ e) ∷ [])
