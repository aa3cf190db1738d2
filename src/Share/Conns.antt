-- ===== src/Share/Conns.antt =====
-- core/engine/fileshare/server.go: the connections of a server, from `Handler` to `Close`. A step is what one
-- goroutine does between two points where others can run: `Close` takes the connections under the lock and closes
-- them afterwards, one by one.
pub mod Ended
use tailcat_gui.Prelude.{
  ℕ, ◌+◌, Bool, true, false, not, List, [], ◌∷◌, if◌then◌else◌, Option, none, some, ◌==◌, Text,
}
use tailcat_gui.Tokens.{Outcome, good, bad}
use tailcat_gui.Share.Server.{
  Server, track, untrack, close_server, remove_conn, IntSize, ChannelRequest, Ending, serve_session,
}

-- A channel that a client opens: of another type than `session`, one whose `Accept` fails, or one with its requests.
pub data Channel : Type 0 where
  foreign broken : Channel
  session : List ChannelRequest → Channel

-- What becomes of a channel: it is rejected, passed over, or served with these replies.
pub data Answer : Type 0 where
  rejected passed_over : Answer
  serves : List Bool × Ending → Answer

-- A round of the loop over the channels.
unfoldable pub answer_channel : IntSize → Channel → Answer
answer_channel size foreign = rejected
answer_channel size broken = passed_over
answer_channel size (session rs) = serves (serve_session size rs)

unfoldable pub answer_channels : IntSize → List Channel → List Answer
unfolding answer_channel
answer_channels size [] = []
answer_channels size (ch ∷ chs) = answer_channel size ch ∷ answer_channels size chs

-- How a connection is handled: refused by `track`, given up with the handshake's error, or by its channels.
pub data Handled : Type 0 where
  turned_away : Handled
  no_handshake : Text → Handled
  handled : List Answer → Handled

-- The function that `Handler` returns, on a connection that `track` takes or not, and what
-- `ssh.NewServerConn` answers.
unfoldable pub handle : IntSize → Bool → Outcome (List Channel) → Handled
unfolding answer_channels
handle size tracked handshake =
    if not tracked
    then turned_away
    else (elim handshake [ bad e ↦ no_handshake e | good chs ↦ handled (answer_channels size chs) ])

pub data ConnOp : Type 0 where
  -- A connection comes: `track`, or `c.Close()` if that refuses.
  arrives : ℕ → ConnOp
  -- A connection is closed, by its handler's `defer` or by the other side.
  hangs_up : ℕ → ConnOp
  -- Its handler returns: `c.Close()` and `untrack`.
  leaves : ℕ → ConnOp
  -- `Close` is called, up to its loop, and a round of the loop or the closing of the backend behind it.
  shuts : ConnOp
  closes_next : ConnOp

-- The server, the connections that are open, those that `Close` has still to close once it is in its
-- loop, and how often the backend was closed.
pub record Live : Type 0 where
  pub server : Server
  pub open_conns : List ℕ
  pub pending : Option (List ℕ)
  pub fs_closed : ℕ

unfoldable pub arrive : ℕ → Live → Live
arrive c w =
    let (ok, s) = track c w.server in
    if ok then record w { server = s; open_conns = c ∷ w.open_conns } else w

unfoldable pub shut : Live → Live
shut w =
    let (conns, closes, s) = close_server w.server in
    if closes then record w { server = s; pending = some conns } else w

unfoldable pub close_next : Live → Live
close_next w = elim w.pending [
  | none ↦ w
  | some conns ↦ elim conns [
    | [] ↦ record w { pending = none; fs_closed = w.fs_closed + 1 }
    | c ∷ cs ↦ record w { pending = some cs; open_conns = remove_conn c w.open_conns }
  ]
]

unfoldable pub conn_step : ConnOp → Live → Live
unfolding arrive shut close_next
conn_step (arrives c) w = arrive c w
conn_step (hangs_up c) w = record w { open_conns = remove_conn c w.open_conns }
conn_step (leaves c) w = record w {
  server = untrack c w.server;
  open_conns = remove_conn c w.open_conns;
}
conn_step shuts w = shut w
conn_step closes_next w = close_next w

unfoldable pub conn_run : List ConnOp → Live → Live
conn_run [] w = w
conn_run (o ∷ os) w = conn_run os (conn_step o w)

-- A server that was just made.
abbrev pub unconnected : Live
unconnected = record {
  server = record { conns = []; done = false };
  open_conns = [];
  pending = none;
  fs_closed = 0;
}

abbrev pub has_conn : ℕ → List ℕ → Bool
has_conn c [] = false
has_conn c (x ∷ xs) = if x == c then true else has_conn c xs
