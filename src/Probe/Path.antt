-- ===== src/Probe/Path.antt =====
-- path.go: the two goroutines that watch a session's path, tick by tick. The list of ticks ends
-- where the session's context is cancelled.
pub mod Told
use tailcat_gui.Prelude.{
  ℕ, ◌+◌, ◌-◌, Bool, true, false, not, ◌&&◌, ◌||◌, List, [], ◌∷◌, ◌++◌, ◌≡◌, refl, sym, ap, ◌∙◌,
  arith, Option, none, some, if◌then◌else◌, Text, codes, text_eq, Text-discrete, ℤ, ltb, ◌==◌,
  Bool-cases, Option-cases, inl, inr,
}
use tailcat_gui.Prelude.Dict.{lookup}
use tailcat_gui.Events.{Event, Value, text, int, ev_path}
use tailcat_gui.Session.{SessionOp, sets_info, pushes}
use tailcat_gui.Tokens.{Outcome, good, bad}
use tailcat_gui.Connect.{PingResult, via_of, path_event}

-- `probeHeartbeat`, in milliseconds
abbrev pub heartbeat : ℕ
heartbeat = 60000

-- One tick of the client: what the ping answers, when `time.Since` measures and what `time.Now()`
-- gives for `lastEmit`.
pub record Tick : Type 0 where
  pub answer : Outcome PingResult
  pub measured : ℕ
  pub emitted : ℕ

-- `clientPathProbe` on the session `id`: the last path told and when it was.
unfoldable pub client_path_probe : Text → Text → ℕ → List Tick → List SessionOp
client_path_probe id via last [] = []
client_path_probe id via last (t ∷ ts) = elim t.answer [
  | bad _ ↦ client_path_probe id via last ts
  | good p ↦
      let told = pushes (path_event id p) ∷ client_path_probe id (via_of p).0 t.emitted ts in
      let untold = client_path_probe id via last ts in
      if not (text_eq (via_of p).0 via) || ltb heartbeat (t.measured - last) then told else untold
]

-- An entry of the server's table of peers.
pub record Peer : Type 0 where
  pub active : Bool
  pub cur_addr : Text
  pub relay : Text

-- What the loop over the table has found: how many peers, and the path that it tells.
pub record PeerView : Type 0 where
  pub peers : ℕ
  pub via : Text
  pub detail : Text

abbrev pub counts : Option Peer → Bool
counts none = false
counts (some p) = not (not p.active && (text_eq p.cur_addr [] && text_eq p.relay []))

unfoldable pub add_peer : Option Peer → PeerView → PeerView
add_peer none v = v
add_peer (some p) v =
    if not p.active && (text_eq p.cur_addr [] && text_eq p.relay [])
    then v
    else if not (text_eq p.cur_addr [])
    then record { peers = v.peers + 1; via = codes "direct"; detail = p.cur_addr }
    else if text_eq v.via []
    then record {
      peers = v.peers + 1;
      via = codes "derp";
      detail = codes "DERP(" ++ (p.relay ++ codes ")");
    }
    else record v { peers = v.peers + 1 }

-- The loop; the list has the entries in the order, unspecified in Go, in which `range` goes through the table.
unfoldable pub view_peers : PeerView → List (Option Peer) → PeerView
view_peers v [] = v
view_peers v (p ∷ ps) = view_peers (add_peer p v) ps

abbrev pub no_peers : PeerView
no_peers = record { peers = 0; via = []; detail = [] }

unfoldable pub peers_event : Text → PeerView → Event
peers_event id v =
    (codes "type", ev_path)
    ∷ (codes "session_id", text id)
    ∷ (codes "via", text v.via)
    ∷ (codes "detail", text v.detail)
    ∷ (codes "peers", int (ℤ.pos v.peers))
    ∷ []

-- One tick of the server: its table, if `Status` returns one.
pub record Look : Type 0 where
  pub table : Option (List (Option Peer))
  pub measured : ℕ
  pub emitted : ℕ

-- `peers != lastPeers || via != lastVia`; `none` stands for the first `lastPeers`, which is -1.
unfoldable pub changed : Option PeerView → PeerView → Bool
changed none v = true
changed (some l) v = not (v.peers == l.peers) || not (text_eq v.via l.via)

-- `serverPathProbe`
unfoldable pub server_path_probe : Text → Option PeerView → ℕ → List Look → List SessionOp
server_path_probe id shown last [] = []
server_path_probe id shown last (t ∷ ts) = elim t.table [
  | none ↦ server_path_probe id shown last ts
  | some ps ↦
      let v = view_peers no_peers ps in
      let told =
        sets_info (codes "peers") (int (ℤ.pos v.peers))
        ∷ pushes (peers_event id v)
        ∷ server_path_probe id (some v) t.emitted ts in
      let untold = server_path_probe id shown last ts in
      if changed shown v || ltb heartbeat (t.measured - last) then told else untold
]
