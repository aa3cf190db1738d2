-- ===== src/Probe/Path/Told.antt =====
-- path.go: what the UI knows of a path.
use tailcat_gui.Prelude.{
  ℕ, ◌+◌, ◌-◌, Bool, true, false, not, ◌&&◌, ◌||◌, if◌then◌else◌, List, [], ◌∷◌, ◌≡◌, refl, sym, ap,
  ◌∙◌, arith, Option, none, some, Text, codes, text_eq, Text-discrete, ℤ, ltb, Bool-cases,
  Option-cases, inl, inr,
}
use tailcat_gui.Prelude.Dict.{lookup}
use tailcat_gui.Events.{Value, text, int}
use tailcat_gui.Session.{SessionOp, pushes}
use tailcat_gui.Tokens.{Outcome, good, bad}
use tailcat_gui.Connect.{PingResult, via_of, path_event}
use tailcat_gui.Probe.Path.{
  heartbeat, Tick, client_path_probe, Peer, PeerView, add_peer, view_peers, no_peers, peers_event,
  Look, changed, server_path_probe,
}

-- What the UI has last been told under a key.
abbrev pub told : Text → Option Value → List SessionOp → Option Value
told k v [] = v
told k v (pushes ev ∷ os) = told k (lookup k ev) os
told k v (_ ∷ os) = told k v os

-- The path of the last ping that was answered.
abbrev pub last_via : Text → List Tick → Text
last_via via [] = via
last_via via (t ∷ ts) = elim t.answer [
  | bad _ ↦ last_via via ts
  | good p ↦ last_via (via_of p).0 ts
]

same_text : (s t : Text) → not (text_eq s t) ≡ false → s ≡ t
same_text s t h = ground arith

first_false : (a b : Bool) → (a || b) ≡ false → a ≡ false
first_false a b h = ground arith

path_event-via :
    (id : Text) (p : PingResult) → lookup (codes "via") (path_event id p) ≡ some (text (via_of p).0)
unfolding lookup path_event Text-discrete
path_event-via id p = refl

client_tick :
    (id via : Text) (last : ℕ) (a : Outcome PingResult) (m e : ℕ) (ts : List Tick)
    → ((v : Text) (l : ℕ)
        → told (codes "via") (some (text v)) (client_path_probe id v l ts)
          ≡ some (text (last_via v ts)))
    → let ts' = record { answer = a; measured = m; emitted = e } ∷ ts in
      told (codes "via") (some (text via)) (client_path_probe id via last ts')
      ≡ some (text (last_via via ts'))
unfolding client_path_probe
client_tick id via last (bad _) m e ts ih = ih via last
client_tick id via last (good p) m e ts ih =
    elim (Bool-cases (not (text_eq (via_of p).0 via) || ltb heartbeat (m - last))) [
      | inl c ↦ rw c (
          ap (λ x. told (codes "via") x (client_path_probe id (via_of p).0 e ts))
            (path_event-via id p)
          ∙ ih (via_of p).0 e)
      | inr c ↦ rw c (
          ih via last
          ∙ ap (λ x. some (text (last_via x ts)))
              (sym (same_text (via_of p).0 via (first_false _ _ c))))
    ]

-- Whatever the ticks: behind them, the path that the UI was told last is the one of the last ping that was answered.
pub client_path_probe-tells :
    (id via : Text) (last : ℕ) (ts : List Tick)
    → told (codes "via") (some (text via)) (client_path_probe id via last ts)
      ≡ some (text (last_via via ts))
unfolding client_path_probe
client_path_probe-tells id via last [] = refl
client_path_probe-tells id via last (t ∷ ts) =
    client_tick id via last t.answer t.measured t.emitted ts
      (λ v l. client_path_probe-tells id v l ts)

-- A peer that is there, one with an address of its own, and what a table says: how many peers are there, and the best
-- path that there is to one of them.
abbrev pub is_there : Option Peer → Bool
is_there none = false
is_there (some p) = p.active || not (text_eq p.cur_addr []) || not (text_eq p.relay [])

abbrev pub is_direct : Option Peer → Bool
is_direct none = false
is_direct (some p) = not (text_eq p.cur_addr [])

abbrev pub how_many : (Option Peer → Bool) → List (Option Peer) → ℕ
how_many f [] = 0
how_many f (p ∷ ps) = let n = how_many f ps in if f p then n + 1 else n

abbrev pub best_via : List (Option Peer) → Text
best_via ps =
    if ltb 0 (how_many is_direct ps)
    then codes "direct"
    else if ltb 0 (how_many is_there ps)
    then codes "derp"
    else []

abbrev pub summary : List (Option Peer) → ℕ × Text
summary ps = (how_many is_there ps, best_via ps)

-- What the UI was last told of a view, and what the last table that the loop saw says.
abbrev pub view_summary : Option PeerView → Option (ℕ × Text)
view_summary none = none
view_summary (some v) = some (v.peers, v.via)

abbrev pub last_summary : Option (ℕ × Text) → List Look → Option (ℕ × Text)
last_summary shown [] = shown
last_summary shown (t ∷ ts) = elim t.table [
  | none ↦ last_summary shown ts
  | some ps ↦ last_summary (some (summary ps)) ts
]

abbrev pub known_summary : Option (ℕ × Text) → Option Value × Option Value
known_summary none = (none, none)
known_summary (some (n, via)) = (some (int (ℤ.pos n)), some (text via))

-- The path after more peers, from the one before them.
abbrev via_after : Text → List (Option Peer) → Text
via_after via ps =
    if ltb 0 (how_many is_direct ps)
    then codes "direct"
    else if text_eq via [] && ltb 0 (how_many is_there ps)
    then codes "derp"
    else via

-- The path after one more peer.
abbrev via_next : Option Peer → Text → Text
via_next p via =
    if is_direct p
    then codes "direct"
    else if text_eq via [] && is_there p
    then codes "derp"
    else via

add_peer-summary :
    (p : Option Peer) (v : PeerView)
    → ((add_peer p v).peers ≡ v.peers + (if is_there p then 1 else 0))
      × ((add_peer p v).via ≡ via_next p v.via)
unfolding add_peer
add_peer-summary none v = ground arith
add_peer-summary (some p) v = ground arith

direct_is_there : (p : Option Peer) → is_direct p ≡ true → is_there p ≡ true
direct_is_there none h = ground arith
direct_is_there (some p) h = ground arith

via_after_next :
    (p : Option Peer) (ps : List (Option Peer)) (via : Text)
    → via_after (via_next p via) ps ≡ via_after via (p ∷ ps)
unfolding Text-discrete
via_after_next p ps via = ground (arith, direct_is_there p)

view_peers-summary :
    (ps : List (Option Peer)) (v : PeerView)
    → ((view_peers v ps).peers ≡ v.peers + how_many is_there ps)
      × ((view_peers v ps).via ≡ via_after v.via ps)
unfolding view_peers
view_peers-summary [] v = ground arith
view_peers-summary (p ∷ ps) v =
    let (n, via) = view_peers-summary ps (add_peer p v) in
    let (m, next) = add_peer-summary p v in
    (ground (arith, n, m), via ∙ ap (λ t. via_after t ps) next ∙ via_after_next p ps v.via)

table-summary :
    (ps : List (Option Peer)) → view_summary (some (view_peers no_peers ps)) ≡ some (summary ps)
unfolding Text-discrete
table-summary ps = let (n, via) = view_peers-summary ps no_peers in ground (arith, n, via)

-- The table that the server's loop saw last.
abbrev last_view : Option PeerView → List Look → Option PeerView
last_view shown [] = shown
last_view shown (t ∷ ts) = elim t.table [
  | none ↦ last_view shown ts
  | some ps ↦ last_view (some (view_peers no_peers ps)) ts
]

-- What the UI knows of the peers after such a view.
abbrev known : Option PeerView → Option Value × Option Value
known none = (none, none)
known (some v) = (some (int (ℤ.pos v.peers)), some (text v.via))

abbrev pub told_peers : Option Value × Option Value → List SessionOp → Option Value × Option Value
told_peers (n, v) os = (told (codes "peers") n os, told (codes "via") v os)

same_view :
    (shown : Option PeerView) (v : PeerView)
    → changed shown v ≡ false
    → known shown ≡ known (some v)
unfolding changed
same_view none v h = ground arith
same_view (some l) v h = ground arith

known-last_view :
    (ts : List Look) (a b : Option PeerView)
    → known a ≡ known b
    → known (last_view a ts) ≡ known (last_view b ts)
known-last_view [] a b h = h
known-last_view (t ∷ ts) a b h = elim (Option-cases t.table) [
  | inl e ↦ rw e (known-last_view ts a b h)
  | inr (ps, e) ↦ rw e refl
]

peers_event-known :
    (id : Text) (v : PeerView)
    → (lookup (codes "peers") (peers_event id v), lookup (codes "via") (peers_event id v))
      ≡ known (some v)
unfolding lookup peers_event Text-discrete
peers_event-known id v = refl

server_tick :
    (id : Text) (shown : Option PeerView) (last : ℕ) (a : Option (List (Option Peer))) (m e : ℕ)
    (ts : List Look)
    → ((s : Option PeerView) (l : ℕ)
        → told_peers (known s) (server_path_probe id s l ts) ≡ known (last_view s ts))
    → let ts' = record { table = a; measured = m; emitted = e } ∷ ts in
      told_peers (known shown) (server_path_probe id shown last ts') ≡ known (last_view shown ts')
unfolding server_path_probe
server_tick id shown last none m e ts ih = ih shown last
server_tick id shown last (some ps) m e ts ih =
    let v = view_peers no_peers ps in
    elim (Bool-cases (changed shown v || ltb heartbeat (m - last))) [
      | inl c ↦ rw c (
          ap (λ x. told_peers x (server_path_probe id (some v) e ts)) (peers_event-known id v)
          ∙ ih (some v) e)
      | inr c ↦ rw c (
          ih shown last ∙ known-last_view ts shown (some v) (same_view shown v (first_false _ _ c)))
    ]

server_path_probe-known :
    (id : Text) (shown : Option PeerView) (last : ℕ) (ts : List Look)
    → told_peers (known shown) (server_path_probe id shown last ts) ≡ known (last_view shown ts)
unfolding server_path_probe
server_path_probe-known id shown last [] = refl
server_path_probe-known id shown last (t ∷ ts) =
    server_tick id shown last t.table t.measured t.emitted ts
      (λ s l. server_path_probe-known id s l ts)

known-summary : (shown : Option PeerView) → known shown ≡ known_summary (view_summary shown)
known-summary none = refl
known-summary (some v) = refl

last_view-summary :
    (shown : Option PeerView) (ts : List Look)
    → view_summary (last_view shown ts) ≡ last_summary (view_summary shown) ts
last_view-summary shown [] = refl
last_view-summary shown (t ∷ ts) = elim (Option-cases t.table) [
  | inl e ↦ rw e (last_view-summary shown ts)
  | inr (ps, e) ↦ rw e (
      last_view-summary (some (view_peers no_peers ps)) ts
      ∙ ap (λ u. last_summary u ts) (table-summary ps))
]

-- Whatever the looks at the table: behind them, what the UI was told last are the number of peers
-- of the last table that are active or have an address or a relay, and the path: `direct` if a
-- peer has an address, else `derp` if one is there, else none.
pub server_path_probe-tells :
    (id : Text) (shown : Option PeerView) (last : ℕ) (ts : List Look)
    → told_peers (known_summary (view_summary shown)) (server_path_probe id shown last ts)
      ≡ known_summary (last_summary (view_summary shown) ts)
server_path_probe-tells id shown last ts =
    ap (λ k. told_peers k (server_path_probe id shown last ts)) (sym (known-summary shown))
    ∙ server_path_probe-known id shown last ts
    ∙ known-summary (last_view shown ts)
    ∙ ap known_summary (last_view-summary shown ts)
