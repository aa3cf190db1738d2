-- ===== src/Probe/Peers.antt =====
-- path.go: the order of the server's table of peers.
use mathlib.Core.List.{Permᴰ}
use mathlib.Core.Logic.{∥∥₁_elim}
use tailcat_gui.Prelude.{List, [], ◌∷◌, ◌≡◌, refl, arith, Option, none, some, Perm, ◌∙◌, sym}
use tailcat_gui.Probe.Path.{Peer, PeerView, add_peer, view_peers, no_peers}

-- Two views that tell the same: the detail may name another peer.
abbrev pub Alike : PeerView → PeerView → Type 0
Alike v w = (v.peers ≡ w.peers) × (v.via ≡ w.via)

add_peer-Alike :
    (p : Option Peer) (v w : PeerView) → Alike v w → Alike (add_peer p v) (add_peer p w)
unfolding add_peer
add_peer-Alike none v w h = h
add_peer-Alike (some p) v w h = ground arith

add_peer-swap :
    (p q : Option Peer) (v : PeerView)
    → Alike (add_peer p (add_peer q v)) (add_peer q (add_peer p v))
unfolding add_peer
add_peer-swap none q v = (refl, refl)
add_peer-swap (some p) none v = (refl, refl)
add_peer-swap (some p) (some q) v = ground arith

view_peers-Alike :
    (ps : List (Option Peer)) (v w : PeerView)
    → Alike v w
    → Alike (view_peers v ps) (view_peers w ps)
unfolding view_peers
view_peers-Alike [] v w h = h
view_peers-Alike (p ∷ ps) v w h =
    view_peers-Alike ps (add_peer p v) (add_peer p w) (add_peer-Alike p v w h)

trans : (u v w : PeerView) → Alike u v → Alike v w → Alike u w
trans u v w (a, b) (c, d) = (a ∙ c, b ∙ d)

view_peers-Permᴰ :
    {ps qs : List (Option Peer)}
    → Permᴰ ps qs
    → (v w : PeerView) → Alike v w
    → Alike (view_peers v ps) (view_peers w qs)
unfolding view_peers
view_peers-Permᴰ Permᴰ.nil v w h = h
view_peers-Permᴰ (Permᴰ.cons {a = a} {l₂ = qs} e d) v w h =
    rw (sym e) (view_peers-Permᴰ d (add_peer a v) (add_peer a w) (add_peer-Alike a v w h))
view_peers-Permᴰ (Permᴰ.swap {a = a} {b = b} {l = l} e f) v w h =
    rw (sym e, sym f)
      (view_peers-Alike l _ _ (
        trans (add_peer b (add_peer a v)) (add_peer b (add_peer a w)) (add_peer a (add_peer b w))
          (add_peer-Alike b _ _ (add_peer-Alike a v w h)) (add_peer-swap b a w)))
view_peers-Permᴰ (Permᴰ.trans {l₁ = l} {l₂ = m} {l₃ = n} d e) v w h =
    trans (view_peers v l) (view_peers w m) (view_peers w n) (view_peers-Permᴰ d v w h)
      (view_peers-Permᴰ e w w (refl, refl))

-- What the server tells of its peers does not depend on the order, unspecified in Go, in which its
-- table is gone through: between two such orders, the number of peers and the path are the same.
pub view_peers-Perm :
    (ps qs : List (Option Peer))
    → Perm ps qs
    → ((view_peers no_peers ps).peers ≡ (view_peers no_peers qs).peers)
      × ((view_peers no_peers ps).via ≡ (view_peers no_peers qs).via)
view_peers-Perm ps qs h =
    ∥∥₁_elim h (hlevel) (λ d. view_peers-Permᴰ d no_peers no_peers (refl, refl))
