-- ===== src/Connect/Accepting.antt =====
-- forward.go: the loop that accepts connections.
use tailcat_gui.Prelude.{ℕ, List, [], ◌∷◌, ◌++◌, ◌≡◌, refl, Text, codes, map}
use tailcat_gui.Session.{SessionOp, fails}
use tailcat_gui.Connect.{Accept, accepted, stopped, broken, accept_loop}

-- What comes behind the connections that are accepted first.
pub data Rest : Type 0 where
  blocked : Rest
  ended : List Accept → Rest
  faulty : Text → List Accept → Rest

abbrev pub events_of : Rest → List Accept
events_of blocked = []
events_of (ended l) = stopped ∷ l
events_of (faulty e l) = broken e ∷ l

abbrev pub effect_of : Rest → List SessionOp
effect_of blocked = []
effect_of (ended l) = []
effect_of (faulty e l) = fails (codes "accept: " ++ e) ∷ []

-- `acceptLoop` hands on the connections up to the first error, each once and in order, and none
-- behind it. The session is failed by an error, unless the error comes of its end; while
-- connections come, nothing is done to it.
pub accept_loop-handles :
    (cs : List ℕ) (rest : Rest)
    → accept_loop (map accepted cs ++ events_of rest) ≡ (cs, effect_of rest)
unfolding accept_loop
accept_loop-handles [] blocked = refl
accept_loop-handles [] (ended l) = refl
accept_loop-handles [] (faulty e l) = refl
accept_loop-handles (c ∷ cs) rest = rw (accept_loop-handles cs rest, accept_loop) refl
