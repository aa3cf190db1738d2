-- ===== src/Tests/Sessions.antt =====
-- Runs of core/engine/session.go.
use mathlib.Core.List.{Perm}
use tailcat_gui.Prelude.{ℕ, ◌*◌, true, false, List, [], ◌∷◌, ◌≡◌, refl, codes, map, Text-discrete}
use tailcat_gui.Prelude.Dict.{lookup, merge, insert}
use tailcat_gui.Events.{push, stamp, make_room}
use tailcat_gui.Session.{
  Scope, client, listener, share, session_run, session_step, adds_closer, stops, starting, stopped,
  running, stop, shutdown, add_closer, set_state, emit, State-discrete, server, done, state_event,
}
use tailcat_gui.Session.Coherent.{IsCoherent}
use tailcat_gui.Session.Lifecycle.{IsEnded, stop-IsEnded}
use tailcat_gui.Session.Closers.{run-closes_all}
use tailcat_gui.Session.Report.{Avoids}
use tailcat_gui.Session.Split.{
  Stretch, stores, sends, takes, adds, closes, split_run, split_step, store, send_nth, take_closers,
  hold, close_nth,
}
use tailcat_gui.Session.Split.Changes.{stage, EndsOnce}
use tailcat_gui.Session.Split.Reports.{Reported, seen, told}
use tailcat_gui.Session.Split.Resources.{resources, Released}
use tailcat_gui.Session.Split.Settled.{split_run-Settles}
use tailcat_gui.Session.Split.Whole.{whole, in_turn, session_run-in_turn}

abbrev clock : ℕ → ℕ
clock n = 1000 * n

abbrev fresh : Scope
fresh = record {
  session = record {
    id = codes "server-1";
    kind = server;
    created = 5;
    cancelled = false;
    ready = false;
    state = starting;
    token = [];
    detail = [];
    info = [];
    closers = client ∷ [];
    closed = false;
  };
  queue = record { events = []; dropped = 0 };
  readings = 0;
  closed_log = [];
}

abbrev ended : Scope
ended = record fresh {
  session = record (fresh.session) { state = done; closers = []; closed = true; cancelled = true };
}

fresh-IsCoherent : IsCoherent fresh
fresh-IsCoherent = record { released = λ h. cc; cancelled = λ h. cc }

fresh-Avoids : Avoids fresh.session.info
unfolding lookup
fresh-Avoids k h = refl

-- A resource that comes too late is closed at once; the others are closed in reverse order.
close_order :
    (session_run clock (adds_closer listener ∷ stops ∷ adds_closer share ∷ []) fresh).closed_log
    ≡ listener ∷ client ∷ share ∷ []
unfolding session_run session_step add_closer stop shutdown set_state emit State-discrete
close_order = refl

stop-IsEnded_example : IsEnded stopped [] fresh (stop clock fresh)
stop-IsEnded_example = stop-IsEnded clock fresh fresh-IsCoherent

run-closes_all_example :
    Perm
      (session_run clock (adds_closer listener ∷ stops ∷ adds_closer share ∷ []) fresh).closed_log
      (client ∷ listener ∷ share ∷ [])
run-closes_all_example =
    run-closes_all clock (adds_closer listener ∷ stops ∷ adds_closer share ∷ []) fresh
      fresh-IsCoherent
      (unfold session_run session_step add_closer stop shutdown set_state emit State-discrete in
        refl)

-- Two goroutines change the state and push in the other order; a resource is registered behind `shutdown`.
abbrev overtaken : List Stretch
overtaken =
    stores running (codes "listening")
    ∷ stores stopped []
    ∷ sends 1
    ∷ sends 0
    ∷ takes
    ∷ adds listener
    ∷ closes 1
    ∷ []

-- The last event says that the session is running, which it is not.
told_late :
    let q = split_run clock overtaken (whole fresh) in
    (q.scope.session.state ≡ stopped)
    × (map seen q.scope.queue.events
        ≡ told (codes "server-1") (stopped, [])
          ∷ told (codes "server-1") (running, codes "listening")
          ∷ [])
unfolding split_run split_step store send_nth take_closers hold close_nth emit push stamp make_room
    State-discrete state_event merge insert lookup Text-discrete
told_late = (refl, refl)

split_run-Settles_example :
    let q = split_run clock overtaken (whole fresh) in
    (stage q ≡ (stopped, []))
    × EndsOnce (starting, []) ((running, codes "listening") ∷ (stopped, []) ∷ [])
    × Reported overtaken (whole fresh) q
    × Perm (resources q) (client ∷ listener ∷ [])
    × Released q
unfolding State-discrete
split_run-Settles_example =
    split_run-Settles clock overtaken (whole fresh) tt fresh-Avoids (λ h. absurd (cc))

session_run-in_turn_example :
    split_run clock
      (in_turn clock (adds_closer listener ∷ stops ∷ adds_closer share ∷ []) fresh)
      (whole fresh)
    ≡ whole (session_run clock (adds_closer listener ∷ stops ∷ adds_closer share ∷ []) fresh)
session_run-in_turn_example =
    session_run-in_turn clock (adds_closer listener ∷ stops ∷ adds_closer share ∷ []) fresh
