-- ===== src/Tests/Engines.antt =====
-- Runs of core/engine/engine.go.
use mathlib.Core.List.{Perm}
use mathlib.Core.List.Perm
use tailcat_gui.Prelude.{
  ℕ, ◌*◌, true, List, [], ◌∷◌, ◌≡◌, refl, codes, some, map, Text, Text-discrete,
}
use tailcat_gui.Prelude.Decimal.{decimal}
use tailcat_gui.Prelude.Dict.{Dict, lookup, insert}
use tailcat_gui.Errors.{ok, err, coded, internal}
use tailcat_gui.Session.{Session, server, send, new_session, stops, snapshot}
use tailcat_gui.Engine.Every.{Every}
use tailcat_gui.Engine.Ids.{IsWellFormed, new-IsWellFormed, open_session-adds}
use tailcat_gui.Engine.Closing.{HasEnded, Enumerates, close-ends}
use tailcat_gui.Engine.Listing.{Ascending, list_sessions-sorted}
use tailcat_gui.Engine.History.{Holds, run-Holds}
use tailcat_gui.Engine.{
  Engine, Config, new, open_session, session_id, close, list_sessions, opens, calls, closes,
  engine_run,
}

abbrev clock : ℕ → ℕ
clock n = 1000 * n

abbrev in_order : Dict Session → List (Text × Session)
in_order m = m

in_order-Enumerates : Enumerates in_order
in_order-Enumerates m = Perm.refl m

abbrev cfg : Config
cfg = record { data_dir = []; derp_map_url = [] }

abbrev begun_session : Session
begun_session = new_session 0 (codes "server-1") server

-- An engine with one session.
one : Engine
one = record (new cfg) {
  next_id = 1;
  sessions = (codes "server-1", begun_session) ∷ [];
  readings = 1;
}

one_opened : open_session clock server (new cfg) ≡ ok (codes "server-1", one)
unfolding open_session one new session_id decimal insert
one_opened = refl

one-IsWellFormed : IsWellFormed one
one-IsWellFormed =
    (open_session-adds clock server (new cfg) one (new-IsWellFormed cfg) one_opened).0

ids_count_on : session_id send 1204 ≡ codes "send-1204"
unfolding session_id decimal
ids_count_on = refl

one_found : lookup (codes "server-1") one.sessions ≡ some begun_session
unfolding one lookup Text-discrete
one_found = refl

close-ends_example :
    let e' = close clock in_order one in
    Every (λ _ s. HasEnded s) e'
    × (e'.cancelled ≡ true)
    × (open_session clock send e' ≡ err (coded internal (codes "engine is closed") []))
close-ends_example = close-ends clock in_order one send in_order-Enumerates one-IsWellFormed

list_sessions-sorted_example :
    let out = list_sessions in_order one in
    Ascending out × Perm out (map (λ (_, s). snapshot s) one.sessions)
list_sessions-sorted_example = list_sessions-sorted in_order one in_order-Enumerates

run-Holds_example :
    Holds
      (codes "server-1")
      begun_session
      (engine_run clock in_order (calls (codes "server-1") stops ∷ opens send ∷ closes ∷ []) one)
run-Holds_example =
    run-Holds clock in_order (calls (codes "server-1") stops ∷ opens send ∷ closes ∷ [])
      (codes "server-1") begun_session one one-IsWellFormed one_found
