-- ===== src/Engine.antt =====
-- core/engine/engine.go: the sessions of an engine. The state that its goroutines share is one record.
-- `clock n` is the n-th reading of the clock, and `enumerate` the order, unspecified in Go, in which
-- `range` goes through the session map.
pub mod Ids
pub mod Every
pub mod Closing
pub mod Listing
pub mod History
pub mod Starting
pub mod Shut
use tailcat_gui.Prelude.{
  ℕ, ◌+◌, ◌<◌, Bool, true, false, List, [], ◌∷◌, ◌++◌, map, reverse, if◌then◌else◌, ltb, Option,
  none, some, Text, codes, ℤ,
}
use tailcat_gui.Prelude.Decimal.{decimal}
use tailcat_gui.Prelude.Dict.{Dict, lookup, insert}
use tailcat_gui.Errors.{Result, ok, err, coded, internal, not_found}
use tailcat_gui.Events.{Value, text, int, Event, EventQueue}
use tailcat_gui.Events
use tailcat_gui.Session.{
  Kind, kind_text, Session, Scope, Closer, new_session, snapshot, is_active, stop, SessionOp,
  session_step,
}

pub record Config : Type 0 where
  pub data_dir : Text
  pub derp_map_url : Text

pub record Engine : Type 0 where
  pub cfg : Config
  pub queue : EventQueue
  pub cancelled : Bool
  pub sessions : Dict Session
  pub next_id : ℕ
  pub closed : Bool
  pub readings : ℕ
  pub released : List (Text × Closer)

-- `New`
unfoldable pub new : Config → Engine
new cfg = record {
  cfg = cfg;
  queue = Events.empty;
  cancelled = false;
  sessions = [];
  next_id = 0;
  closed = false;
  readings = 0;
  released = [];
}

-- `fmt.Sprintf("%s-%d", kind, n)`
unfoldable pub session_id : Kind → ℕ → Text
session_id kind n = kind_text kind ++ (b'-' ∷ decimal n)

-- A session's method, called through the pointer that the map holds.
abbrev pub scope : Session → Engine → Scope
scope s e = record { session = s; queue = e.queue; readings = e.readings; closed_log = [] }

unfoldable pub write_back : Text → Scope → Engine → Engine
write_back id w e = record e {
  sessions = insert id w.session e.sessions;
  queue = w.queue;
  readings = w.readings;
  released = e.released ++ map (λ c. (id, c)) w.closed_log;
}

unfoldable pub on_session : Text → (Scope → Scope) → Engine → Engine
on_session id f e = elim (lookup id e.sessions) [
  | none ↦ e
  | some s ↦ write_back id (f (scope s e)) e
]

-- `session`
unfoldable pub session : Text → Engine → Result Session
session id e = elim (lookup id e.sessions) [
  | none ↦ err (coded not_found (codes "no session %q") (text id ∷ []))
  | some s ↦ ok s
]

-- `activeSessions`
count_active : Dict Session → ℕ
count_active [] = 0
count_active ((id, s) ∷ rest) = (if is_active s.state then 1 else 0) + count_active rest

unfoldable pub active_sessions : Engine → ℕ
unfolding count_active
active_sessions e = count_active e.sessions

-- `out[j]["created_ms"].(int64)`; every snapshot has it (Session.Report.snapshot-tells).
unfoldable pub created_ms : Event → ℕ
created_ms ev = elim (lookup (codes "created_ms") ev) [
  | some v ↦ elim v [ int z ↦ elim z [ ℤ.pos n ↦ n | _ ↦ 0 ] | _ ↦ 0 ]
  | none ↦ 0
]

-- The inner loop of the sort: `out[j]` moves down while it is older than `out[j-1]`. The elements below
-- `j` are given from the right.
unfoldable pub sift : Event → List Event → List Event
sift x [] = x ∷ []
sift x (y ∷ below) = if ltb (created_ms x) (created_ms y) then y ∷ sift x below else x ∷ y ∷ below

-- The outer loop; what is sorted so far is given from the right.
unfoldable pub sort_loop : List Event → List Event → List Event
sort_loop sorted [] = sorted
sort_loop sorted (x ∷ rest) = sort_loop (sift x sorted) rest

-- `listSessions`
unfoldable pub list_sessions : (Dict Session → List (Text × Session)) → Engine → List Event
list_sessions enumerate e =
    reverse (sort_loop [] (map (λ (id, s). snapshot s) (enumerate e.sessions)))

module _ (clock : ℕ → ℕ) where
  -- `newSession`: the engine with the new session, and its id.
  unfoldable pub open_session : Kind → Engine → Result (Text × Engine)
  open_session kind e =
      if e.closed
      then err (coded internal (codes "engine is closed") [])
      else (let id = session_id kind (e.next_id + 1) in
          ok (
            id,
            record e {
              next_id = e.next_id + 1;
              sessions = insert id (new_session (clock e.readings) id kind) e.sessions;
              readings = e.readings + 1;
            },
          ))

  -- `stopSession`
  unfoldable pub stop_session : Text → Engine → Result Engine
  stop_session id e = elim (session id e) [
    | ok s ↦ ok (on_session id (stop clock) e)
    | err x ↦ err x
  ]

  -- The loop of `Close`.
  unfoldable pub stop_each : List (Text × Session) → Engine → Engine
  stop_each [] e = e
  stop_each ((id, s) ∷ rest) e = stop_each rest (on_session id (stop clock) e)

  -- `Close`
  unfoldable pub close : (Dict Session → List (Text × Session)) → Engine → Engine
  close enumerate e =
      let e' = stop_each (enumerate e.sessions) (record e { closed = true }) in
      record e' { cancelled = true }

-- What goroutines and the UI do to an engine, in the order of its locks.
pub data EngineOp : Type 0 where
  opens : Kind → EngineOp
  calls : Text → SessionOp → EngineOp
  polls : EngineOp
  closes : EngineOp

-- `Drain` reads the clock only for the overflow warning.
overflow_readings : EventQueue → ℕ
overflow_readings q = if Events.is_empty q.events then 0 else if ltb 0 q.dropped then 1 else 0

module _ (clock : ℕ → ℕ) (enumerate : Dict Session → List (Text × Session)) where
  -- `Poll`, less the encoding of the events as JSON.
  unfoldable pub poll : Engine → List Event × Engine
  unfolding overflow_readings
  poll e =
      let (out, queue) = Events.drain (clock e.readings) e.queue in
      (out, record e { queue = queue; readings = e.readings + overflow_readings e.queue })

  unfoldable pub engine_step : EngineOp → Engine → Engine
  engine_step (opens kind) e = elim (open_session clock kind e) [ ok (_, e') ↦ e' | err _ ↦ e ]
  engine_step (calls id op) e = on_session id (session_step clock op) e
  engine_step polls e = (poll e).1
  engine_step closes e = close clock enumerate e

  unfoldable pub engine_run : List EngineOp → Engine → Engine
  engine_run [] e = e
  engine_run (o ∷ os) e = engine_run os (engine_step o e)
