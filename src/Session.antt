-- ===== src/Session.antt =====
-- core/engine/session.go: one unit of work. A method of `*Session` is a function on `Scope`, which
-- holds the session with what its methods reach: the event queue, the clock and the closed
-- resources. `clock n` is the n-th reading of `time.Now().UnixMilli()`.
pub mod Coherent
pub mod Lifecycle
pub mod Closers
pub mod Report
pub mod Endings
pub mod Split
use tailcat_gui.Prelude.{
  ℕ, ◌+◌, Bool, true, false, ◌&&◌, ◌||◌, not, List, [], ◌∷◌, ◌++◌, reverse, if◌then◌else◌, ite, ℤ,
  Text, codes, text_eq,
}
use tailcat_gui.Prelude.Dict.{Dict, has, insert, merge}
use tailcat_gui.Events.{
  Value, text, int, Event, EventQueue, push, ev_session_state, ev_error, ev_token_ready, ev_log,
}

pub data Kind : Type 0 where
  server forward socks send recv ssh : Kind

abbrev pub kind_text : Kind → Text
kind_text server = codes "server"
kind_text forward = codes "forward"
kind_text socks = codes "socks"
kind_text send = codes "send"
kind_text recv = codes "recv"
kind_text ssh = codes "ssh"

pub data State : Type 0 where
  starting running done stopped failed : State

abbrev pub state_text : State → Text
state_text starting = codes "starting"
state_text running = codes "running"
state_text done = codes "done"
state_text stopped = codes "stopped"
state_text failed = codes "failed"

unfoldable pub State-discrete : Discrete State
State-discrete = hlevel

-- The `io.Closer`s that the engine registers. A session has at most one of each.
pub data Closer : Type 0 where
  client listener tailcat_server share file_client : Closer

pub record Session : Type 0 where
  pub id : Text
  pub kind : Kind
  pub created : ℕ
  pub cancelled : Bool
  pub ready : Bool
  pub state : State
  pub token : Text
  pub detail : Text
  pub info : Dict Value
  pub closers : List Closer
  pub closed : Bool

-- `newSession`; `ctx`'s parent is the engine's context.
unfoldable pub new_session : ℕ → Text → Kind → Session
new_session now id kind = record {
  id = id;
  kind = kind;
  created = now;
  cancelled = false;
  ready = false;
  state = starting;
  token = [];
  detail = [];
  info = [];
  closers = [];
  closed = false;
}

pub record Scope : Type 0 where
  pub session : Session
  pub queue : EventQueue
  pub readings : ℕ
  pub closed_log : List Closer

abbrev pub is_terminal : State → Bool
is_terminal stopped = true
is_terminal failed = true
is_terminal done = true
is_terminal _ = false

-- `active`
abbrev pub is_active : State → Bool
is_active starting = true
is_active running = true
is_active _ = false

-- `stateEventLocked`
unfoldable pub state_event : Session → Event
unfolding merge
state_event s = merge base s.info
  where
    base : Event
    base =
        (codes "type", ev_session_state)
        ∷ (codes "session_id", text s.id)
        ∷ (codes "kind", text (kind_text s.kind))
        ∷ (codes "state", text (state_text s.state))
        ∷ (codes "detail", text s.detail)
        ∷ []

-- `snapshot`
unfoldable pub snapshot : Session → Event
unfolding merge
snapshot s =
    merge (if text_eq s.token [] then base else insert (codes "token") (text s.token) base) s.info
  where
    base : Event
    base =
        (codes "session_id", text s.id)
        ∷ (codes "kind", text (kind_text s.kind))
        ∷ (codes "state", text (state_text s.state))
        ∷ (codes "detail", text s.detail)
        ∷ (codes "created_ms", int (ℤ.pos s.created))
        ∷ []

-- The events of `fail`, `setToken`, `logf` and `tailcatLogf`.
unfoldable pub error_event : Session → Text → Text → Event
error_event s code message =
    (codes "type", ev_error)
    ∷ (codes "session_id", text s.id)
    ∷ (codes "code", text code)
    ∷ (codes "message", text message)
    ∷ []

unfoldable pub token_event : Session → Text → Event
token_event s token =
    (codes "type", ev_token_ready)
    ∷ (codes "session_id", text s.id)
    ∷ (codes "token", text token)
    ∷ []

unfoldable pub log_event : Session → Text → Text → Event
log_event s level msg =
    (codes "type", ev_log)
    ∷ (codes "session_id", text s.id)
    ∷ (codes "level", text level)
    ∷ (codes "msg", text msg)
    ∷ []

-- `markReady`: the channel is closed once.
unfoldable pub mark_ready : Scope → Scope
mark_ready w = record w { session = record (w.session) { ready = true } }

-- `addCloser`: on a session that is closed already, the resource is closed at once.
unfoldable pub add_closer : Closer → Scope → Scope
add_closer c w =
    if w.session.closed
    then record w { closed_log = w.closed_log ++ (c ∷ []) }
    else record w { session = record (w.session) { closers = w.session.closers ++ (c ∷ []) } }

unfoldable pub set_info : Text → Value → Scope → Scope
set_info k v w = record w { session = record (w.session) { info = insert k v w.session.info } }

-- `s.cancel()` and the locked part of `shutdown`, then the closers in reverse order.
unfoldable pub shutdown : Scope → Scope
shutdown w =
    if w.session.closed
    then record w { session = record (w.session) { cancelled = true } }
    else record w {
      session = record (w.session) { cancelled = true; closed = true; closers = [] };
      closed_log = w.closed_log ++ reverse w.session.closers;
    }

module _ (clock : ℕ → ℕ) where
  -- `s.events.Push(ev)`, which reads the clock if the event has no time yet.
  unfoldable pub emit : Event → Scope → Scope
  emit ev w = record w {
    queue = push (clock w.readings) ev w.queue;
    readings = if has (codes "ts") ev then w.readings else w.readings + 1;
  }

  -- `setState`: nothing on a repetition and in a terminal state, else the change and its event.
  unfoldable pub set_state : State → Text → Scope → Scope
  set_state st detail w =
      if ite (State-discrete w.session.state st) true false && text_eq w.session.detail detail
      then w
      else if is_terminal w.session.state
      then w
      else (let s = record (w.session) { state = st; detail = detail } in
          emit (state_event s) (record w { session = s }))

  unfoldable pub fail : Text → Scope → Scope
  fail message w =
      shutdown
        (set_state failed message (emit (error_event w.session (codes "session_failed") message) w))

  unfoldable pub set_token : Text → Scope → Scope
  set_token token w =
      emit (token_event w.session token)
        (record w { session = record (w.session) { token = token } })

  -- `logf`, and `tailcatLogf`'s function: they differ in the level.
  unfoldable pub logf : Text → Scope → Scope
  logf msg w = emit (log_event w.session (codes "info") msg) w

  unfoldable pub tailcat_logf : Text → Scope → Scope
  tailcat_logf msg w = emit (log_event w.session (codes "debug") msg) w

  unfoldable pub stop : Scope → Scope
  stop w = shutdown (set_state stopped [] w)

-- The calls that goroutines make on a session, in the order in which they take its lock.
pub data SessionOp : Type 0 where
  marks_ready : SessionOp
  adds_closer : Closer → SessionOp
  sets_info : Text → Value → SessionOp
  sets_state : State → Text → SessionOp
  fails : Text → SessionOp
  sets_token : Text → SessionOp
  logs : Text → SessionOp
  pushes : Event → SessionOp  -- `s.events.Push(ev)` outside session.go
  tailcat_logs : Text → SessionOp
  stops : SessionOp
  shuts_down : SessionOp

module _ (clock : ℕ → ℕ) where
  unfoldable pub session_step : SessionOp → Scope → Scope
  session_step marks_ready w = mark_ready w
  session_step (adds_closer c) w = add_closer c w
  session_step (sets_info k v) w = set_info k v w
  session_step (sets_state st detail) w = set_state clock st detail w
  session_step (fails message) w = fail clock message w
  session_step (sets_token token) w = set_token clock token w
  session_step (logs msg) w = logf clock msg w
  session_step (pushes ev) w = emit clock ev w
  session_step (tailcat_logs msg) w = tailcat_logf clock msg w
  session_step stops w = stop clock w
  session_step shuts_down w = shutdown w

  unfoldable pub session_run : List SessionOp → Scope → Scope
  session_run [] w = w
  session_run (o ∷ os) w = session_run os (session_step o w)
