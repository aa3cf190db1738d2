-- ===== src/Session/Split.antt =====
-- core/engine/session.go: a session's methods as the stretches that run without another goroutine between them. A
-- method takes the session's lock, releases it, and only then pushes its event or closes a resource, so that the
-- stretches of different goroutines mix.
pub mod Changes
pub mod Reports
pub mod Resources
pub mod Settled
pub mod Whole
use tailcat_gui.Prelude.{
  ℕ, true, false, ◌&&◌, List, [], ◌∷◌, ◌++◌, reverse, if◌then◌else◌, ite, Option, none, some, Text,
  codes, text_eq,
}
use tailcat_gui.Prelude.Pick.{pick}
use tailcat_gui.Events.{Value, Event}
use tailcat_gui.Session.{
  Closer, Scope, Session, SessionOp, State, State-discrete, failed, stopped, is_terminal,
  state_event, error_event, token_event, log_event, emit, mark_ready, set_info, marks_ready,
  adds_closer, sets_info, sets_state, fails, sets_token, logs, pushes, tailcat_logs, stops,
  shuts_down,
}

-- A session with what its methods have in hand outside the lock: the state events that they have still to push, and
-- the resources that they have still to close.
pub record Split : Type 0 where
  pub scope : Scope
  pub unsent : List Event
  pub unclosed : List Closer

pub data Stretch : Type 0 where
  -- `setState` under the lock, and its push of the event at that place of `unsent`.
  stores : State → Text → Stretch
  sends : ℕ → Stretch
  -- Another push.
  emits : Event → Stretch
  -- `addCloser` under the lock, `s.cancel()`, `shutdown` under the lock, and a `Close` outside it.
  adds : Closer → Stretch
  cancels : Stretch
  takes : Stretch
  closes : ℕ → Stretch
  -- `setToken` and `setInfo` under the lock, and `markReady`.
  keeps_token : Text → Stretch
  keeps_info : Text → Value → Stretch
  readies : Stretch

-- `setState` up to `s.mu.Unlock()`.
unfoldable pub store : State → Text → Split → Split
unfolding state_event
store st detail p =
    let s = p.scope.session in
    if ite (State-discrete s.state st) true false && text_eq s.detail detail
    then p
    else if is_terminal s.state
    then p
    else (let s' = record s { state = st; detail = detail } in
        record p {
          scope = record (p.scope) { session = s' };
          unsent = p.unsent ++ (state_event s' ∷ []);
        })

-- `addCloser`; on a closed session it releases the lock to close the resource.
unfoldable pub hold : Closer → Split → Split
hold c p =
    let w = p.scope in
    if w.session.closed then record p { unclosed = p.unclosed ++ (c ∷ []) } else record p {
      scope = record w { session = record (w.session) { closers = w.session.closers ++ (c ∷ []) } };
    }

-- `shutdown` under the lock: its goroutine closes what it takes in reverse order.
unfoldable pub take_closers : Split → Split
take_closers p =
    let w = p.scope in
    if w.session.closed then p else record p {
      scope = record w { session = record (w.session) { closed = true; closers = [] } };
      unclosed = p.unclosed ++ reverse w.session.closers;
    }

unfoldable pub close_nth : ℕ → Split → Split
close_nth n p = elim (pick n p.unclosed) [
  | none ↦ p
  | some (c, rest) ↦ record p {
    scope = record (p.scope) { closed_log = p.scope.closed_log ++ (c ∷ []) };
    unclosed = rest;
  }
]

module _ (clock : ℕ → ℕ) where
  unfoldable pub send_nth : ℕ → Split → Split
  unfolding emit
  send_nth n p = elim (pick n p.unsent) [
    | none ↦ p
    | some (ev, rest) ↦ record p { scope = emit clock ev p.scope; unsent = rest }
  ]

  unfoldable pub split_step : Stretch → Split → Split
  unfolding store send_nth hold take_closers close_nth
  split_step (stores st detail) p = store st detail p
  split_step (sends n) p = send_nth n p
  split_step (emits ev) p = record p { scope = emit clock ev p.scope }
  split_step (adds c) p = hold c p
  split_step cancels p = record p {
    scope = record (p.scope) { session = record (p.scope.session) { cancelled = true } };
  }
  split_step takes p = take_closers p
  split_step (closes n) p = close_nth n p
  split_step (keeps_token token) p = record p {
    scope = record (p.scope) { session = record (p.scope.session) { token = token } };
  }
  split_step (keeps_info k v) p = record p { scope = set_info k v p.scope }
  split_step readies p = record p { scope = mark_ready p.scope }

  unfoldable pub split_run : List Stretch → Split → Split
  split_run [] p = p
  split_run (o ∷ os) p = split_run os (split_step o p)

-- The loop of `shutdown` over the resources that it took.
abbrev pub close_all : List Closer → List Stretch
close_all [] = []
close_all (_ ∷ cs) = closes 0 ∷ close_all cs

-- What the goroutine that calls a method does on a session, in this order: the events of `fail`, `setToken` and
-- `logf` name the session, and `shutdown` has the resources to close.
unfoldable pub stretches : SessionOp → Session → List Stretch
stretches marks_ready s = readies ∷ []
stretches (adds_closer c) s = adds c ∷ closes 0 ∷ []
stretches (sets_info k v) s = keeps_info k v ∷ []
stretches (sets_state st detail) s = stores st detail ∷ sends 0 ∷ []
stretches (fails message) s =
    emits (error_event s (codes "session_failed") message)
    ∷ stores failed message
    ∷ sends 0
    ∷ cancels
    ∷ takes
    ∷ close_all s.closers
stretches (sets_token token) s = keeps_token token ∷ emits (token_event s token) ∷ []
stretches (logs msg) s = emits (log_event s (codes "info") msg) ∷ []
stretches (pushes ev) s = emits ev ∷ []
stretches (tailcat_logs msg) s = emits (log_event s (codes "debug") msg) ∷ []
stretches stops s = stores stopped [] ∷ sends 0 ∷ cancels ∷ takes ∷ close_all s.closers
stretches shuts_down s = cancels ∷ takes ∷ close_all s.closers
