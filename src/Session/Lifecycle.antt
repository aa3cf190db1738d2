-- ===== src/Session/Lifecycle.antt =====
-- session.go: the lifecycle of a session.
use tailcat_gui.Prelude.{
  ℕ, true, false, List, [], ◌∷◌, ◌≡◌, refl, ◌⊎◌, arith, Text, codes, ◌∙◌, if◌then◌else◌,
}
use tailcat_gui.Session.Coherent.{IsCoherent, emit-IsCoherent}
use tailcat_gui.Session.{
  error_event, State, stopped, failed, Scope, SessionOp, marks_ready, adds_closer, sets_info,
  sets_state, fails, sets_token, logs, pushes, tailcat_logs, stops, shuts_down, is_terminal,
  mark_ready, add_closer, set_info, shutdown, emit, set_state, fail, set_token, logf, tailcat_logf,
  stop, session_step, session_run,
}

-- The parts of a session that no call changes once they are final.
abbrev pub Frozen : Scope → Scope → Type 0
Frozen w t = (t.session.state ≡ w.session.state) × (t.session.detail ≡ w.session.detail)

-- `t` is `w` after it was ended: in state `st` with the text `why`, unless it had ended before,
-- cancelled, and with nothing left to close.
pub record IsEnded (st : State) (why : Text) (w t : Scope) : Type 0 where
  pub state : t.session.state ≡ (if is_terminal w.session.state then w.session.state else st)
  pub detail : t.session.detail ≡ (if is_terminal w.session.state then w.session.detail else why)
  pub closed : t.session.closed ≡ true
  pub cancelled : t.session.cancelled ≡ true
  pub released : t.session.closers ≡ []

module _ (clock : ℕ → ℕ) where
  emit-session : (ev : _) (w : Scope) → (emit clock ev w).session ≡ w.session
  unfolding emit
  emit-session ev w = refl

  -- In a terminal state `setState` does nothing at all, so it reports nothing either.
  pub set_state_terminal :
      (st : State) (detail : Text) (w : Scope)
      → is_terminal w.session.state ≡ true
      → set_state clock st detail w ≡ w
  unfolding set_state
  set_state_terminal st detail w h = ground arith

  set_state_cases :
      (st : State) (detail : Text) (w : Scope)
      → let t = set_state clock st detail w in
        (t ≡ w)
        ⊎ ((is_terminal w.session.state ≡ false)
            × (t.session ≡ record (w.session) { state = st; detail = detail }))
  unfolding set_state emit
  set_state_cases st detail w = ground arith

  shutdown-state :
      (w : Scope)
      → let t = shutdown w in
        (t.session.state ≡ w.session.state)
        × (t.session.detail ≡ w.session.detail)
        × (t.session.closed ≡ true)
        × (t.session.cancelled ≡ true)
  unfolding shutdown
  shutdown-state w = ground arith

  -- The scope after the error event of `fail`.
  abbrev reported : Scope → Text → Scope
  reported w message = emit clock (error_event w.session (codes "session_failed") message) w

  pub step-Frozen :
      (o : SessionOp) (w : Scope)
      → is_terminal w.session.state ≡ true
      → Frozen w (session_step clock o w)
  unfolding session_step mark_ready add_closer set_info set_token logf tailcat_logf stop fail emit
  step-Frozen marks_ready w h = (refl, refl)
  step-Frozen (adds_closer c) w h = ground arith
  step-Frozen (sets_info k v) w h = (refl, refl)
  step-Frozen (sets_state st detail) w h = rw (set_state_terminal st detail w h) (refl, refl)
  step-Frozen (fails message) w h =
      rw (set_state_terminal failed message (reported w message) h)
        (ground (arith, shutdown-state (reported w message)))
  step-Frozen (sets_token token) w h = (refl, refl)
  step-Frozen (logs msg) w h = (refl, refl)
  step-Frozen (pushes ev) w h = (refl, refl)
  step-Frozen (tailcat_logs msg) w h = (refl, refl)
  step-Frozen stops w h = ground (arith, set_state_terminal stopped [] w h, shutdown-state w)
  step-Frozen shuts_down w h = ground (arith, shutdown-state w)

  -- A terminal state is final: once a session is in one, its state and detail stay, whatever is
  -- called afterwards in any order.
  pub run-Frozen :
      (os : List SessionOp) (w : Scope)
      → is_terminal w.session.state ≡ true
      → Frozen w (session_run clock os w)
  unfolding session_run
  run-Frozen [] w h = (refl, refl)
  run-Frozen (o ∷ os) w h =
      let (s, d) = step-Frozen o w h in
      let (s', d') = run-Frozen os (session_step clock o w) (rw s h) in (s' ∙ s, d' ∙ d)

  pub set_state_ends :
      (st : State) (why : Text) (w : Scope)
      → let t = set_state clock st why w in
        (t.session.state ≡ (if is_terminal w.session.state then w.session.state else st))
        × (t.session.detail ≡ (if is_terminal w.session.state then w.session.detail else why))
        × (t.session.closed ≡ w.session.closed)
        × (t.session.closers ≡ w.session.closers)
  unfolding set_state emit
  set_state_ends st why w = ground arith

  pub shutdown-IsEnded :
      (st : State) (why : Text) (w : Scope)
      → IsCoherent w
      → IsEnded st why w (shutdown (set_state clock st why w))
  unfolding shutdown
  shutdown-IsEnded st why w c = ground (arith, set_state_ends st why w)

  -- `stop` ends a session in any state: as stopped if it was active, and with nothing left to close.
  pub stop-IsEnded : (w : Scope) → IsCoherent w → IsEnded stopped [] w (stop clock w)
  unfolding stop
  stop-IsEnded w c = shutdown-IsEnded stopped [] w c

  -- On a coherent session, `fail` closes the session, cancels its context and leaves no resource
  -- registered. The session is failed with the message, or stays as it was if it had ended before.
  pub fail-IsEnded :
      (message : Text) (w : Scope) → IsCoherent w → IsEnded failed message w (fail clock message w)
  unfolding fail emit
  fail-IsEnded message w c =
      let e = shutdown-IsEnded failed message (reported w message) (emit-IsCoherent clock _ w c) in
      record {
        state = e.state;
        detail = e.detail;
        closed = e.closed;
        cancelled = e.cancelled;
        released = e.released;
      }

  set_state_again :
      (w : Scope)
      → is_terminal w.session.state ≡ true
      → w.session.closed ≡ true
      → w.session.cancelled ≡ true
      → stop clock w ≡ w
  unfolding stop shutdown
  set_state_again w t c x = rw (set_state_terminal stopped [] w t) (ground arith)

  pub IsEnded-terminal :
      (st : State) (why : Text) (w t : Scope)
      → is_terminal st ≡ true
      → IsEnded st why w t
      → is_terminal t.session.state ≡ true
  IsEnded-terminal st why w t h e = rw (e.state) (ground arith)

  -- On a coherent session, a second `stop` changes nothing: it reports nothing and closes nothing.
  pub stop-stop : (w : Scope) → IsCoherent w → stop clock (stop clock w) ≡ stop clock w
  stop-stop w c =
      let e = stop-IsEnded w c in
      set_state_again (stop clock w) (IsEnded-terminal stopped [] w _ refl e) e.closed e.cancelled
