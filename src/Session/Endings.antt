-- ===== src/Session/Endings.antt =====
-- session.go: how a job leaves its session.
use tailcat_gui.Prelude.{ℕ, true, false, [], ◌≡◌, refl, ◌∙◌, arith, Text}
use tailcat_gui.Session.{Scope, State, Closer, is_terminal, set_state, add_closer}
use tailcat_gui.Session.Lifecycle.{IsEnded, set_state_ends}

-- A session that is closed in this state, with no resource left.
pub record EndsAs (st : State) (why : Text) (t : Scope) : Type 0 where
  pub state : t.session.state ≡ st
  pub detail : t.session.detail ≡ why
  pub closed : t.session.closed ≡ true
  pub cancelled : t.session.cancelled ≡ true
  pub released : t.session.closers ≡ []

pub active-EndsAs :
    {st : State} {why : Text} {w t : Scope}
    → is_terminal w.session.state ≡ false
    → IsEnded st why w t
    → EndsAs st why t
active-EndsAs h e = record {
  state = e.state ∙ rw h refl;
  detail = e.detail ∙ rw h refl;
  closed = e.closed;
  cancelled = e.cancelled;
  released = e.released;
}

pub add_closer-state : (c : Closer) (w : Scope) → (add_closer c w).session.state ≡ w.session.state
unfolding add_closer
add_closer-state c w = ground arith

module _ (clock : ℕ → ℕ) where
  -- An active state that is set leaves an active session active.
  pub set_state-active :
      (st : State) (why : Text) (w : Scope)
      → is_terminal st ≡ false
      → is_terminal w.session.state ≡ false
      → is_terminal (set_state clock st why w).session.state ≡ false
  set_state-active st why w s h = let e = set_state_ends clock st why w in rw (e.0) (rw h s)
