-- ===== src/Session/Coherent.antt =====
-- session.go: the invariant of a session, which `closed` and the fields that `shutdown` resets share.
use tailcat_gui.Prelude.{ℕ, true, List, [], ◌∷◌, ◌≡◌, refl, arith}
use tailcat_gui.Session.{
  Scope, SessionOp, marks_ready, adds_closer, sets_info, sets_state, fails, sets_token, logs,
  pushes, tailcat_logs, stops, shuts_down, mark_ready, add_closer, set_info, shutdown, emit,
  set_state, fail, set_token, logf, tailcat_logf, stop, session_step, session_run,
}

pub record IsCoherent (w : Scope) : Type 0 where
  pub released : w.session.closed ≡ true → w.session.closers ≡ []
  pub cancelled : w.session.closed ≡ true → w.session.cancelled ≡ true

pub shutdown-IsCoherent : (w : Scope) → IsCoherent w → IsCoherent (shutdown w)
unfolding shutdown
shutdown-IsCoherent w c = ground arith

module _ (clock : ℕ → ℕ) where
  pub emit-IsCoherent : (ev : _) (w : Scope) → IsCoherent w → IsCoherent (emit clock ev w)
  unfolding emit
  emit-IsCoherent ev w c = record { released = c.released; cancelled = c.cancelled }

  pub set_state-IsCoherent :
      (st : _) (detail : _) (w : Scope) → IsCoherent w → IsCoherent (set_state clock st detail w)
  unfolding set_state emit
  set_state-IsCoherent st detail w c = ground arith

  -- Every call on a session keeps the invariant.
  pub step-IsCoherent :
      (o : SessionOp) (w : Scope) → IsCoherent w → IsCoherent (session_step clock o w)
  unfolding session_step mark_ready add_closer set_info set_token logf tailcat_logf stop fail
  step-IsCoherent marks_ready w c = record { released = c.released; cancelled = c.cancelled }
  step-IsCoherent (adds_closer x) w c = ground arith
  step-IsCoherent (sets_info k v) w c = record { released = c.released; cancelled = c.cancelled }
  step-IsCoherent (sets_state st detail) w c = set_state-IsCoherent st detail w c
  step-IsCoherent (fails message) w c =
      shutdown-IsCoherent _ (set_state-IsCoherent _ message _ (emit-IsCoherent _ w c))
  step-IsCoherent (sets_token token) w c =
      emit-IsCoherent _ _ (record { released = c.released; cancelled = c.cancelled })
  step-IsCoherent (logs msg) w c = emit-IsCoherent _ w c
  step-IsCoherent (pushes ev) w c = emit-IsCoherent _ w c
  step-IsCoherent (tailcat_logs msg) w c = emit-IsCoherent _ w c
  step-IsCoherent stops w c = shutdown-IsCoherent _ (set_state-IsCoherent _ [] w c)
  step-IsCoherent shuts_down w c = shutdown-IsCoherent w c

  pub run-IsCoherent :
      (os : List SessionOp) (w : Scope) → IsCoherent w → IsCoherent (session_run clock os w)
  unfolding session_run
  run-IsCoherent [] w c = c
  run-IsCoherent (o ∷ os) w c = run-IsCoherent os (session_step clock o w) (step-IsCoherent o w c)

  -- What a session is registered as.
  abbrev pub SameIdentity : Scope → Scope → Type 0
  SameIdentity w t =
      (t.session.id ≡ w.session.id)
      × (t.session.kind ≡ w.session.kind)
      × (t.session.created ≡ w.session.created)

  set_state-SameIdentity :
      (st : _) (why : _) (w : Scope) → SameIdentity w (set_state clock st why w)
  unfolding set_state emit
  set_state-SameIdentity st why w = ground arith

  shutdown-SameIdentity : (w t : Scope) → SameIdentity w t → SameIdentity w (shutdown t)
  unfolding shutdown
  shutdown-SameIdentity w t h = ground arith

  -- No call changes it.
  pub step-SameIdentity : (o : SessionOp) (w : Scope) → SameIdentity w (session_step clock o w)
  unfolding session_step mark_ready add_closer set_info set_token logf tailcat_logf stop fail emit
  step-SameIdentity marks_ready w = (refl, refl, refl)
  step-SameIdentity (adds_closer x) w = ground arith
  step-SameIdentity (sets_info k v) w = (refl, refl, refl)
  step-SameIdentity (sets_state st why) w = set_state-SameIdentity st why w
  step-SameIdentity (fails why) w = shutdown-SameIdentity w _ (set_state-SameIdentity _ why _)
  step-SameIdentity (sets_token token) w = (refl, refl, refl)
  step-SameIdentity (logs msg) w = (refl, refl, refl)
  step-SameIdentity (pushes ev) w = (refl, refl, refl)
  step-SameIdentity (tailcat_logs msg) w = (refl, refl, refl)
  step-SameIdentity stops w = shutdown-SameIdentity w _ (set_state-SameIdentity _ [] w)
  step-SameIdentity shuts_down w = shutdown-SameIdentity w w (refl, refl, refl)
