-- ===== src/Session/Closers.antt =====
-- session.go: the resources that a session owns are closed, each as often as it was registered.
use mathlib.Core.List.{reverse_perm}
use mathlib.Core.List.Perm
use tailcat_gui.Prelude.{
  ℕ, true, false, List, [], ◌∷◌, ◌++◌, ◌≡◌, refl, sym, ap, ◌∙◌, arith, reverse, append-nil,
  append_assoc, Perm, Bool-cases, inl, inr, subst,
}
use tailcat_gui.Session.Coherent.{IsCoherent, step-IsCoherent, run-IsCoherent}
use tailcat_gui.Session.{
  Closer, Scope, SessionOp, marks_ready, adds_closer, sets_info, sets_state, fails, sets_token,
  logs, pushes, tailcat_logs, stops, shuts_down, mark_ready, add_closer, set_info, shutdown, emit,
  set_state, fail, set_token, logf, tailcat_logf, stop, session_step, session_run,
}

-- The resources that a history of calls registers.
abbrev pub added_by : SessionOp → List Closer
added_by (adds_closer c) = c ∷ []
added_by _ = []

abbrev pub added : List SessionOp → List Closer
added [] = []
added (o ∷ os) = added_by o ++ added os

-- The resources closed so far, in order, and those that are still open.
abbrev pub registered : Scope → List Closer
registered w = w.closed_log ++ w.session.closers

shutdown-registered : (w : Scope) → Perm (registered (shutdown w)) (registered w)
unfolding shutdown
shutdown-registered w = elim (Bool-cases w.session.closed) [
  | inl e ↦ rw e (Perm.refl _)
  | inr e ↦
      rw (e, append-nil) (Perm.append (Perm.refl w.closed_log) (reverse_perm w.session.closers))
]

add_closer-registered :
    (c : Closer) (w : Scope) → IsCoherent w → registered (add_closer c w) ≡ registered w ++ (c ∷ [])
unfolding add_closer
add_closer-registered c w k = elim (Bool-cases w.session.closed) [
  | inl e ↦ rw e (rw (k.released e) (simp append-nil))
  | inr e ↦ rw (e, append_assoc)
]

module _ (clock : ℕ → ℕ) where
  set_state-registered :
      (st : _) (why : _) (w : Scope) → registered (set_state clock st why w) ≡ registered w
  unfolding set_state emit
  set_state-registered st why w = ground arith

  ends-registered :
      (st : _) (why : _) (w : Scope)
      → Perm (registered (shutdown (set_state clock st why w))) (registered w)
  ends-registered st why w =
      subst (Perm _) (set_state-registered st why w)
        (shutdown-registered (set_state clock st why w))

  step-registered :
      (o : SessionOp) (w : Scope)
      → IsCoherent w
      → Perm (registered (session_step clock o w)) (registered w ++ added_by o)
  unfolding session_step mark_ready set_info set_token logf tailcat_logf stop fail emit
  step-registered (adds_closer c) w k = rw (add_closer-registered c w k) (Perm.refl _)
  step-registered marks_ready w k = rw append-nil (Perm.refl _)
  step-registered (sets_info _ _) w k = rw append-nil (Perm.refl _)
  step-registered (sets_state st why) w k =
      rw (append-nil, set_state-registered st why w) (Perm.refl _)
  step-registered (fails why) w k = rw append-nil (ends-registered _ why _)
  step-registered (sets_token token) w k = rw append-nil (Perm.refl _)
  step-registered (logs _) w k = rw append-nil (Perm.refl _)
  step-registered (pushes _) w k = rw append-nil (Perm.refl _)
  step-registered (tailcat_logs _) w k = rw append-nil (Perm.refl _)
  step-registered stops w k = rw append-nil (ends-registered _ _ w)
  step-registered shuts_down w k = rw append-nil (shutdown-registered w)

  run-registered :
      (os : List SessionOp) (w : Scope)
      → IsCoherent w
      → Perm (registered (session_run clock os w)) (registered w ++ added os)
  unfolding session_run
  run-registered [] w k = rw append-nil (Perm.refl _)
  run-registered (o ∷ os) w k =
      Perm.trans (run-registered os (session_step clock o w) (step-IsCoherent clock o w k)) (
        rw (← append_assoc (registered w) (added_by o) (added os))
          (Perm.append (step-registered o w k) (Perm.refl (added os))))

  -- If a history of calls starts from a coherent session and ends with the session closed, every
  -- resource that was open before or that was registered in the history, before or after the
  -- session closed, has been closed, and none more often than it was registered.
  pub run-closes_all :
      (os : List SessionOp) (w : Scope)
      → IsCoherent w
      → (session_run clock os w).session.closed ≡ true
      → Perm (session_run clock os w).closed_log (w.closed_log ++ (w.session.closers ++ added os))
  run-closes_all os w k closed =
      let t = session_run clock os w in
      let all : Perm (registered t) (registered w ++ added os) = run-registered os w k in
      rw (← append_assoc w.closed_log w.session.closers (added os)) (
        subst (λ l. Perm l (registered w ++ added os))
          (ap (◌++◌ t.closed_log) ((run-IsCoherent clock os w k).released closed) ∙ append-nil _)
          all)

-- The calls of `addCloser` in a row.
pub add_closers : List Closer → Scope → Scope
add_closers [] w = w
add_closers (c ∷ cs) w = add_closers cs (add_closer c w)

add_closer_open :
    (c : Closer) (w : Scope)
    → w.session.closed ≡ false
    → let t = add_closer c w in
      (t.session.closed ≡ false)
      × (t.closed_log ≡ w.closed_log)
      × (t.session.closers ≡ w.session.closers ++ (c ∷ []))
unfolding add_closer
add_closer_open c w h = ground arith

add_closers_open :
    (cs : List Closer) (w : Scope)
    → w.session.closed ≡ false
    → let t = add_closers cs w in
      (t.session.closed ≡ false)
      × (t.closed_log ≡ w.closed_log)
      × (t.session.closers ≡ w.session.closers ++ cs)
unfolding add_closers
add_closers_open [] w h = (h, refl, sym (append-nil _))
add_closers_open (c ∷ cs) w h =
    let (a, b, d) = add_closer_open c w h in
    let (a', b', d') = add_closers_open cs (add_closer c w) a in
    (a', b' ∙ b, d' ∙ ap (λ l. l ++ cs) d ∙ append_assoc w.session.closers (c ∷ []) cs)

-- `shutdown` closes the resources of an open session in the reverse of the order in which they were
-- registered.
pub shutdown-add_closers :
    (cs : List Closer) (w : Scope)
    → w.session.closed ≡ false
    → (shutdown (add_closers cs w)).closed_log ≡ w.closed_log ++ reverse (w.session.closers ++ cs)
unfolding shutdown
shutdown-add_closers cs w h = ground (arith, add_closers_open cs w h)
