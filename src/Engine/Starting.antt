-- ===== src/Engine/Starting.antt =====
-- engine.go: sessions that are opened and then called in a row, as the commands of the UI do it.
use tailcat_gui.Prelude.{
  ℕ, true, false, List, [], ◌∷◌, ◌++◌, ◌≡◌, ◌≢◌, ◌⊎◌, refl, ap, ◌∙◌, arith, none, some, Text, codes,
  inl, inr,
}
use tailcat_gui.Prelude.Dict.{Dict, lookup}
use tailcat_gui.Errors.{Result, ok, err, coded, internal, Result-cases}
use tailcat_gui.Events.{Event}
use tailcat_gui.Session.{
  Kind, Session, Scope, SessionOp, marks_ready, adds_closer, sets_info, sets_state, fails,
  sets_token, logs, pushes, tailcat_logs, stops, shuts_down, new_session, session_step, session_run,
  mark_ready, add_closer, set_info, set_state, fail, set_token, logf, tailcat_logf, stop, shutdown,
  emit, error_event, token_event, log_event,
}
use tailcat_gui.Engine.Every.{on_session_found, on_session_other}
use tailcat_gui.Engine.Ids.{IsWellFormed, calls-IsWellFormed, open_session_cases, open_session-adds}
use tailcat_gui.Engine.{
  write_back, Engine, scope, on_session, open_session, EngineOp, opens, calls, engine_step,
  engine_run, polls, closes,
}

module _ (clock : ℕ → ℕ) where
  -- A session's methods, called in a row.
  unfoldable pub calls_all : Text → List SessionOp → Engine → Engine
  calls_all id [] e = e
  calls_all id (o ∷ os) e = calls_all id os (on_session id (session_step clock o) e)

  pub calls_all-IsWellFormed :
      (id : Text) (os : List SessionOp) (e : Engine)
      → IsWellFormed e
      → IsWellFormed (calls_all id os e)
  unfolding calls_all
  calls_all-IsWellFormed id [] e w = w
  calls_all-IsWellFormed id (o ∷ os) e w =
      calls_all-IsWellFormed id os (on_session id (session_step clock o) e)
        (calls-IsWellFormed clock id o e w)

  pub calls_all_other :
      (id j : Text) (os : List SessionOp) (e : Engine)
      → id ≢ j
      → lookup j (calls_all id os e).sessions ≡ lookup j e.sessions
  unfolding calls_all
  calls_all_other id j [] e h = refl
  calls_all_other id j (o ∷ os) e h =
      calls_all_other id j os (on_session id (session_step clock o) e) h
      ∙ on_session_other id j (session_step clock o) e h

  -- What was closed before makes no difference to the session, the queue and the clock.
  abbrev Alike : Scope → Scope → Type 0
  Alike w t = (w.session ≡ t.session) × (w.queue ≡ t.queue) × (w.readings ≡ t.readings)

  set_state-Alike :
      (st : _) (why : Text) (w t : Scope)
      → Alike w t
      → Alike (set_state clock st why w) (set_state clock st why t)
  unfolding set_state emit
  set_state-Alike st why w t h = ground arith

  shutdown-Alike : (w t : Scope) → Alike w t → Alike (shutdown w) (shutdown t)
  unfolding shutdown
  shutdown-Alike w t h = ground arith

  emit-Alike :
      (ev ev' : Event) (w t : Scope)
      → ev ≡ ev'
      → Alike w t
      → Alike (emit clock ev w) (emit clock ev' t)
  unfolding emit
  emit-Alike ev ev' w t h (s, q, r) = (s, rw (q, r, h) refl, rw (r, h) refl)

  fail-Alike : (why : Text) (w t : Scope) → Alike w t → Alike (fail clock why w) (fail clock why t)
  unfolding fail
  fail-Alike why w t h = shutdown-Alike _ _ (
      set_state-Alike _ why _ _ (
        emit-Alike _ _ w t (ap (λ (s : Session). error_event s (codes "session_failed") why) h.0)
          h))

  step-Alike :
      (o : SessionOp) (w t : Scope)
      → Alike w t
      → Alike (session_step clock o w) (session_step clock o t)
  unfolding session_step mark_ready add_closer set_info set_token logf tailcat_logf stop
  step-Alike marks_ready w t h = ground (arith, h)
  step-Alike (adds_closer c) w t h = ground arith
  step-Alike (sets_info k v) w t h = ground (arith, h)
  step-Alike (sets_state st why) w t h = set_state-Alike st why w t h
  step-Alike (fails why) w t h = fail-Alike why w t h
  step-Alike (sets_token token) w t (s, q, r) =
      emit-Alike _ _ _ _ (ap (λ (x : Session). token_event x token) s)
        (ap (λ (x : Session). record x { token = token }) s, q, r)
  step-Alike (logs msg) w t h =
      emit-Alike _ _ w t (ap (λ (x : Session). log_event x (codes "info") msg) h.0) h
  step-Alike (pushes ev) w t h = emit-Alike ev ev w t refl h
  step-Alike (tailcat_logs msg) w t h =
      emit-Alike _ _ w t (ap (λ (x : Session). log_event x (codes "debug") msg) h.0) h
  step-Alike stops w t h = shutdown-Alike _ _ (set_state-Alike _ [] w t h)
  step-Alike shuts_down w t h = shutdown-Alike w t h

  run-Alike :
      (os : List SessionOp) (w t : Scope)
      → Alike w t
      → (session_run clock os w).session ≡ (session_run clock os t).session
  unfolding session_run
  run-Alike [] w t h = h.0
  run-Alike (o ∷ os) w t h =
      run-Alike os (session_step clock o w) (session_step clock o t) (step-Alike o w t h)

  step-written :
      (id : Text) (o : SessionOp) (e : Engine) (s : Session)
      → lookup id e.sessions ≡ some s
      → let w = session_step clock o (scope s e) in
        Alike (scope (w.session) (on_session id (session_step clock o) e)) w
  unfolding on_session write_back
  step-written id o e s h = rw (h, on_session) (refl, refl, refl)

  -- The session that the map holds after such calls is what they make of it one after another.
  pub calls_all_found :
      (id : Text) (os : List SessionOp) (e : Engine) (s : Session)
      → lookup id e.sessions ≡ some s
      → lookup id (calls_all id os e).sessions ≡ some (session_run clock os (scope s e)).session
  unfolding calls_all session_run
  calls_all_found id [] e s h = h
  calls_all_found id (o ∷ os) e s h =
      let w = session_step clock o (scope s e) in
      let e' = on_session id (session_step clock o) e in
      calls_all_found id os e' (w.session) (on_session_found id (session_step clock o) e h)
      ∙ ap some (run-Alike os (scope (w.session) e') w (step-written id o e s h))

  -- A new session and the calls that follow its creation.
  unfoldable pub start_session : Kind → List SessionOp → Engine → Result Text × Engine
  start_session kind os e = elim (open_session clock kind e) [
    | err x ↦ (err x, e)
    | ok (id, e') ↦ (ok id, calls_all id os e')
  ]

  -- `e'` is `e` with a new session under `id`, after the calls `os` on it. `w` is where these begin.
  pub record HoldsNew (kind : Kind) (os : List SessionOp) (e : Engine) (id : Text) (e' : Engine)
      : Type 0 where
    pub w : Scope
    pub begun : w.session ≡ new_session (clock e.readings) id kind
    pub was_open : e.closed ≡ false
    pub fresh : lookup id e.sessions ≡ none
    pub held : lookup id e'.sessions ≡ some (session_run clock os w).session
    pub others : (j : Text) → id ≢ j → lookup j e'.sessions ≡ lookup j e.sessions
    pub well_formed : IsWellFormed e'

  -- A closed engine refuses and stays as it is; an open one holds a new session.
  abbrev pub Starts : Kind → List SessionOp → Engine → Result Text × Engine → Type 0
  Starts kind os e r =
      ((e.closed ≡ true) × (r ≡ (err (coded internal (codes "engine is closed") []), e)))
      ⊎ ((id : Text) × (e' : Engine) × (r ≡ (ok id, e')) × HoldsNew kind os e id e')

  pub open_session-HoldsNew :
      (kind : Kind) (os : List SessionOp) (e e' : Engine) (id : Text)
      → IsWellFormed e
      → e.closed ≡ false
      → open_session clock kind e ≡ ok (id, e')
      → HoldsNew kind os e id (calls_all id os e')
  open_session-HoldsNew kind os e e' id w c h =
      let (w', fresh, held) = open_session-adds clock kind e e' w h in
      let begun = new_session (clock e.readings) id kind in
      record {
        w = scope begun e';
        begun = refl;
        was_open = c;
        fresh = fresh;
        held = calls_all_found id os e' begun (held id ∙ ground arith);
        others = λ j n. calls_all_other id j os e' n ∙ held j ∙ ground arith;
        well_formed = calls_all-IsWellFormed id os e' w';
      }

  pub start_session-Starts :
      (kind : Kind) (os : List SessionOp) (e : Engine)
      → IsWellFormed e
      → Starts kind os e (start_session kind os e)
  unfolding start_session
  start_session-Starts kind os e w = elim (open_session_cases clock kind e w) [
    | inl (c, h) ↦ inl (c, rw (h, start_session) refl)
    | inr (id, e', c, h, _, _, _) ↦ inr (
      id,
      calls_all id os e',
      rw (h, start_session) refl,
      open_session-HoldsNew kind os e e' id w c h,
    )
  ]

-- Steps that open a session or call a method of one: the engine is neither closed nor polled.
abbrev pub OnSessions : List EngineOp → Type 0
OnSessions [] = Unit
OnSessions (opens _ ∷ os) = OnSessions os
OnSessions (calls _ _ ∷ os) = OnSessions os
OnSessions (polls ∷ os) = ⊥
OnSessions (closes ∷ os) = ⊥

OnSessions-append : (os ps : List EngineOp) → OnSessions os → OnSessions ps → OnSessions (os ++ ps)
OnSessions-append [] ps a b = b
OnSessions-append (opens _ ∷ os) ps a b = OnSessions-append os ps a b
OnSessions-append (calls _ _ ∷ os) ps a b = OnSessions-append os ps a b
OnSessions-append (polls ∷ os) ps a b = absurd a
OnSessions-append (closes ∷ os) ps a b = absurd a

module _ (clock : ℕ → ℕ) (enumerate : Dict Session → List (Text × Session)) where
  -- `e'` is `e` after sessions were opened and methods of sessions called, and nothing else.
  abbrev pub Runs : Engine → Engine → Type 0
  Runs e e' = (os : List EngineOp) × OnSessions os × (engine_run clock enumerate os e ≡ e')

  pub Runs-refl : (e : Engine) → Runs e e
  unfolding engine_run
  Runs-refl e = ([], tt, refl)

  engine_run-append :
      (os ps : List EngineOp) (e : Engine)
      → engine_run clock enumerate (os ++ ps) e
        ≡ engine_run clock enumerate ps (engine_run clock enumerate os e)
  unfolding engine_run
  engine_run-append [] ps e = refl
  engine_run-append (o ∷ os) ps e = engine_run-append os ps (engine_step clock enumerate o e)

  pub Runs-trans : (e f g : Engine) → Runs e f → Runs f g → Runs e g
  Runs-trans e f g (os, a, h) (ps, b, k) =
      (os ++ ps, OnSessions-append os ps a b, engine_run-append os ps e ∙ rw h k)

  pub calls_all-Runs :
      (id : Text) (os : List SessionOp) (e : Engine) → Runs e (calls_all clock id os e)
  unfolding calls_all engine_run engine_step
  calls_all-Runs id [] e = ([], tt, refl)
  calls_all-Runs id (o ∷ os) e =
      let (ps, a, h) = calls_all-Runs id os (on_session id (session_step clock o) e) in
      (calls id o ∷ ps, a, h)

  pub open_session-Runs :
      (kind : Kind) (e e' : Engine) {id : Text}
      → open_session clock kind e ≡ ok (id, e')
      → Runs e e'
  unfolding engine_run engine_step
  open_session-Runs kind e e' h = (opens kind ∷ [], tt, rw (h, engine_step) refl)

  pub start_session-Runs :
      (kind : Kind) (os : List SessionOp) (e : Engine) → Runs e (start_session clock kind os e).1
  unfolding start_session
  start_session-Runs kind os e = elim (Result-cases (open_session clock kind e)) [
    | inr (x, h) ↦ rw (h, start_session) (Runs-refl e)
    | inl ((id, e'), h) ↦
        rw (h, start_session)
          (Runs-trans e e' (calls_all clock id os e') (open_session-Runs kind e e' h)
            (calls_all-Runs id os e'))
  ]
