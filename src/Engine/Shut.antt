-- ===== src/Engine/Shut.antt =====
-- engine.go: an engine that is closed.
use tailcat_gui.Prelude.{
  ℕ, true, List, [], ◌∷◌, ◌≡◌, refl, ap, ◌∙◌, none, Text, Text-discrete, Option-cases, inl, inr,
}
use tailcat_gui.Prelude.Dict.{Dict, lookup}
use tailcat_gui.Session.{Session, Scope, session_step, stop}
use tailcat_gui.Engine.Every.{on_session_other}
use tailcat_gui.Engine.{
  Engine, write_back, on_session, open_session, stop_each, close, poll, EngineOp, opens, calls,
  polls, closes, engine_step, engine_run,
}

-- An engine that is closed and has no session under this id.
abbrev pub ShutOut : Text → Engine → Type 0
ShutOut j e = (e.closed ≡ true) × (lookup j e.sessions ≡ none)

on_session_absent :
    (id : Text) (f : Scope → Scope) (e : Engine)
    → lookup id e.sessions ≡ none
    → on_session id f e ≡ e
unfolding on_session
on_session_absent id f e h = rw (h, on_session) refl

on_session_closed :
    (id : Text) (f : Scope → Scope) (e : Engine) → (on_session id f e).closed ≡ e.closed
unfolding on_session write_back
on_session_closed id f e = elim (Option-cases (lookup id e.sessions)) [
  | inl h ↦ rw (h, on_session) refl
  | inr (s, h) ↦ rw (h, on_session) refl
]

on_session-ShutOut :
    (j id : Text) (f : Scope → Scope) (e : Engine) → ShutOut j e → ShutOut j (on_session id f e)
on_session-ShutOut j id f e (c, h) = (
  on_session_closed id f e ∙ c,
  elim (Text-discrete id j) [
    | yes p ↦
        ap (λ (x : Engine). lookup j x.sessions)
          (on_session_absent id f e (ap (λ i. lookup i e.sessions) p ∙ h))
        ∙ h
    | no n ↦ on_session_other id j f e n ∙ h
  ],
)

module _ (clock : ℕ → ℕ) (enumerate : Dict Session → List (Text × Session)) where
  pub stop_each-ShutOut :
      (j : Text) (ss : List (Text × Session)) (e : Engine)
      → ShutOut j e
      → ShutOut j (stop_each clock ss e)
  unfolding stop_each
  stop_each-ShutOut j [] e h = h
  stop_each-ShutOut j ((id, s) ∷ ss) e h =
      stop_each-ShutOut j ss (on_session id (stop clock) e)
        (on_session-ShutOut j id (stop clock) e h)

  pub step-ShutOut :
      (j : Text) (o : EngineOp) (e : Engine)
      → ShutOut j e
      → ShutOut j (engine_step clock enumerate o e)
  unfolding engine_step open_session poll close
  step-ShutOut j (opens kind) e (c, h) = rw (c, open_session) (refl, h)
  step-ShutOut j (calls id o) e h = on_session-ShutOut j id (session_step clock o) e h
  step-ShutOut j polls e h = h
  step-ShutOut j closes e (c, h) =
      stop_each-ShutOut j (enumerate e.sessions) (record e { closed = true }) (refl, h)

  -- Whatever is done to a closed engine, it stays closed and gets no session.
  pub engine_run-ShutOut :
      (j : Text) (os : List EngineOp) (e : Engine)
      → ShutOut j e
      → ShutOut j (engine_run clock enumerate os e)
  unfolding engine_run
  engine_run-ShutOut j [] e h = h
  engine_run-ShutOut j (o ∷ os) e h =
      engine_run-ShutOut j os (engine_step clock enumerate o e) (step-ShutOut j o e h)
