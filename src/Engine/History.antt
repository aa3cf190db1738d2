-- ===== src/Engine/History.antt =====
-- engine.go: no session is lost or replaced, and one that has ended stays as it ended.
use tailcat_gui.Prelude.{
  ℕ, true, List, [], ◌∷◌, ◌≡◌, refl, ◌∙◌, arith, some, Text, inl, inr, Text-discrete,
}
use tailcat_gui.Prelude.Dict.{Dict, lookup}
use tailcat_gui.Errors.{Result-cases}
use tailcat_gui.Session.Coherent.{step-SameIdentity}
use tailcat_gui.Session.Lifecycle.{step-Frozen}
use tailcat_gui.Session.{Session, SessionOp, stops, session_step, is_terminal, stop}
use tailcat_gui.Engine.Every.{on_session_found, on_session_other}
use tailcat_gui.Engine.Ids.{IsWellFormed, open_session-adds, engine_step-IsWellFormed}
use tailcat_gui.Engine.{
  Engine, scope, on_session, open_session, stop_each, close, poll, EngineOp, opens, calls, polls,
  closes, engine_step, engine_run,
}

-- `t` is the session `s` later on.
pub record Continues (s t : Session) : Type 0 where
  pub id : t.id ≡ s.id
  pub kind : t.kind ≡ s.kind
  pub created : t.created ≡ s.created
  pub final : is_terminal s.state ≡ true → (t.state ≡ s.state) × (t.detail ≡ s.detail)

Continues-refl : (s : Session) → Continues s s
Continues-refl s = record { id = refl; kind = refl; created = refl; final = λ _. (refl, refl) }

Continues-trans : {s t u : Session} → Continues s t → Continues t u → Continues s u
Continues-trans c d = record {
  id = d.id ∙ c.id;
  kind = d.kind ∙ c.kind;
  created = d.created ∙ c.created;
  final = λ h.
      let (st, why) = c.final h in let (st', why') = d.final (rw st h) in (st' ∙ st, why' ∙ why);
}

-- The map holds, under `id`, the session `s` or what became of it.
abbrev pub Holds : Text → Session → Engine → Type 0
Holds id s e = (t : Session) × (lookup id e.sessions ≡ some t) × Continues s t

module _ (clock : ℕ → ℕ) where
  step-Continues :
      (o : SessionOp) (s : Session) (e : Engine)
      → Continues s (session_step clock o (scope s e)).session
  step-Continues o s e =
      let (i, k, c) = step-SameIdentity clock o (scope s e) in
      record { id = i; kind = k; created = c; final = step-Frozen clock o (scope s e) }

  calls-Holds :
      (j : Text) (o : SessionOp) (id : Text) (s : Session) (e : Engine)
      → Holds id s e
      → Holds id s (on_session j (session_step clock o) e)
  calls-Holds j o id s e (t, found, c) = elim (Text-discrete j id) [
    | yes same ↦ (
      (session_step clock o (scope t e)).session,
      rw same (on_session_found id (session_step clock o) e found),
      Continues-trans c (step-Continues o t e),
    )
    | no other ↦ (t, on_session_other j id (session_step clock o) e other ∙ found, c)
  ]

  stop_each-Holds :
      (l : List (Text × Session)) (id : Text) (s : Session) (e : Engine)
      → Holds id s e
      → Holds id s (stop_each clock l e)
  unfolding stop_each session_step
  stop_each-Holds [] id s e h = h
  stop_each-Holds ((j, _) ∷ l) id s e h =
      stop_each-Holds l id s (on_session j (stop clock) e) (calls-Holds j stops id s e h)

module _ (clock : ℕ → ℕ) (enumerate : Dict Session → List (Text × Session)) where
  step-Holds :
      (o : EngineOp) (id : Text) (s : Session) (e : Engine)
      → IsWellFormed e
      → Holds id s e
      → Holds id s (engine_step clock enumerate o e)
  unfolding engine_step close poll
  step-Holds (opens kind) id s e w (t, found, c) = elim (Result-cases (open_session clock kind e)) [
    | inl ((new, e'), h) ↦
        let (_, fresh, old) = open_session-adds clock kind e e' w h in
        rw (h, engine_step) (t, old id ∙ ground arith, c)
    | inr (x, h) ↦ rw (h, engine_step) (t, found, c)
  ]
  step-Holds (calls j o) id s e w h = calls-Holds clock j o id s e h
  step-Holds polls id s e w h = h
  step-Holds closes id s e w h = stop_each-Holds clock _ id s _ h

  run_from-Holds :
      (os : List EngineOp) (id : Text) (s : Session) (e : Engine)
      → IsWellFormed e
      → Holds id s e
      → Holds id s (engine_run clock enumerate os e)
  unfolding engine_run
  run_from-Holds [] id s e w h = h
  run_from-Holds (o ∷ os) id s e w h =
      run_from-Holds os id s (engine_step clock enumerate o e)
        (engine_step-IsWellFormed clock enumerate o e w) (step-Holds o id s e w h)

  -- Whatever is done to a well-formed engine, in whatever order, a session that it holds stays in
  -- the map under its id, as the session that it is, and once it has ended, its state and detail
  -- stay as they are.
  pub run-Holds :
      (os : List EngineOp) (id : Text) (s : Session) (e : Engine)
      → IsWellFormed e
      → lookup id e.sessions ≡ some s
      → Holds id s (engine_run clock enumerate os e)
  run-Holds os id s e w h = run_from-Holds os id s e w (s, h, Continues-refl s)
