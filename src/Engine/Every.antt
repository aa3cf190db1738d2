-- ===== src/Engine/Every.antt =====
-- engine.go: what a call on one session does to the map of sessions.
use tailcat_gui.Prelude.{
  ◌≡◌, ◌≢◌, ◌⊎◌, arith, some, if◌then◌else◌, Text, text_eq, Option-cases, inl, inr,
}
use mathlib.Core.Path.{subst₂}
use mathlib.Core.Option
use tailcat_gui.Prelude.Dict.{lookup, lookup-insert}
use tailcat_gui.Session.{Session, Scope}
use tailcat_gui.Engine.{Engine, on_session, write_back, scope}

-- A statement about each session of the map.
abbrev pub Every {ℓ} : (Text → Session → Type ℓ) → Engine → Type ℓ
Every P e = (id : Text) (s : Session) → lookup id e.sessions ≡ some s → P id s

-- The session under `id` is the only one that changes, and it becomes what the call makes of it.
pub lookup-on_session :
    (id j : Text) (f : Scope → Scope) (e : Engine)
    → lookup j (on_session id f e).sessions ≡ (
        if text_eq id j
        then Option.map (λ s. (f (scope s e)).session) (lookup id e.sessions)
        else lookup j e.sessions)
unfolding on_session write_back
lookup-on_session id j f e = elim (Option-cases (lookup id e.sessions)) [
  | inl h ↦ rw (h, on_session) (ground arith)
  | inr (s, h) ↦ rw (h, on_session) (lookup-insert id j _ e.sessions)
]

-- Where a session found after the call comes from.
pub on_session_origin :
    (id j : Text) (f : Scope → Scope) (e : Engine) (s : Session)
    → lookup j (on_session id f e).sessions ≡ some s
    → ((a : Session) × (id ≡ j) × (lookup id e.sessions ≡ some a) × ((f (scope a e)).session ≡ s))
      ⊎ ((id ≢ j) × (lookup j e.sessions ≡ some s))
on_session_origin id j f e s h = ground (arith, lookup-on_session id j f e)

-- What holds of each session and is kept by a call holds of each session after it.
pub on_session-Every {ℓ} :
    (P : Text → Session → Type ℓ) (id : Text) (f : Scope → Scope) (e : Engine)
    → ((s : Session) → lookup id e.sessions ≡ some s → P id s → P id (f (scope s e)).session)
    → Every P e
    → Every P (on_session id f e)
on_session-Every P id f e keep every j s h = elim (on_session_origin id j f e s h) [
  | inl (a, same, found, made) ↦ subst₂ P same made (keep a found (every id a found))
  | inr (_, found) ↦ every j s found
]

-- Such a call opens no session and closes no engine.
pub on_session_keeps :
    (id : Text) (f : Scope → Scope) (e : Engine)
    → let e' = on_session id f e in
      (e'.next_id ≡ e.next_id) × (e'.closed ≡ e.closed) × (e'.cancelled ≡ e.cancelled)
unfolding on_session write_back
on_session_keeps id f e = ground arith

pub on_session_found :
    (id : Text) (f : Scope → Scope) (e : Engine) {s : Session}
    → lookup id e.sessions ≡ some s
    → lookup id (on_session id f e).sessions ≡ some (f (scope s e)).session
on_session_found id f e h = ground (arith, lookup-on_session id id f e)

pub on_session_other :
    (id j : Text) (f : Scope → Scope) (e : Engine)
    → id ≢ j
    → lookup j (on_session id f e).sessions ≡ lookup j e.sessions
on_session_other id j f e h = ground (arith, lookup-on_session id j f e)
