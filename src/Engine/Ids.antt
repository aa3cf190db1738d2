-- ===== src/Engine/Ids.antt =====
-- engine.go: session ids are new, and the invariant of an engine.
use mathlib.Core.Path.{subst₂}
use tailcat_gui.Prelude.{
  ℕ, ◌+◌, ◌≤◌, true, List, [], ◌∷◌, ◌≡◌, ◌⊎◌, refl, ◌∙◌, arith, none, some, if◌then◌else◌, Text,
  false, Bool-cases, codes, text_eq, ◌==◌, Option-cases, inl, inr,
}
use tailcat_gui.Prelude.Decimal.{value_from, value-decimal}
use tailcat_gui.Prelude.Dict.{Dict, lookup, insert, lookup-insert}
use tailcat_gui.Errors.{ok, err, coded, internal, Result-cases}
use tailcat_gui.Session.Coherent.{step-IsCoherent, step-SameIdentity}
use tailcat_gui.Session.{
  Kind, server, forward, socks, send, recv, ssh, Session, SessionOp, new_session, session_step,
  stop, stops,
}
use tailcat_gui.Engine.Every.{Every, on_session-Every, on_session_keeps}
use tailcat_gui.Engine.{
  Engine, Config, new, session_id, scope, on_session, open_session, stop_each, close, poll,
  EngineOp, opens, calls, polls, closes, engine_step, engine_run,
}

-- What stands behind the first dash of an id.
after_dash : Text → Text
after_dash [] = []
after_dash (c ∷ cs) = if c == b'-' then cs else after_dash cs

-- The number in an id.
pub id_number : Text → ℕ
unfolding after_dash
id_number id = value_from 0 (after_dash id)

pub id_number-session_id : (kind : Kind) (n : ℕ) → id_number (session_id kind n) ≡ n
unfolding id_number session_id
id_number-session_id server n = value-decimal n
id_number-session_id forward n = value-decimal n
id_number-session_id socks n = value-decimal n
id_number-session_id send n = value-decimal n
id_number-session_id recv n = value-decimal n
id_number-session_id ssh n = value-decimal n

-- What the engine knows of the session that it holds under `id`.
pub record IsSound (limit : ℕ) (id : Text) (s : Session) : Type 0 where
  pub numbered : id_number id ≤ limit
  pub named : s.id ≡ id
  pub released : s.closed ≡ true → s.closers ≡ []
  pub cancelled : s.closed ≡ true → s.cancelled ≡ true

-- The invariant: so it is with each session.
abbrev pub IsWellFormed : Engine → Type 0
IsWellFormed e = Every (IsSound e.next_id) e

pub new-IsWellFormed : (cfg : Config) → IsWellFormed (new cfg)
unfolding new lookup
new-IsWellFormed cfg id s h = absurd (ground arith)

-- The id that `newSession` takes belongs to no session yet.
pub session_id-fresh :
    (kind : Kind) (e : Engine)
    → IsWellFormed e
    → lookup (session_id kind (e.next_id + 1)) e.sessions ≡ none
session_id-fresh kind e w =
    elim (Option-cases (lookup (session_id kind (e.next_id + 1)) e.sessions)) [
      | inl h ↦ h
      | inr (s, h) ↦
          absurd (omega (arith, (w _ s h).numbered, id_number-session_id kind (e.next_id + 1)))
    ]

open_session_lem :
    (clock : ℕ → ℕ) (kind : Kind) (e e' : Engine) {id : Text}
    → open_session clock kind e ≡ ok (id, e')
    → (e'.next_id ≡ e.next_id + 1)
      × (id ≡ session_id kind (e.next_id + 1))
      × (e'.sessions ≡ insert id (new_session (clock e.readings) id kind) e.sessions)
unfolding open_session
open_session_lem clock kind e e' h = ground arith

new_session-IsSound :
    (now : ℕ) (kind : Kind) (n : ℕ)
    → IsSound n (session_id kind n) (new_session now (session_id kind n) kind)
unfolding new_session
new_session-IsSound now kind n = record {
  numbered = omega (arith, id_number-session_id kind n);
  named = refl;
  released = λ _. refl;
  cancelled = λ h. cc;
}

IsSound-mono : {m n : ℕ} {id : Text} {s : Session} → m ≤ n → IsSound m id s → IsSound n id s
IsSound-mono h k = record {
  numbered = omega arith;
  named = k.named;
  released = k.released;
  cancelled = k.cancelled;
}

insert_origin :
    (id j : Text) (new s : Session) (m : Dict Session)
    → lookup j (insert id new m) ≡ some s
    → ((id ≡ j) × (new ≡ s)) ⊎ (lookup j m ≡ some s)
insert_origin id j new s m h = ground (arith, lookup-insert id j new m)

pub open_session-adds :
    (clock : ℕ → ℕ) (kind : Kind) (e e' : Engine) {id : Text}
    → IsWellFormed e
    → open_session clock kind e ≡ ok (id, e')
    → IsWellFormed e'
      × (lookup id e.sessions ≡ none)
      × ((j : Text)
          → lookup j e'.sessions ≡ (
              if text_eq id j
              then some (new_session (clock e.readings) id kind)
              else lookup j e.sessions))
open_session-adds clock kind e e' {id} w h =
    let (n, i, ss) = open_session_lem clock kind e e' h in
    (
      λ j s found. elim (insert_origin id j _ s e.sessions (rw ss at found)) [
        | inl (same, made) ↦ rw n (
            subst₂ (IsSound (e.next_id + 1)) same made
              (rw i (new_session-IsSound (clock e.readings) kind (e.next_id + 1))))
        | inr old ↦ IsSound-mono (omega arith) (w j s old)
      ],
      rw i (session_id-fresh kind e w),
      λ j. rw ss (lookup-insert id j _ e.sessions),
    )

open_session_opens :
    (clock : ℕ → ℕ) (kind : Kind) (e : Engine)
    → e.closed ≡ false
    → (x : Text × Engine) × (open_session clock kind e ≡ ok x)
unfolding open_session
open_session_opens clock kind e c = elim (Result-cases (open_session clock kind e)) [
  | inl opened ↦ opened
  | inr (x, h) ↦ absurd (ground arith)
]

-- On a well-formed engine, `newSession` is refused if the engine is closed. Else it succeeds with
-- an id that no session has, adds a new session under it, leaves the others as they are, and the
-- engine stays well-formed.
pub open_session_cases :
    (clock : ℕ → ℕ) (kind : Kind) (e : Engine)
    → IsWellFormed e
    → ((e.closed ≡ true)
        × (open_session clock kind e ≡ err (coded internal (codes "engine is closed") [])))
      ⊎ ((id : Text) × (e' : Engine) × (e.closed ≡ false)
          × (open_session clock kind e ≡ ok (id, e'))
          × IsWellFormed e'
          × (lookup id e.sessions ≡ none)
          × ((j : Text)
              → lookup j e'.sessions ≡ (
                  if text_eq id j
                  then some (new_session (clock e.readings) id kind)
                  else lookup j e.sessions)))
open_session_cases clock kind e w = elim (Bool-cases e.closed) [
  | inl c ↦ inl (c, unfold open_session in ground arith)
  | inr c ↦
      let ((id, e'), h) = open_session_opens clock kind e c in
      let (w', fresh, held) = open_session-adds clock kind e e' w h in
      inr (id, e', c, h, w', fresh, held)
]

module _ (clock : ℕ → ℕ) where
  call-IsSound :
      (n : ℕ) (id : Text) (o : SessionOp) (s : Session) (e : Engine)
      → IsSound n id s
      → IsSound n id (session_step clock o (scope s e)).session
  call-IsSound n id o s e k =
      let c =
        step-IsCoherent clock o (scope s e)
          (record { released = k.released; cancelled = k.cancelled }) in
      record {
        numbered = k.numbered;
        named = (step-SameIdentity clock o (scope s e)).0 ∙ k.named;
        released = c.released;
        cancelled = c.cancelled;
      }

  pub calls-IsWellFormed :
      (id : Text) (o : SessionOp) (e : Engine)
      → IsWellFormed e
      → IsWellFormed (on_session id (session_step clock o) e)
  calls-IsWellFormed id o e w = rw ((on_session_keeps id (session_step clock o) e).0) (
      on_session-Every (IsSound e.next_id) id (session_step clock o) e
        (λ s found k. call-IsSound e.next_id id o s e k) w)

  pub stop_each-IsWellFormed :
      (l : List (Text × Session)) (e : Engine) → IsWellFormed e → IsWellFormed (stop_each clock l e)
  unfolding stop_each session_step
  stop_each-IsWellFormed [] e w = w
  stop_each-IsWellFormed ((id, s) ∷ l) e w =
      stop_each-IsWellFormed l (on_session id (stop clock) e) (calls-IsWellFormed id stops e w)

module _ (clock : ℕ → ℕ) (enumerate : Dict Session → List (Text × Session)) where
  -- The invariant holds after each thing that goroutines and the UI do to an engine.
  pub engine_step-IsWellFormed :
      (o : EngineOp) (e : Engine) → IsWellFormed e → IsWellFormed (engine_step clock enumerate o e)
  unfolding engine_step close poll
  engine_step-IsWellFormed (opens kind) e w = elim (Result-cases (open_session clock kind e)) [
    | inl ((id, e'), h) ↦ rw (h, engine_step) (open_session-adds clock kind e e' w h).0
    | inr (x, h) ↦ rw (h, engine_step) w
  ]
  engine_step-IsWellFormed (calls id o) e w = calls-IsWellFormed clock id o e w
  engine_step-IsWellFormed polls e w = w
  engine_step-IsWellFormed closes e w =
      stop_each-IsWellFormed clock _ (record e { closed = true }) w

  -- Whatever is done to a well-formed engine, in whatever order, it stays well-formed: each
  -- session has the id under which it is kept, with a number that the engine has given, and is
  -- coherent.
  pub engine_run-IsWellFormed :
      (os : List EngineOp) (e : Engine)
      → IsWellFormed e
      → IsWellFormed (engine_run clock enumerate os e)
  unfolding engine_run
  engine_run-IsWellFormed [] e w = w
  engine_run-IsWellFormed (o ∷ os) e w =
      engine_run-IsWellFormed os (engine_step clock enumerate o e) (engine_step-IsWellFormed o e w)
