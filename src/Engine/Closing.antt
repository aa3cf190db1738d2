-- ===== src/Engine/Closing.antt =====
-- engine.go: stopping one session and closing the engine.
use mathlib.Core.List.{Mem, mem-cons, not-mem-nil}
use mathlib.Core.List.Perm
use mathlib.Core.Logic.Or
use mathlib.Core.Bool.{Bool-set}
use tailcat_gui.Prelude.{
  ℕ, Bool, true, false, ◌||◌, List, [], ◌∷◌, ◌≡◌, ◌≢◌, ◌⊎◌, refl, ◌∙◌, ap, arith, none, some,
  if◌then◌else◌, Text, text_eq, Option-cases, inl, inr, subst, codes, Perm, Text-discrete,
}
use tailcat_gui.Prelude.Dict.{Dict, lookup}
use tailcat_gui.Errors.{ok, err, coded, not_found, internal}
use tailcat_gui.Events.{text}
use tailcat_gui.Session.Lifecycle.{stop-IsEnded, IsEnded-terminal}
use tailcat_gui.Session.{Kind, Session, stop, stopped, stops, session_step, is_terminal}
use tailcat_gui.Engine.Every.{
  Every, on_session_origin, on_session_found, on_session_other, on_session_keeps,
}
use tailcat_gui.Engine.Ids.{IsSound, IsWellFormed, calls-IsWellFormed}
use tailcat_gui.Engine.{
  Engine, scope, session, on_session, stop_session, stop_each, close, open_session,
}

-- Nothing of the session is left to do or to release.
pub record HasEnded (s : Session) : Type 0 where
  pub terminal : is_terminal s.state ≡ true
  pub closed : s.closed ≡ true
  pub cancelled : s.cancelled ≡ true
  pub released : s.closers ≡ []

-- What Go says of `range` over a map: each entry is visited once, in some order.
abbrev pub Enumerates : (Dict Session → List (Text × Session)) → Type 0
Enumerates enumerate = (m : Dict Session) → Perm (enumerate m) m

module _ (clock : ℕ → ℕ) where
  stop-HasEnded :
      (n : ℕ) (id : Text) (s : Session) (e : Engine)
      → IsSound n id s
      → HasEnded (stop clock (scope s e)).session
  stop-HasEnded n id s e k =
      let x =
        stop-IsEnded clock (scope s e)
          (record { released = k.released; cancelled = k.cancelled }) in
      record {
        terminal = IsEnded-terminal clock stopped [] (scope s e) _ refl x;
        closed = x.closed;
        cancelled = x.cancelled;
        released = x.released;
      }

  -- On a well-formed engine, `stopSession` refuses an id that no session has, and changes nothing.
  -- Else the session ends, as stopped if it was active, and the other sessions are left as they
  -- are.
  pub stop_session_cases :
      (id : Text) (e : Engine)
      → IsWellFormed e
      → ((lookup id e.sessions ≡ none)
          × (stop_session clock id e
              ≡ err (coded not_found (codes "no session %q") (text id ∷ []))))
        ⊎ ((s t : Session) × (e' : Engine) × (lookup id e.sessions ≡ some s)
            × (stop_session clock id e ≡ ok e')
            × (lookup id e'.sessions ≡ some t)
            × HasEnded t
            × (t.state ≡ (if is_terminal s.state then s.state else stopped))
            × ((j : Text) → id ≢ j → lookup j e'.sessions ≡ lookup j e.sessions))
  unfolding stop_session session
  stop_session_cases id e w = elim (Option-cases (lookup id e.sessions)) [
    | inl h ↦ inl (h, rw (h, session, stop_session) refl)
    | inr (s, h) ↦ inr (
      s,
      (stop clock (scope s e)).session,
      on_session id (stop clock) e,
      h,
      rw (h, session, stop_session) refl,
      on_session_found id (stop clock) e h,
      stop-HasEnded e.next_id id s e (w id s h),
      (stop-IsEnded clock (scope s e)
          (record { released = (w id s h).released; cancelled = (w id s h).cancelled })).state,
      λ j other. on_session_other id j (stop clock) e other,
    )
  ]

has_key : Text → List (Text × Session) → Bool
has_key id [] = false
has_key id ((j, s) ∷ l) = text_eq j id || has_key id l

Mem-has_key :
    (id : Text) (s : Session) (l : List (Text × Session)) → Mem (id, s) l → has_key id l ≡ true
unfolding has_key
Mem-has_key id s [] m = absurd (not-mem-nil m)
Mem-has_key id s ((j, t) ∷ l) m =
    Or.elim (Bool-set _ _) (mem-cons.0 m) (λ e. ground (arith, ap (λ (p : Text × Session). p.0) e))
      (λ m'. ground (arith, Mem-has_key id s l m'))

lookup-Mem : (id : Text) (s : Session) (m : Dict Session) → lookup id m ≡ some s → Mem (id, s) m
unfolding lookup
lookup-Mem id s [] h = cc
lookup-Mem id s ((j, t) ∷ m) h = elim (Text-discrete j id) [
  | yes p ↦ let e : ◌≡◌ {A = Text × Session} (id, s) (j, t) = ground arith in mem-cons.1 (Or.inl e)
  | no n ↦ mem-cons.1 (Or.inr (lookup-Mem id s m (ground arith)))
]

Enumerates-has_key :
    (enumerate : Dict Session → List (Text × Session)) (id : Text) (s : Session) (m : Dict Session)
    → Enumerates enumerate
    → lookup id m ≡ some s
    → has_key id (enumerate m) ≡ true
Enumerates-has_key enumerate id s m all h =
    Mem-has_key id s (enumerate m) (Perm.subset (Perm.symm (all m)) _ (lookup-Mem id s m h))

-- The flags of an engine that a loop of stops leaves alone.
stop_each_keeps :
    (clock : ℕ → ℕ) (l : List (Text × Session)) (e : Engine)
    → ((stop_each clock l e).next_id ≡ e.next_id) × ((stop_each clock l e).closed ≡ e.closed)
unfolding stop_each
stop_each_keeps clock [] e = (refl, refl)
stop_each_keeps clock ((id, s) ∷ l) e =
    let (n, c) = stop_each_keeps clock l (on_session id (stop clock) e) in
    let (n', c', _) = on_session_keeps id (stop clock) e in (n ∙ n', c ∙ c')

module _ (clock : ℕ → ℕ) where
  -- Each session has ended or is still to be visited.
  abbrev Remaining : List (Text × Session) → Engine → Type 0
  Remaining l = Every (λ id s. (has_key id l ≡ true) ⊎ HasEnded s)

  stop_one :
      (id : Text) (t : Session) (l : List (Text × Session)) (e : Engine)
      → IsWellFormed e
      → Remaining ((id, t) ∷ l) e
      → Remaining l (on_session id (stop clock) e)
  unfolding has_key
  stop_one id t l e w every j s h = elim (on_session_origin id j (stop clock) e s h) [
    | inl (a, same, found, made) ↦
        inr (subst HasEnded made (stop-HasEnded clock e.next_id id a e (w id a found)))
    | inr (other, found) ↦ elim (every j s found) [
      | inl next ↦ inl (ground arith)
      | inr ended ↦ inr ended
    ]
  ]

  stop_each_ends :
      (l : List (Text × Session)) (e : Engine)
      → IsWellFormed e
      → Remaining l e
      → Every (λ _ s. HasEnded s) (stop_each clock l e)
  unfolding stop_each has_key session_step
  stop_each_ends [] e w every = λ id s h. elim (every id s h) [ inl bad ↦ absurd (cc) | inr x ↦ x ]
  stop_each_ends ((id, t) ∷ l) e w every =
      stop_each_ends l (on_session id (stop clock) e) (calls-IsWellFormed clock id stops e w)
        (stop_one id t l e w every)

  -- On a well-formed engine, in whatever order Go goes through the map, `Close` ends every
  -- session, cancels the engine's context, and from then on `newSession` is refused.
  pub close-ends :
      (enumerate : Dict Session → List (Text × Session)) (e : Engine) (kind : Kind)
      → Enumerates enumerate
      → IsWellFormed e
      → let e' = close clock enumerate e in
        Every (λ _ s. HasEnded s) e'
        × (e'.cancelled ≡ true)
        × (open_session clock kind e' ≡ err (coded internal (codes "engine is closed") []))
  unfolding close open_session
  close-ends enumerate e kind all w = (
    stop_each_ends (enumerate e.sessions) (record e { closed = true }) w
        (λ id s h. inl (Enumerates-has_key enumerate id s e.sessions all h)),
    refl,
    rw ((stop_each_keeps clock (enumerate e.sessions) (record e { closed = true })).1) refl,
  )
