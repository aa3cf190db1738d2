-- ===== src/Session/Report.antt =====
-- session.go: what a session tells the UI about itself.
use tailcat_gui.Prelude.{
  ℕ, Bool, true, false, ◌||◌, List, [], ◌∷◌, ◌≡◌, refl, ap, arith, none, some, Text, codes,
  Text-discrete, ℤ, text_eq, if◌then◌else◌, Bool-cases, subst, inl, inr, ◌⊎◌,
}
use tailcat_gui.Prelude.Dict.{Dict, lookup, insert, merge, lookup-insert, lookup-merge_absent}
use tailcat_gui.Events.{Value, text, int, Event, push}
use tailcat_gui.Session.{
  Session, Scope, State, SessionOp, sets_info, marks_ready, adds_closer, sets_state, fails,
  sets_token, logs, pushes, tailcat_logs, stops, shuts_down, state_text, kind_text, state_event,
  snapshot, emit, set_state, is_terminal, session_step, session_run, set_info, shutdown, fail, stop,
  mark_ready, add_closer, set_token, logf, tailcat_logf,
}

-- The keys that the session itself reports.
abbrev pub reserved : List Text
reserved =
    codes "type"
    ∷ codes "session_id"
    ∷ codes "kind"
    ∷ codes "state"
    ∷ codes "detail"
    ∷ codes "created_ms"
    ∷ codes "token"
    ∷ codes "ts"
    ∷ []

abbrev pub contains : List Text → Text → Bool
contains [] k = false
contains (x ∷ xs) k = text_eq x k || contains xs k

-- No extra field of the session is spelled like one of those.
abbrev pub Avoids : Dict Value → Type 0
Avoids info = (k : Text) → contains reserved k ≡ true → lookup k info ≡ none

-- Where no extra field is spelled like a field of the session, the state event says the session's
-- id, kind, state and detail.
pub state_event-tells :
    (s : Session)
    → Avoids s.info
    → let e = state_event s in
      (lookup (codes "session_id") e ≡ some (text s.id))
      × (lookup (codes "kind") e ≡ some (text (kind_text s.kind)))
      × (lookup (codes "state") e ≡ some (text (state_text s.state)))
      × (lookup (codes "detail") e ≡ some (text s.detail))
unfolding state_event lookup Text-discrete
state_event-tells s a = (
  lookup-merge_absent _ _ s.info (a _ refl),
  lookup-merge_absent _ _ s.info (a _ refl),
  lookup-merge_absent _ _ s.info (a _ refl),
  lookup-merge_absent _ _ s.info (a _ refl),
)

-- A key that the extra fields lack is reported as the session has it.
kept :
    (k : Text) (base info : Event)
    → Avoids info
    → contains reserved k ≡ true
    → lookup k (merge base info) ≡ lookup k base
kept k base info a h = lookup-merge_absent k base info (a k h)

-- If no extra field of the session has a reserved key, its snapshot says the session's id, kind,
-- state, detail and time of creation and, where there is one, its token.
pub snapshot-tells :
    (s : Session)
    → Avoids s.info
    → let e = snapshot s in
      (lookup (codes "session_id") e ≡ some (text s.id))
      × (lookup (codes "kind") e ≡ some (text (kind_text s.kind)))
      × (lookup (codes "state") e ≡ some (text (state_text s.state)))
      × (lookup (codes "detail") e ≡ some (text s.detail))
      × (lookup (codes "created_ms") e ≡ some (int (ℤ.pos s.created)))
      × (lookup (codes "token") e ≡ (if text_eq s.token [] then none else some (text s.token)))
unfolding snapshot lookup Text-discrete insert
snapshot-tells s a = elim (Bool-cases (text_eq s.token [])) [
  | inl e ↦ rw e (
    kept _ _ s.info a refl,
    kept _ _ s.info a refl,
    kept _ _ s.info a refl,
    kept _ _ s.info a refl,
    kept _ _ s.info a refl,
    kept _ _ s.info a refl,
  )
  | inr e ↦ rw e (
    kept _ _ s.info a refl,
    kept _ _ s.info a refl,
    kept _ _ s.info a refl,
    kept _ _ s.info a refl,
    kept _ _ s.info a refl,
    kept _ _ s.info a refl,
  )
]

-- A history of calls that sets no reserved key.
abbrev pub Proper : List SessionOp → Type 0
Proper [] = Unit
Proper (sets_info k v ∷ os) = (contains reserved k ≡ false) × Proper os
Proper (_ ∷ os) = Proper os

pub insert-Avoids :
    (k : Text) (v : Value) (info : Dict Value)
    → contains reserved k ≡ false
    → Avoids info
    → Avoids (insert k v info)
insert-Avoids k v info free a j h = rw lookup-insert (ground (arith, a j h))

module _ (clock : ℕ → ℕ) where
  set_state-info :
      (st : State) (why : Text) (w : Scope)
      → (set_state clock st why w).session.info ≡ w.session.info
  unfolding set_state emit
  set_state-info st why w = ground arith

  shutdown-info : (w : Scope) → (shutdown w).session.info ≡ w.session.info
  unfolding shutdown
  shutdown-info w = ground arith

  step-Avoids :
      (o : SessionOp) (w : Scope)
      → Proper (o ∷ [])
      → Avoids w.session.info
      → Avoids (session_step clock o w).session.info
  unfolding session_step mark_ready add_closer set_info set_token logf tailcat_logf stop fail emit
  step-Avoids (sets_info k v) w p a = insert-Avoids k v w.session.info p.0 a
  step-Avoids marks_ready w p a = a
  step-Avoids (adds_closer c) w p a = subst Avoids (ground arith) a
  step-Avoids (sets_state st why) w p a = rw (set_state-info st why w) a
  step-Avoids (fails why) w p a = rw (shutdown-info _, set_state-info _ why _) a
  step-Avoids (sets_token token) w p a = a
  step-Avoids (logs msg) w p a = a
  step-Avoids (pushes ev) w p a = a
  step-Avoids (tailcat_logs msg) w p a = a
  step-Avoids stops w p a = rw (shutdown-info _, set_state-info _ _ w) a
  step-Avoids shuts_down w p a = rw (shutdown-info w) a

  Proper-head :
      (o : SessionOp) (os : List SessionOp) → Proper (o ∷ os) → Proper (o ∷ []) × Proper os
  Proper-head (sets_info k v) os p = ((p.0, tt), p.1)
  Proper-head marks_ready os p = (tt, p)
  Proper-head _ os p = (tt, p)

  -- If no extra field has a reserved key, none has one after a history of calls that sets no reserved key.
  pub run-Avoids :
      (os : List SessionOp) (w : Scope)
      → Proper os
      → Avoids w.session.info
      → Avoids (session_run clock os w).session.info
  unfolding session_run
  run-Avoids [] w p a = a
  run-Avoids (o ∷ os) w p a =
      let (h, t) = Proper-head o os p in
      run-Avoids os (session_step clock o w) t (step-Avoids o w h a)

  -- The session that `setState` stores.
  abbrev moved : State → Text → Scope → Session
  moved st why w = record (w.session) { state = st; detail = why }

  set_state_changes :
      (st : State) (why : Text) (w : Scope)
      → let s = moved st why w in
        ((set_state clock st why w ≡ w)
          × ((is_terminal w.session.state ≡ true)
              ⊎ ((w.session.state ≡ st) × (w.session.detail ≡ why))))
        ⊎ ((is_terminal w.session.state ≡ false)
            × (set_state clock st why w ≡ emit clock (state_event s) (record w { session = s })))
  unfolding set_state
  set_state_changes st why w = ground arith

  -- If no extra field of the session has a reserved key, a call of `setState` does nothing where
  -- the session has ended or has that state and text already. Else it stores the state and the
  -- text and pushes one event, which says both.
  set_state-reports :
      (st : State) (why : Text) (w : Scope)
      → Avoids w.session.info
      → let t = set_state clock st why w in
        ((t ≡ w)
          × ((is_terminal w.session.state ≡ true)
              ⊎ ((w.session.state ≡ st) × (w.session.detail ≡ why))))
        ⊎ ((e : Event) × (is_terminal w.session.state ≡ false)
            × (t.session ≡ record (w.session) { state = st; detail = why })
            × (t.queue ≡ push (clock w.readings) e w.queue)
            × (lookup (codes "state") e ≡ some (text (state_text st)))
            × (lookup (codes "detail") e ≡ some (text why)))
  unfolding emit
  set_state-reports st why w a = elim (set_state_changes st why w) [
    | inl same ↦ inl same
    | inr (active, changed) ↦
        let (_, _, state_told, detail_told) = state_event-tells (moved st why w) a in
        inr (
          state_event (moved st why w),
          active,
          ap (λ t. t.session) changed,
          ap (λ t. t.queue) changed,
          state_told,
          detail_told,
        )
  ]
