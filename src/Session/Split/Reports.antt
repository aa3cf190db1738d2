-- ===== src/Session/Split/Reports.antt =====
-- session.go: the events that a session pushes, in whatever order the goroutines run.
use mathlib.Core.List.{perm_middle}
use mathlib.Core.List.Perm
use tailcat_gui.Prelude.{
  ℕ, false, List, [], ◌∷◌, ◌++◌, ◌≡◌, refl, ap, subst, arith, map, Perm, Option, none, some, Text,
  codes, append-nil, append_assoc, inl, inr, ◌⊎◌,
}
use tailcat_gui.Prelude.Dict.{lookup}
use tailcat_gui.Events.{Value, text, Event}
use tailcat_gui.Events.Delivery.{push_all}
use tailcat_gui.Session.{Session, State, state_text, state_event, emit, mark_ready, set_info}
use tailcat_gui.Session.Report.{Avoids, contains, reserved, insert-Avoids, state_event-tells}
use tailcat_gui.Prelude.Pick.{pick, Picks, pick-Picks}
use tailcat_gui.Session.Split.{
  Split, Stretch, stores, sends, emits, adds, cancels, takes, closes, keeps_token, keeps_info,
  readies, store, hold, take_closers, close_nth, send_nth, split_step, split_run,
}
use tailcat_gui.Session.Split.Changes.{Stage, stage, next_stage, changes, emitted, held}

-- No stretch sets an extra field with a reserved key.
abbrev pub Unreserved : List Stretch → Type 0
Unreserved [] = Unit
Unreserved (keeps_info k v ∷ os) = (contains reserved k ≡ false) × Unreserved os
Unreserved (_ ∷ os) = Unreserved os

-- What a reader of an event sees of a session's state, and what it is to see of a change.
abbrev pub seen : Event → Option Value × Option Value × Option Value
seen e = (lookup (codes "session_id") e, lookup (codes "state") e, lookup (codes "detail") e)

abbrev pub told : Text → Stage → Option Value × Option Value × Option Value
told id (st, why) = (some (text id), some (text (state_text st)), some (text why))

-- The events that are pushed between `p` and `q`: those that waited or were made by the stretches, and of the latter
-- one for each change of the state.
pub record Reported (os : List Stretch) (p q : Split) : Type 0 where
  pub sent : List (ℕ × Event)
  pub reports : List Event
  pub queued : q.scope.queue ≡ push_all sent p.scope.queue
  pub every : Perm (map (λ x. x.1) sent ++ q.unsent) (p.unsent ++ (reports ++ emitted os))
  pub tells : map seen reports ≡ map (told p.scope.session.id) (changes (stage p) os)

-- The session that `setState` stores.
abbrev moved : State → Text → Split → Session
moved st why p = record (p.scope.session) { state = st; detail = why }

abbrev stored : State → Text → Split → Split
stored st why p = record p {
  scope = record (p.scope) { session = moved st why p };
  unsent = p.unsent ++ (state_event (moved st why p) ∷ []);
}

store_cases :
    (st : State) (why : Text) (p : Split)
    → ((store st why p ≡ p) × (next_stage (stage p) (stores st why) ≡ []))
      ⊎ ((store st why p ≡ stored st why p)
          × (next_stage (stage p) (stores st why) ≡ (st, why) ∷ []))
unfolding store
store_cases st why p = ground arith

module _ (clock : ℕ → ℕ) where
  step-info :
      (o : Stretch) (p : Split)
      → Unreserved (o ∷ [])
      → Avoids p.scope.session.info
      → Avoids (split_step clock o p).scope.session.info
  unfolding split_step mark_ready set_info emit
  step-info (keeps_info k v) p u a = insert-Avoids k v p.scope.session.info u.0 a
  step-info (adds c) p u a = subst Avoids (unfold hold in ground arith) a
  step-info (stores st why) p u a = subst Avoids (unfold store in ground arith) a
  step-info (sends n) p u a = subst Avoids (unfold send_nth emit in ground arith) a
  step-info (emits ev) p u a = a
  step-info cancels p u a = a
  step-info takes p u a = subst Avoids (unfold take_closers in ground arith) a
  step-info (closes n) p u a = subst Avoids (unfold close_nth in ground arith) a
  step-info (keeps_token token) p u a = a
  step-info readies p u a = a

  Unreserved-head :
      (o : Stretch) (os : List Stretch) → Unreserved (o ∷ os) → Unreserved (o ∷ []) × Unreserved os
  Unreserved-head (keeps_info k v) os u = ((u.0, tt), u.1)
  Unreserved-head o os u = ground arith

  -- A stretch that neither pushes an event nor makes one.
  unreported :
      (o : Stretch) (os : List Stretch) (p p' q : Split)
      → next_stage (stage p) o ≡ []
      → emitted (o ∷ os) ≡ emitted os
      → stage p' ≡ stage p
      → p'.scope.session.id ≡ p.scope.session.id
      → p'.scope.queue ≡ p.scope.queue
      → p'.unsent ≡ p.unsent
      → Reported os p' q
      → Reported (o ∷ os) p q
  unreported o os p p' q c e s i w u r = record {
    sent = r.sent;
    reports = r.reports;
    queued = rw (← w) r.queued;
    every = rw (e, ← u) r.every;
    tells = rw (c, ← s, ← i) r.tells;
  }

  stored-Reported :
      (st : State) (why : Text) (os : List Stretch) (p q : Split)
      → Avoids p.scope.session.info
      → next_stage (stage p) (stores st why) ≡ (st, why) ∷ []
      → Reported os (stored st why p) q
      → Reported (stores st why ∷ os) p q
  stored-Reported st why os p q a c r =
      let s = moved st why p in
      let (id, _, state, detail) = state_event-tells s a in
      record {
        sent = r.sent;
        reports = state_event s ∷ r.reports;
        queued = r.queued;
        every = rw (← append_assoc p.unsent (state_event s ∷ []) (r.reports ++ emitted os)) r.every;
        tells = rw (c, id, state, detail) (ap (◌∷◌ (told p.scope.session.id (st, why))) r.tells);
      }

  abbrev pushed : Event → List Event → Split → Split
  pushed ev rest p = record p { scope = emit clock ev p.scope; unsent = rest }

  send_cases :
      (n : ℕ) (p : Split)
      → (send_nth clock n p ≡ p)
        ⊎ ((ev : Event) × (rest : List Event) × (send_nth clock n p ≡ pushed ev rest p)
            × Perm p.unsent (ev ∷ rest))
  unfolding send_nth
  send_cases n p = go (pick n p.unsent) (pick-Picks n p.unsent)
    where
      sending : Option (Event × List Event) → Split
      sending o = elim o [ none ↦ p | some (ev, rest) ↦ pushed ev rest p ]

      go :
          (o : Option (Event × List Event))
          → Picks p.unsent o
          → (sending o ≡ p)
            ⊎ ((ev : Event) × (rest : List Event) × (sending o ≡ pushed ev rest p)
                × Perm p.unsent (ev ∷ rest))
      go none h = inl refl
      go (some (ev, rest)) h = inr (ev, rest, refl, h)

  sent-Reported :
      (n : ℕ) (os : List Stretch) (p q : Split)
      → Reported os (send_nth clock n p) q
      → Reported (sends n ∷ os) p q
  unfolding emit push_all
  sent-Reported n os p q r = elim (send_cases n p) [
    | inl same ↦
        unreported (sends n) os p p q refl refl refl refl refl refl
          (subst (λ x. Reported os x q) same r)
    | inr (ev, rest, changed, held) ↦
        let r' : Reported os (pushed ev rest p) q = subst (λ x. Reported os x q) changed r in
        record {
          sent = (clock p.scope.readings, ev) ∷ r'.sent;
          reports = r'.reports;
          queued = r'.queued;
          every =
              Perm.trans (Perm.cons ev r'.every)
                (Perm.append (Perm.symm held) (Perm.refl (r'.reports ++ emitted os)));
          tells = r'.tells;
        }
  ]

  emitted-Reported :
      (ev : Event) (os : List Stretch) (p q : Split)
      → Reported os (record p { scope = emit clock ev p.scope }) q
      → Reported (emits ev ∷ os) p q
  unfolding emit push_all
  emitted-Reported ev os p q r = record {
    sent = (clock p.scope.readings, ev) ∷ r.sent;
    reports = r.reports;
    queued = r.queued;
    every = Perm.trans (Perm.cons ev r.every) (
        Perm.symm (
          rw
            (
              ← append_assoc p.unsent r.reports (ev ∷ emitted os),
              ← append_assoc p.unsent r.reports (emitted os),
            )
            (perm_middle (p.unsent ++ r.reports) (emitted os))));
    tells = r.tells;
  }

  step-Reported :
      (o : Stretch) (os : List Stretch) (p q : Split)
      → Avoids p.scope.session.info
      → Reported os (split_step clock o p) q
      → Reported (o ∷ os) p q
  unfolding split_step mark_ready set_info
  step-Reported (stores st why) os p q a r = elim (store_cases st why p) [
    | inl (same, kept) ↦
        unreported (stores st why) os p p q kept refl refl refl refl refl
          (subst (λ x. Reported os x q) same r)
    | inr (changed, one) ↦
        stored-Reported st why os p q a one (subst (λ x. Reported os x q) changed r)
  ]
  step-Reported (sends n) os p q a r = sent-Reported n os p q r
  step-Reported (emits ev) os p q a r = emitted-Reported ev os p q r
  step-Reported (adds c) os p q a r =
      unfold hold in
      unreported (adds c) os p (hold c p) q refl refl (ground arith) (ground arith) (ground arith)
        (ground arith) r
  step-Reported cancels os p q a r = unreported cancels os p _ q refl refl refl refl refl refl r
  step-Reported takes os p q a r =
      unfold take_closers in
      unreported takes os p (take_closers p) q refl refl (ground arith) (ground arith)
        (ground arith) (ground arith) r
  step-Reported (closes n) os p q a r =
      unfold close_nth in
      unreported (closes n) os p (close_nth n p) q refl refl (ground arith) (ground arith)
        (ground arith) (ground arith) r
  step-Reported (keeps_token t) os p q a r =
      unreported (keeps_token t) os p _ q refl refl refl refl refl refl r
  step-Reported (keeps_info k v) os p q a r =
      unreported (keeps_info k v) os p _ q refl refl refl refl refl refl r
  step-Reported readies os p q a r = unreported readies os p _ q refl refl refl refl refl refl r

  pub run-Reported :
      (os : List Stretch) (p : Split)
      → Unreserved os
      → Avoids p.scope.session.info
      → Reported os p (split_run clock os p)
  unfolding split_run push_all
  run-Reported [] p u a = record {
    sent = [];
    reports = [];
    queued = refl;
    every = rw append-nil (Perm.refl p.unsent);
    tells = refl;
  }
  run-Reported (o ∷ os) p u a =
      let (here, later) = Unreserved-head o os u in
      let p' = split_step clock o p in
      step-Reported o os p (split_run clock os p') a
        (run-Reported os p' later (step-info o p here a))
