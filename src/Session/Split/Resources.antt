-- ===== src/Session/Split/Resources.antt =====
-- session.go: no resource of a session is lost or closed twice, in whatever order the goroutines run.
use mathlib.Core.List.{reverse_perm}
use mathlib.Core.List.Perm
use tailcat_gui.Prelude.{
  ℕ, true, List, [], ◌∷◌, ◌++◌, ◌≡◌, arith, Perm, Option, none, some, Text, append-nil,
  append_assoc, Bool-cases, inl, inr,
}
use tailcat_gui.Session.{Closer, State, emit, mark_ready, set_info}
use tailcat_gui.Prelude.Pick.{pick, Picks, pick-Picks}
use tailcat_gui.Session.Split.{
  Split, Stretch, stores, sends, emits, adds, cancels, takes, closes, keeps_token, keeps_info,
  readies, store, hold, take_closers, close_nth, send_nth, split_step, split_run,
}
use tailcat_gui.Session.Split.Changes.{held}

-- The resources that are closed, that a goroutine is about to close, and that are open.
abbrev pub resources : Split → List Closer
resources p = p.scope.closed_log ++ (p.unclosed ++ p.scope.session.closers)

-- A closed session holds no resource.
abbrev pub Released : Split → Type 0
Released p = p.scope.session.closed ≡ true → p.scope.session.closers ≡ []

hold-resources :
    (c : Closer) (p : Split) → Released p → resources (hold c p) ≡ resources p ++ (c ∷ [])
unfolding hold
hold-resources c p r = elim (Bool-cases p.scope.session.closed) [
  | inl e ↦ rw e (rw (r e) (simp (append-nil, append_assoc)))
  | inr e ↦ rw e (simp append_assoc)
]

take-resources : (p : Split) → Released p → Perm (resources (take_closers p)) (resources p)
unfolding take_closers
take-resources p r = elim (Bool-cases p.scope.session.closed) [
  | inl e ↦ rw e (Perm.refl _)
  | inr e ↦
      rw (e, append-nil)
        (Perm.append (Perm.refl p.scope.closed_log)
          (Perm.append (Perm.refl p.unclosed) (reverse_perm p.scope.session.closers)))
]

close-resources : (n : ℕ) (p : Split) → Perm (resources (close_nth n p)) (resources p)
unfolding close_nth
close-resources n p = go (pick n p.unclosed) (pick-Picks n p.unclosed)
  where
    go :
        (o : Option (Closer × List Closer))
        → Picks p.unclosed o
        → Perm
            (resources (elim o [
              | none ↦ p
              | some (c, rest) ↦ record p {
                scope = record (p.scope) { closed_log = p.scope.closed_log ++ (c ∷ []) };
                unclosed = rest;
              }
            ]))
            (resources p)
    go none h = Perm.refl _
    go (some (c, rest)) h =
        rw (append_assoc p.scope.closed_log (c ∷ []) (rest ++ p.scope.session.closers)) (
          Perm.append (Perm.refl p.scope.closed_log)
            (Perm.append (Perm.symm h) (Perm.refl p.scope.session.closers)))

module _ (clock : ℕ → ℕ) where
  step-Released : (o : Stretch) (p : Split) → Released p → Released (split_step clock o p)
  unfolding split_step store hold take_closers close_nth send_nth emit mark_ready set_info
  step-Released o p r = ground arith

  send-resources : (n : ℕ) (p : Split) → resources (send_nth clock n p) ≡ resources p
  unfolding send_nth emit
  send-resources n p = ground arith

  store-resources : (st : State) (why : Text) (p : Split) → resources (store st why p) ≡ resources p
  unfolding store
  store-resources st why p = ground arith

  step-resources :
      (o : Stretch) (p : Split)
      → Released p
      → Perm (resources (split_step clock o p)) (resources p ++ held (o ∷ []))
  unfolding split_step mark_ready set_info emit
  step-resources (adds c) p r = rw (hold-resources c p r) (Perm.refl _)
  step-resources (stores st why) p r = rw (append-nil, store-resources st why p) (Perm.refl _)
  step-resources (sends n) p r = rw (append-nil, send-resources n p) (Perm.refl _)
  step-resources (emits ev) p r = rw append-nil (Perm.refl _)
  step-resources cancels p r = rw append-nil (Perm.refl _)
  step-resources takes p r = rw append-nil (take-resources p r)
  step-resources (closes n) p r = rw append-nil (close-resources n p)
  step-resources (keeps_token token) p r = rw append-nil (Perm.refl _)
  step-resources (keeps_info k v) p r = rw append-nil (Perm.refl _)
  step-resources readies p r = rw append-nil (Perm.refl _)

  held-cons : (o : Stretch) (os : List Stretch) → held (o ∷ os) ≡ held (o ∷ []) ++ held os
  held-cons o os = ground arith

  pub run-resources :
      (os : List Stretch) (p : Split)
      → Released p
      → Perm (resources (split_run clock os p)) (resources p ++ held os)
  unfolding split_run
  run-resources [] p r = rw append-nil (Perm.refl _)
  run-resources (o ∷ os) p r =
      Perm.trans (run-resources os (split_step clock o p) (step-Released o p r)) (
        rw (held-cons o os, ← append_assoc (resources p) (held (o ∷ [])) (held os))
          (Perm.append (step-resources o p r) (Perm.refl (held os))))

  pub run-Released : (os : List Stretch) (p : Split) → Released p → Released (split_run clock os p)
  unfolding split_run
  run-Released [] p r = r
  run-Released (o ∷ os) p r = run-Released os (split_step clock o p) (step-Released o p r)
