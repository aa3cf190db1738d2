-- ===== src/Session/Split/Changes.antt =====
-- session.go: the changes of a session's state that the stretches ask for, as far as they take effect.
use tailcat_gui.Prelude.{
  Bool-cases, inl, inr, ◌⊎◌, refl, ℕ, true, false, ◌&&◌, List, [], ◌∷◌, ◌++◌, ◌≡◌, refl, sym, ap,
  ◌∙◌, arith, if◌then◌else◌, ite, Text, text_eq,
}
use tailcat_gui.Events.{Event}
use tailcat_gui.Session.{Closer, State, State-discrete, is_terminal, emit, mark_ready, set_info}
use tailcat_gui.Session.Split.{
  Split, Stretch, stores, emits, adds, store, hold, take_closers, close_nth, send_nth, split_step,
  split_run,
}

-- A state with its text. `next_stage` says which of the states that goroutines ask for a session
-- takes: not one that it has, and none after it has ended.
abbrev pub Stage : Type 0
Stage = State × Text

abbrev pub next_stage : Stage → Stretch → List Stage
next_stage (at, why) (stores st why') =
    if is_terminal at
    then []
    else if ite (State-discrete at st) true false && text_eq why why'
    then []
    else (st, why') ∷ []
next_stage _ _ = []

abbrev pub latest : Stage → List Stage → Stage
latest a [] = a
latest a (b ∷ bs) = latest b bs

abbrev pub changes : Stage → List Stretch → List Stage
changes a [] = []
changes a (o ∷ os) = let c = next_stage a o in c ++ changes (latest a c) os

-- No change follows a state that ends the session.
abbrev pub EndsOnce : Stage → List Stage → Type 0
EndsOnce a [] = Unit
EndsOnce a (b ∷ bs) = (is_terminal a.0 ≡ false) × EndsOnce b bs

next_stage_cases :
    (a : Stage) (o : Stretch)
    → (next_stage a o ≡ []) ⊎ ((b : Stage) × (next_stage a o ≡ b ∷ []) × (is_terminal a.0 ≡ false))
next_stage_cases a (stores st why) = elim (Bool-cases (is_terminal a.0)) [
  | inl e ↦ inl (rw e refl)
  | inr e ↦ elim (Bool-cases (ite (State-discrete a.0 st) true false && text_eq a.1 why)) [
    | inl same ↦ inl (rw (e, same) refl)
    | inr new ↦ inr ((st, why), rw (e, new) refl, e)
  ]
]
next_stage_cases a _ = inl refl

pub changes-EndsOnce : (os : List Stretch) (a : Stage) → EndsOnce a (changes a os)
changes-EndsOnce [] a = tt
changes-EndsOnce (o ∷ os) a = elim (next_stage_cases a o) [
  | inl e ↦ rw e (changes-EndsOnce os a)
  | inr (b, e, active) ↦ rw e (active, changes-EndsOnce os b)
]

-- What the stretches push beside state events, and the resources that they register.
abbrev pub emitted : List Stretch → List Event
emitted [] = []
emitted (emits ev ∷ os) = ev ∷ emitted os
emitted (_ ∷ os) = emitted os

abbrev pub held : List Stretch → List Closer
held [] = []
held (adds c ∷ os) = c ∷ held os
held (_ ∷ os) = held os

abbrev pub stage : Split → Stage
stage p = (p.scope.session.state, p.scope.session.detail)

module _ (clock : ℕ → ℕ) where
  step-stage :
      (o : Stretch) (p : Split)
      → stage (split_step clock o p) ≡ latest (stage p) (next_stage (stage p) o)
  unfolding split_step store send_nth hold take_closers close_nth mark_ready set_info emit
  step-stage o p = ground arith

  latest-append : (a : Stage) (bs cs : List Stage) → latest a (bs ++ cs) ≡ latest (latest a bs) cs
  latest-append a [] cs = refl
  latest-append a (b ∷ bs) cs = latest-append b bs cs

  pub run-stage :
      (os : List Stretch) (p : Split)
      → stage (split_run clock os p) ≡ latest (stage p) (changes (stage p) os)
  unfolding split_run
  run-stage [] p = refl
  run-stage (o ∷ os) p =
      run-stage os (split_step clock o p)
      ∙ ap (λ a. latest a (changes a os)) (step-stage o p)
      ∙ sym (
          latest-append (stage p) (next_stage (stage p) o)
            (changes (latest (stage p) (next_stage (stage p) o)) os))
