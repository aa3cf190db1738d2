-- ===== src/Session/Split/Whole.antt =====
-- session.go: a method that no other goroutine interrupts.
use tailcat_gui.Prelude.{
  ℕ, List, [], ◌∷◌, ◌++◌, ◌≡◌, refl, sym, ap, ◌∙◌, arith, length, append-nil, append_assoc,
  length-reverse, Bool-cases, inl, inr,
}
use tailcat_gui.Session.{
  Closer, Scope, SessionOp, State, marks_ready, adds_closer, sets_info, sets_state, fails,
  sets_token, logs, pushes, tailcat_logs, stops, shuts_down, mark_ready, add_closer, set_info,
  shutdown, emit, set_state, fail, set_token, logf, tailcat_logf, stop, session_step, session_run,
}
use tailcat_gui.Session.Split.{
  Split, Stretch, stores, sends, adds, cancels, takes, closes, store, hold, take_closers, close_nth,
  send_nth, split_step, split_run, close_all, stretches,
}

-- Between two methods: no goroutine has anything in hand.
abbrev pub whole : Scope → Split
whole w = record { scope = w; unsent = []; unclosed = [] }

module _ (clock : ℕ → ℕ) where
  close_all_idle :
      (cs : List Closer) (w : Scope) → split_run clock (close_all cs) (whole w) ≡ whole w
  unfolding split_run split_step close_nth
  close_all_idle [] w = refl
  close_all_idle (_ ∷ cs) w = close_all_idle cs w

  -- The loop closes all that was taken, in order.
  close_all_lem :
      (cs ds : List Closer) (w : Scope)
      → length cs ≡ length ds
      → split_run clock (close_all cs) (record { scope = w; unsent = []; unclosed = ds })
        ≡ whole (record w { closed_log = w.closed_log ++ ds })
  unfolding split_run split_step close_nth
  close_all_lem [] [] w e = rw append-nil refl
  close_all_lem [] (_ ∷ _) w e = absurd (omega (arith, e))
  close_all_lem (_ ∷ _) [] w e = absurd (omega (arith, e))
  close_all_lem (c ∷ cs) (d ∷ ds) w e =
      rw (close_all_lem cs ds _ (omega (arith, e)), append_assoc) refl

  shutdown-whole :
      (w : Scope)
      → split_run clock (cancels ∷ takes ∷ close_all w.session.closers) (whole w)
        ≡ whole (shutdown w)
  unfolding split_run split_step take_closers shutdown
  shutdown-whole w = elim (Bool-cases w.session.closed) [
    | inl e ↦ rw e (close_all_idle w.session.closers _)
    | inr e ↦ rw e (close_all_lem w.session.closers _ _ (sym (length-reverse w.session.closers)))
  ]

  set_state-whole :
      (st : State) (why : _) (w : Scope)
      → split_run clock (stores st why ∷ sends 0 ∷ []) (whole w) ≡ whole (set_state clock st why w)
  unfolding split_run split_step store send_nth set_state
  set_state-whole st why w = ground arith

  add_closer-whole :
      (c : Closer) (w : Scope)
      → split_run clock (adds c ∷ closes 0 ∷ []) (whole w) ≡ whole (add_closer c w)
  unfolding split_run split_step hold close_nth add_closer
  add_closer-whole c w = ground arith

  split_run-append :
      (os qs : List Stretch) (p : Split)
      → split_run clock (os ++ qs) p ≡ split_run clock qs (split_run clock os p)
  unfolding split_run
  split_run-append [] qs p = refl
  split_run-append (o ∷ os) qs p = split_run-append os qs (split_step clock o p)

  set_state-closers :
      (st : State) (why : _) (w : Scope)
      → (set_state clock st why w).session.closers ≡ w.session.closers
  unfolding set_state emit
  set_state-closers st why w = ground arith

  ends_whole :
      (st : State) (why : _) (w : Scope)
      → split_run clock
          (stores st why ∷ sends 0 ∷ cancels ∷ takes ∷ close_all w.session.closers)
          (whole w)
        ≡ whole (shutdown (set_state clock st why w))
  ends_whole st why w =
      let t = set_state clock st why w in
      let rest : List Closer → List Stretch = λ cs. cancels ∷ takes ∷ close_all cs in
      split_run-append (stores st why ∷ sends 0 ∷ []) (rest w.session.closers) (whole w)
      ∙ ap (split_run clock (rest w.session.closers)) (set_state-whole st why w)
      ∙ ap (λ cs. split_run clock (rest cs) (whole t)) (sym (set_state-closers st why w))
      ∙ shutdown-whole t

  method_whole :
      (o : SessionOp) (w : Scope)
      → split_run clock (stretches o w.session) (whole w) ≡ whole (session_step clock o w)
  unfolding split_run split_step stretches session_step mark_ready set_info fail stop set_token logf
      tailcat_logf emit
  method_whole marks_ready w = refl
  method_whole (adds_closer c) w = add_closer-whole c w
  method_whole (sets_info k v) w = refl
  method_whole (sets_state st why) w = set_state-whole st why w
  method_whole (fails why) w = ends_whole _ why _
  method_whole (sets_token token) w = refl
  method_whole (logs msg) w = refl
  method_whole (pushes ev) w = refl
  method_whole (tailcat_logs msg) w = refl
  method_whole stops w = ends_whole _ [] w
  method_whole shuts_down w = shutdown-whole w

  -- The stretches of methods that follow one another.
  abbrev pub in_turn : List SessionOp → Scope → List Stretch
  in_turn [] w = []
  in_turn (o ∷ os) w = stretches o w.session ++ in_turn os (session_step clock o w)

  -- If no other goroutine runs between the stretches of a method, a sequence of methods, taken stretch by stretch,
  -- does to a session what the methods do as single steps, and leaves no event to push and no resource to close.
  pub session_run-in_turn :
      (os : List SessionOp) (w : Scope)
      → split_run clock (in_turn os w) (whole w) ≡ whole (session_run clock os w)
  unfolding session_run split_run
  session_run-in_turn [] w = refl
  session_run-in_turn (o ∷ os) w =
      split_run-append (stretches o w.session) (in_turn os (session_step clock o w)) (whole w)
      ∙ ap (split_run clock (in_turn os (session_step clock o w))) (method_whole o w)
      ∙ session_run-in_turn os (session_step clock o w)
