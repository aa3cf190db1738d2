-- ===== src/Transfers/Outcomes.antt =====
-- files.go: how an upload or a download leaves its session.
use tailcat_gui.Prelude.{
  ℕ, true, false, append-nil, Bool-cases, inl, inr, subst, sym, List, [], ◌∷◌, ◌++◌, ◌≡◌, refl, ap,
  ◌∙◌, Option, none, some, Text, codes, Perm,
}
use tailcat_gui.Prelude.Dict.{Dict}
use tailcat_gui.Connect.{log_all}
use tailcat_gui.Session.{
  Scope, SessionOp, logs, pushes, adds_closer, fails, sets_state, is_terminal, running, failed,
  done, starting, client, file_client, session_run, session_step, set_state, add_closer, logf, emit,
}
use tailcat_gui.Session.Coherent.{
  IsCoherent, emit-IsCoherent, set_state-IsCoherent, step-IsCoherent,
}
use tailcat_gui.Session.Closers.{added, run-closes_all}
use tailcat_gui.Session.Endings.{EndsAs, active-EndsAs, set_state-active, add_closer-state}
use tailcat_gui.Session.Lifecycle.{fail-IsEnded, shutdown-IsEnded}
use tailcat_gui.Tokens.{Outcome, good, bad}
use tailcat_gui.Transfers.Throttle.{throttle}
use tailcat_gui.Transfers.{
  Wording, Transfer, Job, Report, complete, broken, interrupted, failure, emit_reports,
  transfer_loop, transfer_ops,
}

-- The first path whose transfer fails, with its error.
pub first_broken : List Job → Option (Text × Text)
first_broken [] = none
first_broken (j ∷ js) =
    let rest = first_broken js in
    elim j.ending [ broken e ↦ some (j.path, e) | complete ↦ rest | interrupted ↦ rest ]

abbrev pub Uninterrupted : List Job → Type 0
Uninterrupted [] = Unit
Uninterrupted (j ∷ js) =
    let rest = Uninterrupted js in
    elim j.ending [ interrupted ↦ ⊥ | complete ↦ rest | broken e ↦ rest ]

-- How the job leaves its session, by what it met: in which state, and with which resources closed.
pub data Leaves (v : Wording) (w : Scope) : Outcome (Unit {0}) → List Job → Scope → Type 0 where
  unreachable :
      {e : Text} {js : List Job} {t : Scope}
      → EndsAs failed e t
      → Perm t.closed_log (w.closed_log ++ w.session.closers)
      → Leaves v w (bad e) js t
  failing :
      {js : List Job} {t : Scope} (p e : Text)
      → first_broken js ≡ some (p, e)
      → EndsAs failed (failure v p e) t
      → Perm t.closed_log (w.closed_log ++ (w.session.closers ++ (client ∷ file_client ∷ [])))
      → Leaves v w (good tt) js t
  completing :
      {js : List Job} {t : Scope}
      → first_broken js ≡ none
      → EndsAs done v.finished t
      → Perm t.closed_log (w.closed_log ++ (w.session.closers ++ (client ∷ file_client ∷ [])))
      → Leaves v w (good tt) js t

-- Calls that only push events.
abbrev Quiet : List SessionOp → Type 0
Quiet [] = Unit
Quiet (logs _ ∷ os) = Quiet os
Quiet (pushes _ ∷ os) = Quiet os
Quiet (_ ∷ os) = ⊥

log_all-Quiet : (ms : List Text) → Quiet (log_all ms)
log_all-Quiet [] = tt
log_all-Quiet (m ∷ ms) = log_all-Quiet ms

emit_reports-Quiet :
    (id : Text) (rs : List Report) (last : Dict ℕ) → Quiet (emit_reports id rs last).0
unfolding emit_reports
emit_reports-Quiet id [] last = tt
emit_reports-Quiet id (r ∷ rs) last =
    let q = emit_reports-Quiet id rs (throttle r.now r.progress last).1 in
    elim (Bool-cases (throttle r.now r.progress last).0) [ inl e ↦ rw e q | inr e ↦ rw e q ]

added-Quiet : (os rest : List SessionOp) → Quiet os → added (os ++ rest) ≡ added rest
added-Quiet [] rest q = refl
added-Quiet (logs _ ∷ os) rest q = added-Quiet os rest q
added-Quiet (pushes _ ∷ os) rest q = added-Quiet os rest q
added-Quiet (_ ∷ os) rest q = absurd q

-- How a run ends, less the resources.
data Ends (v : Wording) : List Job → Scope → Type 0 where
  fails_at :
      {js : List Job} {t : Scope} (p e : Text)
      → first_broken js ≡ some (p, e)
      → EndsAs failed (failure v p e) t
      → Ends v js t
  completes :
      {js : List Job} {t : Scope} → first_broken js ≡ none → EndsAs done v.finished t → Ends v js t

module _ (clock : ℕ → ℕ) where
  run-Quiet :
      (os rest : List SessionOp) (w : Scope)
      → Quiet os
      → IsCoherent w
      → (u : Scope) × IsCoherent u
        × (u.session ≡ w.session)
        × (session_run clock (os ++ rest) w ≡ session_run clock rest u)
  unfolding session_run session_step logf emit
  run-Quiet [] rest w q c = (w, c, refl, refl)
  run-Quiet (logs m ∷ os) rest w q c = run-Quiet os rest _ q (emit-IsCoherent clock _ w c)
  run-Quiet (pushes ev ∷ os) rest w q c = run-Quiet os rest _ q (emit-IsCoherent clock _ w c)
  run-Quiet (_ ∷ os) rest w q c = absurd q

module _ (clock : ℕ → ℕ) (v : Wording) (id : Text) where
  -- What follows the reports of one path.
  abbrev job_end : Job → List SessionOp → List SessionOp
  job_end j rest = elim j.ending [
    | complete ↦ rest
    | broken e ↦ fails (failure v j.path e) ∷ []
    | interrupted ↦ []
  ]

  job-Ends :
      (ending : Transfer) (path : Text) (rs : List Report) (js : List Job) (rest : List SessionOp)
      (w : Scope)
      → let j : Job = record { path = path; reports = rs; ending = ending } in
        IsCoherent w
        → is_terminal w.session.state ≡ false
        → Uninterrupted (j ∷ js)
        → (Uninterrupted js → Ends v js (session_run clock rest w))
        → Ends v (j ∷ js) (session_run clock (job_end j rest) w)
  unfolding session_run session_step first_broken
  job-Ends complete p rs js rest w c h u ih = elim (ih u) [
    | fails_at q e f k ↦ fails_at q e f k
    | completes f k ↦ completes f k
  ]
  job-Ends (broken e) p rs js rest w c h u ih =
      fails_at p e refl (active-EndsAs h (fail-IsEnded clock (failure v p e) w c))
  job-Ends interrupted p rs js rest w c h u ih = absurd u

  loop-Ends :
      (js : List Job) (last : Dict ℕ) (w : Scope)
      → IsCoherent w
      → is_terminal w.session.state ≡ false
      → Uninterrupted js
      → Ends v js (session_run clock (transfer_loop v id last js) w)
  unfolding transfer_loop session_run session_step first_broken
  loop-Ends [] last w c h u =
      completes refl (active-EndsAs h (shutdown-IsEnded clock done v.finished w c))
  loop-Ends (j ∷ js) last w c h u =
      let (os, last') = emit_reports id j.reports last in
      let rest = transfer_loop v id last' js in
      let (x, c', same, run) =
        run-Quiet clock os (job_end j rest) w (emit_reports-Quiet id j.reports last) c in
      let h' : is_terminal x.session.state ≡ false = rw same h in
      subst (Ends v (j ∷ js)) (sym run)
        (job-Ends j.ending j.path j.reports js rest x c' h' u (λ u'. loop-Ends js last' x c' h' u'))

  added-transfer_loop : (js : List Job) (last : Dict ℕ) → added (transfer_loop v id last js) ≡ []
  unfolding transfer_loop
  added-transfer_loop [] last = refl
  added-transfer_loop (j ∷ js) last =
      let (os, last') = emit_reports id j.reports last in
      let rest = transfer_loop v id last' js in
      added-Quiet os (job_end j rest) (emit_reports-Quiet id j.reports last)
      ∙ ended j.ending rest (added-transfer_loop js last')
    where
      ended :
          (ending : Transfer) (rest : List SessionOp)
          → added rest ≡ []
          → added (job_end (record { path = j.path; reports = j.reports; ending = ending }) rest)
            ≡ []
      ended complete rest h = h
      ended (broken e) rest h = refl
      ended interrupted rest h = refl

  added-transfer_ops :
      (messages : List Text) (js : List Job)
      → (added (transfer_ops v id (good tt) messages js) ≡ client ∷ file_client ∷ [])
        × ((e : Text) → added (transfer_ops v id (bad e) messages js) ≡ [])
  unfolding transfer_ops
  added-transfer_ops messages js = (
    added-Quiet (log_all messages) _ (log_all-Quiet messages)
        ∙ ap (λ l. client ∷ file_client ∷ l) (added-transfer_loop js []),
    λ e. added-Quiet (log_all messages) _ (log_all-Quiet messages),
  )

  opened-Ends :
      (js : List Job) (a : Scope)
      → IsCoherent a
      → is_terminal a.session.state ≡ false
      → Uninterrupted js
      → Ends v js (
          session_run clock
            (adds_closer client
              ∷ adds_closer file_client
              ∷ sets_state running v.doing
              ∷ transfer_loop v id [] js)
            a)
  unfolding session_run session_step
  opened-Ends js a c h u =
      let b = add_closer file_client (add_closer client a) in
      let kept : IsCoherent b =
        step-IsCoherent clock (adds_closer file_client) _
          (step-IsCoherent clock (adds_closer client) a c) in
      loop-Ends js [] (set_state clock running v.doing b)
        (set_state-IsCoherent clock running v.doing b kept)
        (set_state-active clock running v.doing b refl
          (rw (add_closer-state file_client (add_closer client a), add_closer-state client a) h))
        u

  -- The goroutine behind the messages of `openShare`.
  opening :
      (messages : List Text) (rest : List SessionOp) (w : Scope)
      → IsCoherent w
      → is_terminal w.session.state ≡ false
      → (a : Scope) × IsCoherent a
        × (is_terminal a.session.state ≡ false)
        × (session_run clock
              (sets_state starting (codes "connecting") ∷ (log_all messages ++ rest))
              w
            ≡ session_run clock rest a)
  unfolding session_run session_step
  opening messages rest w c h =
      let b = set_state clock starting (codes "connecting") w in
      let (a, c', same, run) =
        run-Quiet clock (log_all messages) rest b (log_all-Quiet messages)
          (set_state-IsCoherent clock starting (codes "connecting") w c) in
      (a, c', rw same (set_state-active clock starting (codes "connecting") w refl h), run)

  fails-EndsAs :
      (e : Text) (a : Scope)
      → IsCoherent a
      → is_terminal a.session.state ≡ false
      → EndsAs failed e (session_run clock (fails e ∷ []) a)
  unfolding session_run session_step
  fails-EndsAs e a c h = active-EndsAs h (fail-IsEnded clock e a c)

  Ends-Leaves :
      (messages : List Text) (js : List Job) (w : Scope)
      → IsCoherent w
      → let t = session_run clock (transfer_ops v id (good tt) messages js) w in
        Ends v js t → Leaves v w (good tt) js t
  Ends-Leaves messages js w c ends =
      let ops = transfer_ops v id (good tt) messages js in
      let t = session_run clock ops w in
      let closes : t.session.closed ≡ true
          → Perm t.closed_log (w.closed_log ++ (w.session.closers ++ (client ∷ file_client ∷ []))) =
        λ closed.
          subst (λ l. Perm t.closed_log (w.closed_log ++ (w.session.closers ++ l)))
            ((added-transfer_ops messages js).0) (run-closes_all clock ops w c closed) in
      elim ends [
        | fails_at p e f k ↦ failing p e f k (closes k.closed)
        | completes f k ↦ completing f k (closes k.closed)
      ]

  -- On a coherent session that is active, if no transfer is cut short by its cancellation and no
  -- other call comes between those of the goroutine, the job of `sendFiles` or `download` closes
  -- the session: as failed with the error of `openShare`; or as failed with the first path whose
  -- transfer fails and its error; or, if every transfer is complete, as done. It leaves no
  -- resource open: what the session owned before is closed, once each, and so are the client of
  -- tailcat and the one of the share, if there are any.
  pub transfer_ops-Leaves :
      (opened : Outcome (Unit {0})) (messages : List Text) (js : List Job) (w : Scope)
      → IsCoherent w
      → is_terminal w.session.state ≡ false
      → Uninterrupted js
      → Leaves v w opened js (session_run clock (transfer_ops v id opened messages js) w)
  unfolding transfer_ops
  transfer_ops-Leaves (bad e) messages js w c h u =
      let ops = transfer_ops v id (bad e) messages js in
      let t = session_run clock ops w in
      let (a, c', h', run) = opening messages (fails e ∷ []) w c h in
      let ends = subst (EndsAs failed e) (sym run) (fails-EndsAs e a c' h') in
      unreachable ends (
        subst (Perm t.closed_log) (ap (λ l. w.closed_log ++ l) (append-nil w.session.closers)) (
          subst (λ l. Perm t.closed_log (w.closed_log ++ (w.session.closers ++ l)))
            ((added-transfer_ops messages js).1 e) (run-closes_all clock ops w c ends.closed)))
  transfer_ops-Leaves (good tt) messages js w c h u =
      let (a, c', h', run) =
        opening messages
          (adds_closer client
            ∷ adds_closer file_client
            ∷ sets_state running v.doing
            ∷ transfer_loop v id [] js)
          w c h in
      Ends-Leaves messages js w c (subst (Ends v js) (sym run) (opened-Ends js a c' h' u))
