-- ===== src/Connect/Warmup.antt =====
-- forward.go: how `clientWarmup` leaves its session.
use tailcat_gui.Prelude.{
  ℕ, true, false, Bool, List, [], ◌∷◌, ◌++◌, ◌≡◌, refl, ◌∙◌, arith, Option, none, some, Text, codes,
  if◌then◌else◌, Bool-cases, inl, inr, subst,
}
use tailcat_gui.Session.{
  Scope, SessionOp, State, is_terminal, running, failed, starting, session_run, session_step,
  set_state, logf, emit, mark_ready, fails, fail, shutdown, error_event,
}
use tailcat_gui.Session.Coherent.{IsCoherent, set_state-IsCoherent, emit-IsCoherent}
use tailcat_gui.Session.Lifecycle.{fail-IsEnded, set_state_ends}
use tailcat_gui.Session.Endings.{EndsAs, active-EndsAs, set_state-active}
use tailcat_gui.Tokens.{Outcome, good, bad}
use tailcat_gui.Connect.{
  Handshake, PingResult, via_of, handshake_error, log_all, warmup_end, client_warmup,
}

-- What the pings of `clientWarmup` come to: an error, or the path to the server.
abbrev pub reached : Option Text → Outcome PingResult → Outcome PingResult
reached (some e) disco = bad e
reached none disco = disco

-- How it leaves a session that was not ready before.
pub data WarmsUp (stopped : Bool) : Outcome PingResult → Scope → Type 0 where
  abandoned :
      {e : Text} {t : Scope}
      → stopped ≡ true
      → is_terminal t.session.state ≡ false
      → t.session.ready ≡ false
      → WarmsUp stopped (bad e) t
  failing :
      {e : Text} {t : Scope}
      → stopped ≡ false
      → EndsAs failed (codes "connect to server: " ++ e) t
      → t.session.ready ≡ false
      → WarmsUp stopped (bad e) t
  running_via :
      {p : PingResult} {t : Scope}
      → t.session.ready ≡ true
      → t.session.state ≡ running
      → t.session.detail ≡ codes "connected via " ++ (via_of p).1
      → WarmsUp stopped (good p) t

module _ (clock : ℕ → ℕ) (id : Text) (stopped : Bool) where
  set_state-ready :
      (st : State) (why : Text) (w : Scope)
      → (set_state clock st why w).session.ready ≡ w.session.ready
  unfolding set_state emit
  set_state-ready st why w = ground arith

  fail-ready : (why : Text) (w : Scope) → (fail clock why w).session.ready ≡ w.session.ready
  unfolding fail shutdown emit
  fail-ready why w = ground (
    arith,
    set_state-ready failed why (emit clock (error_event w.session (codes "session_failed") why) w),
  )

  failed-WarmsUp :
      (e : Text) (w : Scope)
      → IsCoherent w
      → is_terminal w.session.state ≡ false
      → w.session.ready ≡ false
      → WarmsUp stopped (bad e) (
          session_run clock
            (if stopped then [] else fails (codes "connect to server: " ++ e) ∷ [])
            w)
  unfolding session_run session_step
  failed-WarmsUp e w c a r = elim (Bool-cases stopped) [
    | inl s ↦ subst (WarmsUp stopped (bad e)) {x = w} (rw s refl) (abandoned s a r)
    | inr s ↦
        subst (WarmsUp stopped (bad e)) {x = fail clock (codes "connect to server: " ++ e) w}
          (rw s refl) (failing s (active-EndsAs a (fail-IsEnded clock _ w c)) (fail-ready _ w ∙ r))
  ]

  warmup_end-WarmsUp :
      (x : Option Text) (disco : Outcome PingResult) (w : Scope)
      → IsCoherent w
      → is_terminal w.session.state ≡ false
      → w.session.ready ≡ false
      → WarmsUp stopped (reached x disco) (session_run clock (warmup_end id stopped x disco) w)
  unfolding warmup_end session_run session_step emit
  warmup_end-WarmsUp (some e) disco w c a r = failed-WarmsUp e w c a r
  warmup_end-WarmsUp none (bad e) w c a r = failed-WarmsUp e w c a r
  warmup_end-WarmsUp none (good p) w c a r =
      let why = codes "connected via " ++ (via_of p).1 in
      let ends = set_state_ends clock running why (mark_ready w) in
      let active : is_terminal (mark_ready w).session.state ≡ false = unfold mark_ready in a in
      running_via (set_state-ready running why (mark_ready w) ∙ (unfold mark_ready in refl))
        (ends.0 ∙ rw active refl) (ends.1 ∙ rw active refl)

  pub log_all-run :
      (ms : List Text) (os : List SessionOp) (w : Scope)
      → IsCoherent w
      → is_terminal w.session.state ≡ false
      → w.session.ready ≡ false
      → (u : Scope) × IsCoherent u
        × (is_terminal u.session.state ≡ false)
        × (u.session.ready ≡ false)
        × (session_run clock (log_all ms ++ os) w ≡ session_run clock os u)
  unfolding session_run session_step logf emit
  log_all-run [] os w c a r = (w, c, a, r, refl)
  log_all-run (m ∷ ms) os w c a r = log_all-run ms os _ (emit-IsCoherent clock _ w c) a r

  -- On a coherent session that is active and not yet ready, if no other call comes between those
  -- of `clientWarmup`: if the server answers, the session becomes ready and runs, and its detail
  -- names the path. If not, it does not become ready; it is failed with the error and closed, or
  -- it is left alone if its context was cancelled meanwhile.
  pub client_warmup-WarmsUp :
      (h : Handshake) (messages : List Text) (disco : Outcome PingResult) (w : Scope)
      → IsCoherent w
      → is_terminal w.session.state ≡ false
      → w.session.ready ≡ false
      → WarmsUp stopped
          (reached (handshake_error h) disco)
          (session_run clock (client_warmup id stopped (h, messages) disco) w)
  unfolding client_warmup session_run session_step
  client_warmup-WarmsUp h messages disco w c a r =
      let connecting = codes "connecting" in
      let (u, c', a', r', same) =
        log_all-run messages (warmup_end id stopped (handshake_error h) disco)
          (set_state clock starting connecting w)
          (set_state-IsCoherent clock starting connecting w c)
          (set_state-active clock starting connecting w refl a)
          (set_state-ready starting connecting w ∙ r) in
      rw same (warmup_end-WarmsUp (handshake_error h) disco u c' a' r')
