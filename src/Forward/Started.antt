-- ===== src/Forward/Started.antt =====
-- forward.go and socks.go: what the commands that listen do to the engine.
use tailcat_gui.Prelude.{
  sym, subst, ℕ, true, false, Bool, List, [], ◌∷◌, ◌++◌, ◌≡◌, ◌⊎◌, refl, ap, ◌∙◌, arith, Option,
  none, some, Text, codes, inl, inr, ℤ, Bool-cases, if◌then◌else◌,
}
use tailcat_gui.Prelude.Dict.{Dict, lookup}
use tailcat_gui.Errors.{Error, Result, ok, err, coded, internal, ◌>>=◌, Result-cases}
use tailcat_gui.Events.{text}
use tailcat_gui.Session.{
  Kind, Session, SessionOp, socks, client, listener, new_session, session_run, session_step,
  add_closer, set_info,
}
use tailcat_gui.Tokens.{Outcome, good, normalize_token, listen_addr}
use tailcat_gui.Tokens.Accepted.{Outcome-cases, Checked, normalize_token-Checked}
use tailcat_gui.Serve.Accepted.{IsPort, out_of_range-IsPort}
use tailcat_gui.Engine.{Engine}
use tailcat_gui.Engine.Ids.{IsWellFormed}
use tailcat_gui.Engine.Starting.{
  start_session, HoldsNew, start_session-Starts, Runs, Runs-refl, start_session-Runs,
}
use tailcat_gui.Forward.{
  StartForwardArgs, StartSocksArgs, Listener, Opened, Answer, answer, ssh_command, check_forward,
  forward_addr, integer, forward_ops, socks_ops, is_ssh, serve_listener, listen_at, start_forward,
  start_socks,
}

-- A call that is refused leaves no listener open and the engine as it was.
abbrev pub Refuses : Engine → Answer → Type 0
Refuses e r = (x : Error) × (r ≡ (err x, false, e))

-- The listener is open, and the new session owns it and the client, and nothing else. `shown` is what the UI gets.
abbrev pub Listens : (ℕ → ℕ) → Kind → List SessionOp → (Text → Opened) → Engine → Answer → Type 0
Listens clock kind os shown e r =
    (id : Text) × (e' : Engine) × (r ≡ (ok (shown id), true, e'))
    × HoldsNew clock kind os e id e'
    × ((s : Session) → lookup id e'.sessions ≡ some s → s.closers ≡ client ∷ listener ∷ [])

same_closers :
    (m : Option Session) (s t : Session) → m ≡ some s → m ≡ some t → t.closers ≡ s.closers
same_closers m s t h k = let e : s ≡ t = cc in ap (λ (x : Session). x.closers) (sym e)

module _ (clock : ℕ → ℕ) where
  -- A new session that is first given these two resources, and then extra fields only.
  OwnsBoth : List SessionOp → Type 0
  OwnsBoth os =
      (w : _) (now : ℕ) (id : Text) (kind : Kind)
      → w.session ≡ new_session now id kind
      → (session_run clock os w).session.closers ≡ client ∷ listener ∷ []

  forward_ops-OwnsBoth : (remote : ℤ) (ln : Listener) → OwnsBoth (forward_ops remote ln)
  unfolding OwnsBoth forward_ops session_run session_step add_closer set_info new_session
  forward_ops-OwnsBoth remote ln w now id kind h = ground (arith, h)

  socks_ops-OwnsBoth : (ln : Listener) → OwnsBoth (socks_ops ln)
  unfolding OwnsBoth socks_ops session_run session_step add_closer set_info new_session
  socks_ops-OwnsBoth ln w now id kind h = ground (arith, h)

  serve_listener_cases :
      (kind : Kind) (os : List SessionOp) (shown : Text → Opened) (e : Engine)
      → OwnsBoth os
      → IsWellFormed e
      → Refuses e (serve_listener clock kind os shown e)
        ⊎ Listens clock kind os shown e (serve_listener clock kind os shown e)
  unfolding serve_listener OwnsBoth
  serve_listener_cases kind os shown e owns w = elim (start_session-Starts clock kind os e w) [
    | inl (c, h) ↦ inl (coded internal (codes "engine is closed") [], ap (answer shown) h)
    | inr (id, e', h, new) ↦ inr (
      id,
      e',
      ap (answer shown) h,
      new,
      λ s found.
          same_closers (lookup id e'.sessions) _ s new.held found ∙ owns new.w _ id kind new.begun,
    )
  ]

-- The checked ports.
check_forward-IsPort : (a : StartForwardArgs) → check_forward a ≡ ok tt → IsPort a.remote_port
unfolding check_forward
check_forward-IsPort a h = elim (out_of_range-IsPort a.remote_port) [
  | inl (port, _) ↦ port
  | inr (_, out) ↦ absurd (ground arith)
]

-- Where it is to listen: at the local port, on all addresses or on 127.0.0.1.
abbrev pub asked_addr : StartForwardArgs → Text
asked_addr a = (if a.bind_all then codes ":" else codes "127.0.0.1:") ++ integer a.local_port

asked_addr_lem : (a : StartForwardArgs) → asked_addr a ≡ forward_addr a.bind_all a.local_port
unfolding forward_addr
asked_addr_lem a = elim (Bool-cases a.bind_all) [ inl e ↦ rw e refl | inr e ↦ rw e refl ]

module _ {ConnInfo : Type 0} (lookup_txt : Text → Outcome (List Text))
    (parse_conn_blob : Text → Outcome ConnInfo) (listen : Text → Outcome Listener) (windows : Bool)
    (clock : ℕ → ℕ) where
  -- What the UI gets of a forwarded port.
  abbrev pub forward_shown : Kind → Listener → Text → Opened
  forward_shown kind ln id = record {
    session_id = id;
    local_port = some ln.port;
    listen = none;
    command = if is_ssh kind then some (ssh_command windows ln.port) else none;
  }

  -- On a well-formed engine, `startForward` either refuses, and then leaves no listener open and
  -- the engine as it was; or it has a remote port from 1 to 65535 and a token that tailcat reads,
  -- listens at the local port, on 127.0.0.1 unless `bind_all` asks for all addresses, and opens a
  -- session that owns the listener and the client. The other sessions stay as they are.
  pub start_forward_cases :
      (kind : Kind) (a : StartForwardArgs) (e : Engine)
      → IsWellFormed e
      → let r = start_forward lookup_txt parse_conn_blob listen windows clock kind a e in
        Refuses e r
        ⊎ (IsPort a.remote_port
            × ((tok : Text) × (ci : ConnInfo) × (normalize_token lookup_txt parse_conn_blob a.token
                  ≡ ok tok)
                × (parse_conn_blob tok ≡ good ci))
            × ((ln : Listener) × (listen (asked_addr a) ≡ good ln)
                × Listens clock kind (forward_ops a.remote_port ln) (forward_shown kind ln) e r))
  unfolding start_forward listen_at
  start_forward_cases kind a e w = elim (Result-cases (check_forward a)) [
    | inr (x, c) ↦ inl (x, rw (c, start_forward) refl)
    | inl (tt, c) ↦ elim (Result-cases (normalize_token lookup_txt parse_conn_blob a.token)) [
      | inr (x, n) ↦ inl (x, rw (c, n, start_forward) refl)
      | inl (tok, n) ↦ elim (Outcome-cases (listen (forward_addr a.bind_all a.local_port))) [
        | inr (x, l) ↦ inl (
          coded internal (codes "listen: %v") (text x ∷ []),
          rw (c, n, l, start_forward, listen_at) refl,
        )
        | inl (ln, l) ↦
            let checked : Checked lookup_txt parse_conn_blob (ok tok) =
              subst (Checked lookup_txt parse_conn_blob) n
                (normalize_token-Checked lookup_txt parse_conn_blob a.token) in
            let same : start_forward lookup_txt parse_conn_blob listen windows clock kind a e
                ≡ serve_listener clock kind (forward_ops a.remote_port ln) (forward_shown kind ln)
                    e =
              rw (c, n, l, start_forward, listen_at) refl in
            elim (serve_listener_cases clock kind (forward_ops a.remote_port ln)
              (forward_shown kind ln) e (forward_ops-OwnsBoth clock a.remote_port ln) w) [
                | inl (x, h) ↦ inl (x, same ∙ h)
                | inr (id, e', h, new, owned) ↦ inr (
                  check_forward-IsPort a c,
                  (tok, checked.0, n, checked.1),
                  (ln, ap listen (asked_addr_lem a) ∙ l, (id, e', same ∙ h, new, owned)),
                )
              ]
      ]
    ]
  ]

  -- What the UI gets of a proxy.
  abbrev pub socks_shown : Listener → Text → Opened
  socks_shown ln id = record {
    session_id = id;
    local_port = none;
    listen = some ln.addr;
    command = none;
  }

  -- On a well-formed engine, `startSocks` either refuses, and then leaves no listener open and the
  -- engine as it was; or it listens where `listenAddr` says, and opens a session that owns the
  -- listener and the client.
  pub start_socks_cases :
      (a : StartSocksArgs) (e : Engine)
      → IsWellFormed e
      → let r = start_socks lookup_txt parse_conn_blob listen windows clock a e in
        Refuses e r
        ⊎ ((addr : Text) × (ln : Listener) × (listen_addr a.listen 1080 ≡ ok addr)
            × (listen addr ≡ good ln)
            × Listens clock socks (socks_ops ln) (socks_shown ln) e r)
  unfolding start_socks listen_at
  start_socks_cases a e w =
      elim (Result-cases (normalize_token lookup_txt parse_conn_blob a.token)) [
        | inr (x, n) ↦ inl (x, rw (n, start_socks) refl)
        | inl (tok, n) ↦ elim (Result-cases (listen_addr a.listen 1080)) [
          | inr (x, d) ↦ inl (x, rw (n, d, start_socks) refl)
          | inl (addr, d) ↦ elim (Outcome-cases (listen addr)) [
            | inr (x, l) ↦ inl (
              coded internal (codes "listen: %v") (text x ∷ []),
              rw (n, d, l, start_socks, listen_at) refl,
            )
            | inl (ln, l) ↦
                let same : start_socks lookup_txt parse_conn_blob listen windows clock a e
                    ≡ serve_listener clock socks (socks_ops ln) (socks_shown ln) e =
                  rw (n, d, l, start_socks, listen_at) refl in
                elim (serve_listener_cases clock socks (socks_ops ln) (socks_shown ln) e
                  (socks_ops-OwnsBoth clock ln) w) [
                    | inl (x, h) ↦ inl (x, same ∙ h)
                    | inr (id, e', h, new, owned) ↦
                        inr (addr, ln, d, l, (id, e', same ∙ h, new, owned))
                  ]
          ]
        ]
      ]

  -- Both commands do to the engine what `engine_run` can do.
  listen_at-Runs :
      (enumerate : Dict Session → List (Text × Session)) (addr : Text) (kind : Kind)
      (os : Listener → List SessionOp) (shown : Listener → Text → Opened) (e : Engine)
      → Runs clock enumerate e
          (listen_at lookup_txt parse_conn_blob listen windows clock addr
            (λ ln e. serve_listener clock kind (os ln) (shown ln) e)
            e).2
  unfolding listen_at serve_listener
  listen_at-Runs enumerate addr kind os shown e = elim (Outcome-cases (listen addr)) [
    | inr (x, l) ↦ rw (l, listen_at) (Runs-refl clock enumerate e)
    | inl (ln, l) ↦
        rw (l, listen_at)
          (answer-Runs (shown ln) (start_session clock kind (os ln) e)
            (start_session-Runs clock enumerate kind (os ln) e))
  ]
    where
      answer-Runs :
          (sh : Text → Opened) (r : Result Text × Engine)
          → Runs clock enumerate e r.1
          → Runs clock enumerate e (answer sh r).2
      answer-Runs sh (ok id, e') h = h
      answer-Runs sh (err x, e') h = h

  pub start_forward-Runs :
      (enumerate : Dict Session → List (Text × Session)) (kind : Kind) (a : StartForwardArgs)
      (e : Engine)
      → Runs clock enumerate e
          (start_forward lookup_txt parse_conn_blob listen windows clock kind a e).2
  unfolding start_forward
  start_forward-Runs enumerate kind a e =
      elim (Result-cases
        (check_forward a >>= λ _. normalize_token lookup_txt parse_conn_blob a.token)) [
          | inr (x, n) ↦ rw (n, start_forward) (Runs-refl clock enumerate e)
          | inl (tok, n) ↦
              rw (n, start_forward)
                (listen_at-Runs enumerate (forward_addr a.bind_all a.local_port) kind
                  (forward_ops a.remote_port) (forward_shown kind) e)
        ]

  pub start_socks-Runs :
      (enumerate : Dict Session → List (Text × Session)) (a : StartSocksArgs) (e : Engine)
      → Runs clock enumerate e (start_socks lookup_txt parse_conn_blob listen windows clock a e).2
  unfolding start_socks
  start_socks-Runs enumerate a e =
      elim (Result-cases
        (normalize_token lookup_txt parse_conn_blob a.token >>= λ _. listen_addr a.listen 1080)) [
          | inr (x, n) ↦ rw (n, start_socks) (Runs-refl clock enumerate e)
          | inl (addr, n) ↦
              rw (n, start_socks) (listen_at-Runs enumerate addr socks socks_ops socks_shown e)
        ]
