-- ===== src/Connect/Attempts.antt =====
-- connect.go and forward.go: the retries of a handshake and of a dial.
use tailcat_gui.Prelude.{
  ℕ, zero, suc, ◌+◌, ◌*◌, ◌≤◌, ◌<◌, List, [], ◌∷◌, ◌≡◌, ◌↔◌, ◌⊎◌, refl, arith, Option, none, Text,
  inl, inr, Option-cases, ℕ_discrete,
}
use tailcat_gui.Tokens.{Outcome, good, bad}
use tailcat_gui.Tokens.Accepted.{Outcome-cases}
use tailcat_gui.Connect.{
  connected, unreachable, attempts, warm_loop, warm_client, dial_loop, dial_peer_port,
}

module _ (ctx_err : ℕ → Option Text) (ping : ℕ → ℕ → Outcome (Unit {0})) where
  -- One of the attempts from number `i` on is answered.
  abbrev pub Answered : List ℕ → ℕ → Type 0
  Answered [] i = ⊥
  Answered (d ∷ ds) i = (ping i d ≡ good tt) ⊎ Answered ds (i + 1)

  module _ (alive : (n : ℕ) → ctx_err n ≡ none) where
    warm_loop-connected :
        (ds : List ℕ) (i : ℕ) (last : Text)
        → Answered ds i
        → (warm_loop ctx_err ping ds i last).0 ≡ connected
    unfolding warm_loop
    warm_loop-connected [] i last a = elim a [ ]
    warm_loop-connected (d ∷ ds) i last a = elim (Outcome-cases (ping i d)) [
      | inl (_, h) ↦ ground (arith, alive (2 * i), h)
      | inr (e, h) ↦ elim a [
        | inl g ↦ absurd (ground arith)
        | inr later ↦
            ground
              (arith, alive (2 * i), alive (2 * i + 1), h, warm_loop-connected ds (i + 1) e later)
      ]
    ]

    warm_loop-unreachable :
        (ds : List ℕ) (i : ℕ) (last : Text)
        → (Answered ds i → ⊥)
        → (e : Text) × ((warm_loop ctx_err ping ds i last).0 ≡ unreachable e)
    unfolding warm_loop
    warm_loop-unreachable [] i last a = (last, refl)
    warm_loop-unreachable (d ∷ ds) i last a = elim (Outcome-cases (ping i d)) [
      | inl (_, h) ↦ absurd (a (inl h))
      | inr (e, h) ↦
          let (x, r) = warm_loop-unreachable ds (i + 1) e (λ later. a (inr later)) in
          (x, ground (arith, alive (2 * i), alive (2 * i + 1), h))
    ]

    -- While the context lasts, `warmClient` succeeds exactly when one of its four handshakes is
    -- answered, and else it tells that the server is not reachable.
    pub warm_client-connected :
        (Answered attempts 0 ↔ ((warm_client ctx_err ping).0 ≡ connected))
        × ((Answered attempts 0 → ⊥) → (e : Text) × ((warm_client ctx_err ping).0 ≡ unreachable e))
    unfolding warm_client
    warm_client-connected = (
      (
        warm_loop-connected attempts 0 [],
        λ h. elim (Answered-cases attempts 0) [
          | inl a ↦ a
          | inr never ↦
              let (e, r) = warm_loop-unreachable attempts 0 [] never in absurd (ground arith)
        ],
      ),
      warm_loop-unreachable attempts 0 [],
    )
      where
        Answered-cases : (ds : List ℕ) (i : ℕ) → Answered ds i ⊎ (Answered ds i → ⊥)
        Answered-cases [] i = inr (λ a. a)
        Answered-cases (d ∷ ds) i = elim (Outcome-cases (ping i d)) [
          | inl (_, h) ↦ inl (inl h)
          | inr (e, h) ↦ elim (Answered-cases ds (i + 1)) [
            | inl a ↦ inl (inr a)
            | inr never ↦ inr (elim [ inl g ↦ absurd (ground arith) | inr a ↦ never a ])
          ]
        ]

module _ {Conn : Type 0} (port : ℕ) (ctx_err : ℕ → Option Text) (dial : ℕ → Outcome Conn) where
  -- The attempts from `first` on, `n` of them, of which the one with the number `k` is the first that succeeds.
  pub record Succeeds (first n : ℕ) (c : Conn) : Type 0 where
    pub k : ℕ
    pub from : first ≤ k
    pub within : k < first + n
    pub dialled : dial k ≡ good c
    pub before : (i : ℕ) → first ≤ i → i < k → (e : Text) × (dial i ≡ bad e)

  dial_loop-good :
      (n first : ℕ) (last : Text) (c : Conn)
      → (dial_loop port ctx_err dial n first last).0 ≡ good c
      → Succeeds first n c
  unfolding dial_loop
  dial_loop-good zero first last c h = absurd (ground arith)
  dial_loop-good (suc n) first last c h = elim (Outcome-cases (dial first)) [
    | inl (d, g) ↦ record {
      k = first;
      from = omega arith;
      within = omega arith;
      dialled = ground arith;
      before = λ i lo hi. absurd (omega arith);
    }
    | inr (e, g) ↦ elim (Option-cases (ctx_err first)) [
      | inr (x, y) ↦ absurd (ground arith)
      | inl y ↦
          let s = dial_loop-good n (first + 1) e c (ground arith) in
          record {
            k = s.k;
            from = omega (arith, s.from);
            within = omega (arith, s.within);
            dialled = s.dialled;
            before = λ i lo hi. elim (ℕ_discrete i first) [
              | yes same ↦ (e, rw same g)
              | no differ ↦ s.before i (omega arith) hi
            ];
          }
    ]
  ]

  dial_loop-succeeds :
      ((i : ℕ) → ctx_err i ≡ none)
      → (n first k : ℕ) (last : Text) (c : Conn) → first ≤ k
      → k < first + n
      → dial k ≡ good c
      → (d : Conn) × ((dial_loop port ctx_err dial n first last).0 ≡ good d)
  unfolding dial_loop
  dial_loop-succeeds alive zero first k last c lo hi h = absurd (omega arith)
  dial_loop-succeeds alive (suc n) first k last c lo hi h = elim (Outcome-cases (dial first)) [
    | inl (d, g) ↦ (d, ground arith)
    | inr (e, g) ↦ elim (ℕ_discrete first k) [
      | yes same ↦ absurd (ground arith)
      | no differ ↦
          let (d, r) = dial_loop-succeeds alive n (first + 1) k e c (omega arith) (omega arith) h in
          (d, ground (arith, alive first))
    ]
  ]

  -- A connection that `dialPeerPort` returns is that of the first attempt that succeeds, of three
  -- at most, made once the tunnel is up. If the tunnel is up and the session lasts, it returns one
  -- whenever one of the three attempts succeeds.
  pub dial_peer_port-good :
      (ready : Outcome (Unit {0}))
      → ((c : Conn)
          → (dial_peer_port port ctx_err dial ready).0 ≡ good c
          → (ready ≡ good tt) × Succeeds 1 3 c)
        × (((i : ℕ) → ctx_err i ≡ none)
            → (k : ℕ) (c : Conn) → 1 ≤ k
            → k ≤ 3
            → dial k ≡ good c
            → ready ≡ good tt
            → (d : Conn) × ((dial_peer_port port ctx_err dial ready).0 ≡ good d))
  unfolding dial_peer_port
  dial_peer_port-good (good tt) = (
    λ c h. (refl, dial_loop-good 3 1 [] c h),
    λ alive k c lo hi h r. dial_loop-succeeds alive 3 1 k [] c lo (omega arith) h,
  )
  dial_peer_port-good (bad e) =
      (λ c h. absurd (ground arith), λ alive k c lo hi h r. absurd (ground arith))
