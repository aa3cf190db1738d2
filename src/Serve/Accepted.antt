-- ===== src/Serve/Accepted.antt =====
-- server.go: what `startServer` accepts before it opens a session.
use tailcat_gui.Prelude.{
  ℕ, ◌≤◌, Bool, true, false, not, ◌&&◌, List, [], ◌∷◌, ◌≡◌, ◌⊎◌, inl, inr, refl, ◌∙◌, arith, Option,
  none, some, Text, ℤ, All, Bool-cases,
}
use tailcat_gui.Errors.{Error, Result, ok, err, bad_request, unsupported, code_of, Result-cases}
use tailcat_gui.Events
use tailcat_gui.Share.Mode.{Mode, read_only, parse_mode}
use tailcat_gui.Tokens.{Outcome, good}
use tailcat_gui.Tokens.Accepted.{Outcome-cases}
use tailcat_gui.Serve.{
  FilesSpec, StartServerArgs, has_files, out_of_range, offers_nothing, check_ports, check_shares,
  check_files, validate, bad_port, bad_share, bad_mode, bad_dir, no_dir, nothing_to_serve,
  two_shares, no_shell,
}

-- A check that succeeds with a value that has a property, or refuses because no value has it.
abbrev pub Decides {ℓ} : {A : Type ℓ} → Result A → (A → Type 0) → Type ℓ
Decides {A = A} r P =
    ((a : A) × (r ≡ ok a) × P a)
    ⊎ ((e : Error) × (r ≡ err e)
        × ((code_of e ≡ bad_request) ⊎ (code_of e ≡ unsupported))
        × ((a : A) → P a → ⊥))

abbrev pub IsPort : ℤ → Type 0
IsPort p = (n : ℕ) × (p ≡ ℤ.pos n) × (1 ≤ n) × (n ≤ 65535)

pub out_of_range-IsPort :
    (p : ℤ) → (IsPort p × (out_of_range p ≡ false)) ⊎ ((IsPort p → ⊥) × (out_of_range p ≡ true))
out_of_range-IsPort (ℤ.pos n) = elim (Bool-cases (out_of_range (ℤ.pos n))) [
  | inl h ↦ inr (λ (m, e, lo, hi). absurd (ground arith), h)
  | inr h ↦ inl ((n, refl, ground arith, ground arith), h)
]
out_of_range-IsPort (ℤ.negsuc n) = inr (λ (m, e, lo, hi). absurd (ground arith), ground arith)

pub check_ports-Decides : (ps : List ℤ) → Decides (check_ports ps) (λ _. All IsPort ps)
unfolding check_ports code_of
check_ports-Decides [] = inl (tt, refl, tt)
check_ports-Decides (p ∷ ps) = elim (out_of_range-IsPort p) [
  | inr (never, h) ↦ inr (bad_port p, rw (h, check_ports) refl, inl refl, λ _ a. never a.0)
  | inl (port, h) ↦ elim (check_ports-Decides ps) [
    | inl (_, r, a) ↦ inl (tt, rw (h, r, check_ports) refl, (port, a))
    | inr (e, r, c, never) ↦ inr (e, rw (h, r, check_ports) refl, c, λ _ a. never tt a.1)
  ]
]

module _ (stat : Text → Outcome Bool) (ssh_supported : Bool) where
  abbrev pub Exists : Text → Type 0
  Exists p = (d : Bool) × (stat p ≡ good d)

  check_shares-Decides :
      (ps : List Text) → Decides (check_shares stat ssh_supported ps) (λ _. All Exists ps)
  unfolding check_shares code_of
  check_shares-Decides [] = inl (tt, refl, tt)
  check_shares-Decides (p ∷ ps) = elim (Outcome-cases (stat p)) [
    | inr (x, h) ↦
        inr
          (bad_share x, rw (h, check_shares) refl, inl refl, λ _ ((d, g), _). absurd (ground arith))
    | inl (d, h) ↦ elim (check_shares-Decides ps) [
      | inl (_, r, a) ↦ inl (tt, rw (h, r, check_shares) refl, ((d, h), a))
      | inr (e, r, c, never) ↦ inr (e, rw (h, r, check_shares) refl, c, λ _ a. never tt a.1)
    ]
  ]

  -- The mode of the files that are served, if there are any.
  abbrev pub HasMode : Option FilesSpec → Mode → Type 0
  HasMode none m = m ≡ read_only
  HasMode (some f) m = (parse_mode f.mode ≡ ok m) × (stat f.dir ≡ good true)

  check_files-Decides :
      (f : Option FilesSpec) → Decides (check_files stat ssh_supported f) (HasMode f)
  unfolding check_files code_of
  check_files-Decides none = inl (read_only, refl, refl)
  check_files-Decides (some f) = elim (Result-cases (parse_mode f.mode)) [
    | inr (x, h) ↦
        inr (bad_mode f, rw (h, check_files) refl, inl refl, λ m (g, _). absurd (ground arith))
    | inl (m, h) ↦ elim (Outcome-cases (stat f.dir)) [
      | inr (x, s) ↦
          inr (bad_dir x, rw (h, s, check_files) refl, inl refl, λ m (_, g). absurd (ground arith))
      | inl (d, s) ↦ elim (Bool-cases d) [
        | inl t ↦ inl (m, rw (h, s, check_files) (rw t refl), (h, s ∙ rw t refl))
        | inr t ↦ inr (
          no_dir f,
          rw (h, s, check_files) (rw t refl),
          inl refl,
          λ m (_, g). absurd (ground arith),
        )
      ]
    ]
  ]

  -- What a server may be started with, and the mode of its files.
  pub record IsAccepted (a : StartServerArgs) (m : Mode) : Type 0 where
    pub something : offers_nothing a ≡ false
    pub one_share : (has_files a && not (Events.is_empty a.share_paths)) ≡ false
    pub shares : All Exists a.share_paths
    pub ports : All IsPort a.ports
    pub shell : (a.ssh && not ssh_supported) ≡ false
    pub files : HasMode a.files m

  -- The checks of `startServer` before it opens a session pass exactly where there is something to
  -- serve, not both `files` and `share_paths`, share paths that exist, ports from 1 to 65535, a
  -- shell only where the platform has one, and files with a known mode, which they return, in a
  -- directory that exists. Else they refuse with the code `bad_request` or `unsupported`.
  pub validate-Decides :
      (a : StartServerArgs) → Decides (validate stat ssh_supported a) (IsAccepted a)
  unfolding validate code_of
  validate-Decides a = elim (Bool-cases (offers_nothing a)) [
    | inl h ↦ inr (
      nothing_to_serve,
      rw (h, validate) refl,
      inl refl,
      λ m k. absurd (ground (arith, k.something)),
    )
    | inr h ↦ elim (Bool-cases (has_files a && not (Events.is_empty a.share_paths))) [
      | inl f ↦ inr (
        two_shares,
        rw (h, f, validate) refl,
        inl refl,
        λ m k. absurd (ground (arith, k.one_share)),
      )
      | inr f ↦ elim (check_shares-Decides a.share_paths) [
        | inr (e, r, c, never) ↦ inr (e, rw (h, f, r, validate) refl, c, λ m k. never tt k.shares)
        | inl (_, r, shares) ↦ elim (check_ports-Decides a.ports) [
          | inr (e, q, c, never) ↦
              inr (e, rw (h, f, r, q, validate) refl, c, λ m k. never tt k.ports)
          | inl (_, q, ports) ↦ elim (Bool-cases (a.ssh && not ssh_supported)) [
            | inl s ↦ inr (
              no_shell,
              rw (h, f, r, q, s, validate) refl,
              inr refl,
              λ m k. absurd (ground (arith, k.shell)),
            )
            | inr s ↦ elim (check_files-Decides a.files) [
              | inr (e, t, c, never) ↦
                  inr (e, rw (h, f, r, q, s, t, validate) refl, c, λ m k. never m k.files)
              | inl (m, t, files) ↦ inl (
                m,
                rw (h, f, r, q, s, t, validate) refl,
                record {
                  something = h;
                  one_share = f;
                  shares = shares;
                  ports = ports;
                  shell = s;
                  files = files;
                },
              )
            ]
          ]
        ]
      ]
    ]
  ]
