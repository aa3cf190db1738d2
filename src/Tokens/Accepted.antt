-- ===== src/Tokens/Accepted.antt =====
-- engine.go: which tokens the engine takes.
use tailcat_gui.Prelude.{
  true, false, List, [], ◌≡◌, ◌⊎◌, inl, inr, refl, arith, Text, codes, text_eq, is_some, Bool-cases,
  subst,
}
use tailcat_gui.Errors.{Result, ok, err, Error, invalid_token, code_of, Result-cases}
use tailcat_gui.Share.Names.{trim_space, trim_prefix, cut_prefix, has_byte}
use tailcat_gui.Tokens.{
  Outcome, good, bad, check_token, resolve_token, normalize_token, parse_token,
}

pub Outcome-cases {ℓ} :
    {A : Type ℓ} (o : Outcome A) → ((a : A) × (o ≡ good a)) ⊎ ((e : Text) × (o ≡ bad e))
Outcome-cases (good a) = inl (a, refl)
Outcome-cases (bad e) = inr (e, refl)

module _ {ConnInfo : Type 0} (lookup_txt : Text → Outcome (List Text))
    (parse_conn_blob : Text → Outcome ConnInfo) where
  -- What a token check may answer: a token that tailcat reads, or an error with the code `invalid_token`.
  abbrev pub Checked : Result Text → Type 0
  Checked (ok tok) = (ci : ConnInfo) × (parse_conn_blob tok ≡ good ci)
  Checked (err e) = code_of e ≡ invalid_token

  check_token-Checked : (tok : Text) → Checked (check_token lookup_txt parse_conn_blob tok)
  unfolding check_token code_of
  check_token-Checked tok = elim (Outcome-cases (parse_conn_blob tok)) [
    | inl (ci, h) ↦ rw (h, check_token) (ci, h)
    | inr (e, h) ↦ rw (h, check_token) refl
  ]

  resolve_token-code :
      (tok : Text) (e : Error)
      → resolve_token lookup_txt parse_conn_blob tok ≡ err e
      → code_of e ≡ invalid_token
  unfolding resolve_token code_of
  resolve_token-code tok e h = ground arith

  -- Whatever the user types and the resolver answers, `normalizeToken` returns a token that
  -- tailcat reads, or an error with the code `invalid_token`.
  pub normalize_token-Checked :
      (input : Text) → Checked (normalize_token lookup_txt parse_conn_blob input)
  unfolding normalize_token code_of
  normalize_token-Checked input =
      let tok = trim_prefix (codes "tailcat=") (trim_space input) in
      elim (Bool-cases (text_eq tok [])) [
        | inl e ↦ rw e refl
        | inr e ↦ elim (Result-cases (resolve_token lookup_txt parse_conn_blob tok)) [
          | inl (t, r) ↦ rw (e, r, normalize_token) (check_token-Checked t)
          | inr (x, r) ↦ rw (e, r, normalize_token) (resolve_token-code tok x r)
        ]
      ]

  -- `parseToken` succeeds exactly when `normalizeToken` does, with the same token, which tailcat
  -- reads: its own check never fails. Both fail with the same error, whose code is
  -- `invalid_token`.
  pub parse_token-normalize_token :
      (input : Text)
      → let n = normalize_token lookup_txt parse_conn_blob input in
        let p = parse_token lookup_txt parse_conn_blob input in
        ((tok : Text) × (ci : ConnInfo) × (n ≡ ok tok)
          × (parse_conn_blob tok ≡ good ci)
          × (p ≡ ok (tok, ci)))
        ⊎ ((e : Error) × (n ≡ err e) × (p ≡ err e) × (code_of e ≡ invalid_token))
  unfolding parse_token
  parse_token-normalize_token input =
      elim (Result-cases (normalize_token lookup_txt parse_conn_blob input)) [
        | inl (tok, n) ↦
            let c : Checked (ok tok) = subst Checked n (normalize_token-Checked input) in
            inl (tok, c.0, n, c.1, rw (n, parse_token) (rw (c.1) refl))
        | inr (e, n) ↦
            inr (e, n, rw (n, parse_token) refl, subst Checked n (normalize_token-Checked input))
      ]

-- On an input that has no dot or begins with `tc`, less the white space around it and the prefix
-- `tailcat=`, the answers of the resolver make no difference to `normalizeToken`.
pub normalize_token-offline :
    {ConnInfo : Type 0} (lookup_a lookup_b : Text → Outcome (List Text))
    (parse_conn_blob : Text → Outcome ConnInfo) (input : Text)
    → let tok = trim_prefix (codes "tailcat=") (trim_space input) in
      (has_byte b'.' tok ≡ false) ⊎ (is_some (cut_prefix (codes "tc") tok) ≡ true)
      → normalize_token lookup_a parse_conn_blob input
        ≡ normalize_token lookup_b parse_conn_blob input
unfolding normalize_token resolve_token check_token
normalize_token-offline lookup_a lookup_b parse_conn_blob input h = ground arith
